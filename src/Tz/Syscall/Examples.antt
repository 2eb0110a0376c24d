-- ===== src/Tz/Syscall/Examples.antt =====
-- The theorems on system calls at concrete registers.
use wall_era.Common.{ℕ, ◌≡◌, refl, ap, arith, List, [], ◌∷◌, ◌++◌, none, some, true}
use wall_era.Common.Go.{Result, returns, panics, ok}
use wall_era.Tz.{new_context, dispatch_apps_calls, visit_all}
use wall_era.Tz.Log.{Console, buffered_stdout_log, pending}
use wall_era.Tz.Syscall.{
  exit_with_error, ClientPanic, client_panic, ExecCtx, Machine, Monitor, log_handler,
  nonsecure_world_handler,
}
use wall_era.Tz.Syscall.Exits.{IsNumbered}
use wall_era.Tz.Syscall.Runs.{Serves, served, printed, called, run, run-exits}
use wall_era.Tz.Syscall.Report.{reported_error_arrives}

abbrev empty_console : Console
empty_console = record { secure_output = []; non_secure_output = []; stdout = [] }

abbrev some_monitor : Monitor ℕ ℕ
some_monitor = record {
  sys_write = 1;
  sys_exit = 0;
  sys_rpc_req = 4;
  sys_rpc_res = 5;
  secure_handler = λ ctx m. (m, none);
  non_secure_handler = λ ctx m. (m, some 3);
  rand_read = λ n. ok (9 ∷ 9 ∷ []);
  memory_read = λ start offset n. 65 ∷ 66 ∷ [];
  unmarshal_panic = λ bs. ok (record { msg = bs; stacktrace = [] });
}

some_monitor-IsNumbered : IsNumbered some_monitor
some_monitor-IsNumbered = record {
  write_exit = λ e. omega arith;
  write_error = λ e. omega arith;
  exit_error_not = λ e. omega arith;
  req_error = λ e. omega arith;
  res_error = λ e. omega arith;
  req_exit = λ e. omega arith;
  res_exit = λ e. omega arith;
}

abbrev stopped_at : ℕ → ExecCtx
stopped_at call = record {
  r0 = call;
  r1 = 1008;
  r2 = 2;
  non_secure = true;
  memory_start = 1000;
  memory_size = 10;
}

abbrev a_machine : Machine
a_machine = record { context = new_context; console = empty_console }

abbrev marshal_text : ClientPanic → Result ℕ (List ℕ)
marshal_text p = ok p.msg

marshal_text-law :
    (bs : List ℕ)
    → marshal_text (record { msg = 65 ∷ 66 ∷ []; stacktrace = [] }) ≡ ok bs
    → some_monitor.unmarshal_panic bs ≡ ok (record { msg = 65 ∷ 66 ∷ []; stacktrace = [] })
marshal_text-law bs e =
    let same : bs ≡ 65 ∷ 66 ∷ [] = cc in
    ap (λ (t : List ℕ). ok (record { msg = t; stacktrace = [] })) same

-- A byte is left behind the message.
reported_error_arrives_example :
    log_handler some_monitor (record (stopped_at 666) { memory_size = 11 }) a_machine
    ≡ returns (a_machine, some (client_panic (record { msg = 65 ∷ 66 ∷ []; stacktrace = [] })))
unfolding exit_with_error
reported_error_arrives_example =
    reported_error_arrives some_monitor (λ k c. returns c) marshal_text
      (record (stopped_at 666) { memory_size = 11 }) a_machine (65 ∷ 66 ∷ []) [] (65 ∷ 66 ∷ [])
      (9 ∷ 9 ∷ []) 2 8 some_monitor-IsNumbered refl marshal_text-law
      (record {
        is_error_call = refl;
        at_offset = refl;
        small_address = omega arith;
        small_offset = omega arith;
        with_length = refl;
        small_length = omega arith;
        holds = refl;
      })
      refl refl

-- A call that prints a byte.
abbrev prints : ℕ → ExecCtx
prints b = record (stopped_at 1) { r1 = b }

abbrev after_bytes : List ℕ → List ℕ → Machine
after_bytes waiting out = record a_machine {
  console = record empty_console { non_secure_output = waiting; stdout = out };
}

-- The non-secure world prints a letter, makes a call of the mailboxes, and prints the end of the line.
greeting-Serves :
    Serves some_monitor
      (λ k c. returns c)
      true
      (prints 72 ∷ stopped_at 4 ∷ prints 10 ∷ [])
      a_machine
      (72 ∷ 10 ∷ [])
      (after_bytes [] (72 ∷ 10 ∷ []))
unfolding nonsecure_world_handler buffered_stdout_log dispatch_apps_calls visit_all
greeting-Serves =
    printed (prints 72) (stopped_at 4 ∷ prints 10 ∷ []) a_machine _ (10 ∷ []) refl refl (
      called (stopped_at 4) (prints 10 ∷ []) (after_bytes (72 ∷ []) []) (after_bytes (72 ∷ []) []) _
        (10 ∷ []) refl refl
        (printed (prints 10) [] (after_bytes (72 ∷ []) []) _ [] refl refl (served _)))

run-exits_example :
    (run some_monitor
        (λ k c. returns c)
        true
        (prints 72 ∷ stopped_at 4 ∷ prints 10 ∷ stopped_at 0 ∷ [])
        a_machine
      ≡ returns (after_bytes [] (72 ∷ 10 ∷ [])))
    × ((after_bytes [] (72 ∷ 10 ∷ [])).console.stdout
          ++ pending true (after_bytes [] (72 ∷ 10 ∷ [])).console
        ≡ (empty_console.stdout ++ pending true empty_console) ++ (72 ∷ 10 ∷ []))
    × (run some_monitor
          (λ k c. returns c)
          true
          (prints 72 ∷ stopped_at 4 ∷ prints 10 ∷ stopped_at 666 ∷ [])
          a_machine
        ≡ panics)
run-exits_example =
    run-exits some_monitor (λ k c. returns c) some_monitor-IsNumbered (λ e. omega arith)
      (λ e. omega arith) true (prints 72 ∷ stopped_at 4 ∷ prints 10 ∷ []) a_machine
      (after_bytes [] (72 ∷ 10 ∷ [])) (72 ∷ 10 ∷ []) (stopped_at 0) (stopped_at 666) greeting-Serves
      refl refl refl refl
