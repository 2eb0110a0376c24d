-- ===== src/Tz/Syscall/Runs.antt =====
-- `run` and RunNonsecureWorld of tee/trusted_os/tz/tz.go: a whole run of an applet or of the
-- non-secure world, by the system calls that it makes. By the documentation of GoTEE, the context's
-- own `Run` hands each call to the context's handler, and ends with the first error of it.
use wall_era.Common.{
  ℕ, ◌≡◌, ◌≢◌, refl, sym, ap, ◌∙◌, arith, if◌then◌else◌, Bool, true, false, List, [], ◌∷◌, ◌++◌,
  Option, none, some, append-nil, append_assoc,
}
use wall_era.Common.Go.{Outcome, returns, panics, ◌>>=◌}
use wall_era.Common.Bytes.{uint8}
use wall_era.Tz.{Context}
use wall_era.Tz.Log.{Console, buffered_stdout_log, pending, log-keeps}
use wall_era.Tz.Syscall.{
  ExecCtx, Machine, Monitor, HandlerError, HandlerResult, log_byte, log_handler,
  nonsecure_world_handler, run_end, nonsecure_exit, ta_exit,
}
use wall_era.Tz.Syscall.Exits.{
  IsNumbered, ended, exits_end_runs, exit_error_panics, nonsecure_world_handler-log,
}

module _ {D J : Type 0} (monitor : Monitor D J) (run_ta : ℕ → Context → Outcome Context) where
  -- The handler of the non-secure world, or that of an applet.
  abbrev pub handler_of : Bool → ExecCtx → Machine → HandlerResult monitor
  handler_of true = nonsecure_world_handler monitor run_ta
  handler_of false = log_handler monitor

  abbrev pub serve_calls : Bool → List ExecCtx → Machine → HandlerResult monitor
  serve_calls ns [] m = returns (m, none)
  serve_calls ns (ctx ∷ calls) m = do
    (m', e) ← handler_of ns ctx m
    let rest = serve_calls ns calls m'
    elim e [ none ↦ rest | some x ↦ returns (m', some x) ]

  abbrev ran : Bool → Machine × Option (HandlerError D J) → Outcome Machine
  ran ns (m, e) = do u ← run_end monitor ns e; returns m

  unfoldable pub run : Bool → List ExecCtx → Machine → Outcome Machine
  run ns calls m = do r ← serve_calls ns calls m; ran ns r

  unfoldable pub run_nonsecure_world : List ExecCtx → Machine → Outcome Machine
  unfolding run
  run_nonsecure_world calls m = run true calls m

  -- Calls of a world that print these bytes, or that are served without an error and without an
  -- effect on the consoles, with the machine after them.
  pub data Serves (ns : Bool) : List ExecCtx → Machine → List ℕ → Machine → Type 0 where
    served : (m : Machine) → Serves ns [] m [] m
    printed :
        (ctx : ExecCtx) (calls : List ExecCtx) (m m' : Machine) (bytes : List ℕ)
        → ctx.r0 ≡ monitor.sys_write
        → ctx.non_secure ≡ ns
        → Serves ns calls (log_byte monitor ctx m) bytes m'
        → Serves ns (ctx ∷ calls) m (uint8 ctx.r1 ∷ bytes) m'
    called :
        (ctx : ExecCtx) (calls : List ExecCtx) (m m1 m' : Machine) (bytes : List ℕ)
        → handler_of ns ctx m ≡ returns (m1, none)
        → m1.console ≡ m.console
        → Serves ns calls m1 bytes m'
        → Serves ns (ctx ∷ calls) m bytes m'

  module _ (numbered : IsNumbered monitor) (write_req : monitor.sys_write ≢ monitor.sys_rpc_req)
      (write_res : monitor.sys_write ≢ monitor.sys_rpc_res) where
    log_handler-write :
        (ctx : ExecCtx) (m : Machine)
        → ctx.r0 ≡ monitor.sys_write
        → log_handler monitor ctx m ≡ returns (log_byte monitor ctx m, none)
    unfolding log_handler
    log_handler-write ctx m e = ground arith

    handler_of-write :
        (ns : Bool) (ctx : ExecCtx) (m : Machine)
        → ctx.r0 ≡ monitor.sys_write
        → handler_of ns ctx m ≡ returns (log_byte monitor ctx m, none)
    handler_of-write false ctx m e = log_handler-write ctx m e
    handler_of-write true ctx m e =
        nonsecure_world_handler-log monitor run_ta ctx m (λ p. write_req (sym e ∙ p))
          (λ p. write_res (sym e ∙ p))
        ∙ log_handler-write ctx m e

    -- Served calls and then one more.
    serve_calls-then :
        {ns : Bool} {calls : List ExecCtx} {m m' : Machine} {bytes : List ℕ} (last : ExecCtx)
        → Serves ns calls m bytes m'
        → serve_calls ns (calls ++ (last ∷ [])) m ≡ serve_calls ns (last ∷ []) m'
    serve_calls-then last (served m) = refl
    serve_calls-then {ns} last (printed ctx calls m m' bytes e same rest) =
        rw (handler_of-write ns ctx m e) (serve_calls-then last rest)
    serve_calls-then last (called ctx calls m m1 m' bytes e same rest) =
        rw e (serve_calls-then last rest)

    -- What is printed comes out in order.
    Serves-prints :
        {ns : Bool} {calls : List ExecCtx} {m m' : Machine} {bytes : List ℕ}
        → Serves ns calls m bytes m'
        → m'.console.stdout ++ pending ns m'.console
          ≡ (m.console.stdout ++ pending ns m.console) ++ bytes
    Serves-prints {ns} (served m) = sym (append-nil (m.console.stdout ++ pending ns m.console))
    Serves-prints {ns} (printed ctx calls m m' bytes e same rest) =
        Serves-prints rest
        ∙ ap
            (λ (b : Bool).
              ((buffered_stdout_log (uint8 ctx.r1) b m.console).stdout
                ++ pending ns (buffered_stdout_log (uint8 ctx.r1) b m.console))
              ++ bytes)
            same
        ∙ ap (λ (t : List ℕ). t ++ bytes) (log-keeps (uint8 ctx.r1) ns m.console)
        ∙ append_assoc (m.console.stdout ++ pending ns m.console) (uint8 ctx.r1 ∷ []) bytes
    Serves-prints {ns} (called ctx calls m m1 m' bytes e same rest) =
        Serves-prints rest ∙ ap (λ (c : Console). (c.stdout ++ pending ns c) ++ bytes) same

    handler_of-exit :
        (ns : Bool) (exit : ExecCtx) (m : Machine)
        → exit.r0 ≡ monitor.sys_exit
        → handler_of ns exit m
          ≡ returns (m, some (if exit.non_secure then nonsecure_exit else ta_exit))
    handler_of-exit false exit m e =
        let (handled, same, ends) = exits_end_runs monitor run_ta exit m numbered e in handled
    handler_of-exit true exit m e =
        let (handled, same, ends) = exits_end_runs monitor run_ta exit m numbered e in
        same ∙ handled

    run-exit :
        (ns : Bool) (exit : ExecCtx) (m : Machine)
        → exit.r0 ≡ monitor.sys_exit
        → exit.non_secure ≡ ns
        → run ns (exit ∷ []) m ≡ returns m
    unfolding run run_end
    run-exit false exit m e same = rw (handler_of-exit false exit m e, same)
    run-exit true exit m e same = rw (handler_of-exit true exit m e, same)

    run-ended :
        (ns : Bool) (ctx : ExecCtx) (m : Machine) (o : HandlerResult monitor)
        → handler_of ns ctx m ≡ o
        → ctx.non_secure ≡ ns
        → ended monitor run_ta ctx o ≡ panics
        → run ns (ctx ∷ []) m ≡ panics
    unfolding run
    run-ended ns ctx m panics handled same ends = rw handled
    run-ended ns ctx m (returns (m1, none)) handled same ends = unfold run_end in cc
    run-ended ns ctx m (returns (m1, some x)) handled same ends = rw (handled, rw same at ends)

    handler_of-error :
        (ns : Bool) (ctx : ExecCtx) (m : Machine)
        → ctx.r0 ≡ 666
        → ended monitor run_ta ctx (handler_of ns ctx m) ≡ panics
    handler_of-error false ctx m e = (exit_error_panics monitor run_ta ctx m numbered e).0
    handler_of-error true ctx m e = (exit_error_panics monitor run_ta ctx m numbered e).1

    -- A run of an applet or of the non-secure world that prints bytes, makes other calls that are
    -- served without an error and without an effect on the consoles, in any order, and then makes its
    -- exit call, returns with the machine that those calls lead to; and standard output, followed by
    -- what waits in the world's buffer, has grown by exactly the printed bytes, in order. If its
    -- last call is the report of an error instead, the secure system panics, whatever went before.
    -- The numbers of the calls have to be different from one another.
    pub run-exits :
        (ns : Bool) (calls : List ExecCtx) (m m' : Machine) (bytes : List ℕ) (exit report : ExecCtx)
        → Serves ns calls m bytes m'
        → exit.r0 ≡ monitor.sys_exit
        → exit.non_secure ≡ ns
        → report.r0 ≡ 666
        → report.non_secure ≡ ns
        → (run ns (calls ++ (exit ∷ [])) m ≡ returns m')
          × (m'.console.stdout ++ pending ns m'.console
              ≡ (m.console.stdout ++ pending ns m.console) ++ bytes)
          × (run ns (calls ++ (report ∷ [])) m ≡ panics)
    unfolding run
    run-exits ns calls m m' bytes exit report serves e same e' same' = (
      ap (λ (r : HandlerResult monitor). r >>= ran ns) (serve_calls-then exit serves)
          ∙ run-exit ns exit m' e same,
      Serves-prints serves,
      ap (λ (r : HandlerResult monitor). r >>= ran ns) (serve_calls-then report serves)
          ∙ run-ended ns report m' (handler_of ns report m') refl same'
              (handler_of-error ns report m' e'),
    )
