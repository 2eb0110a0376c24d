-- ===== src/Tz/Syscall/Exits.antt =====
-- How the run of a world ends.
use wall_era.Common.{
  ℕ, ◌+◌, ◌<◌, ◌≡◌, ◌≢◌, sym, ap, ◌∙◌, arith, List, some, ltb, if◌then◌else◌, length, inl, inr,
  Bool-cases,
}
use wall_era.Common.Go.{Outcome, returns, panics, ok}
use wall_era.Tz.{Context}
use wall_era.Tz.Syscall.{
  ExecCtx, ClientPanic, Machine, Monitor, HandlerResult, invalid_read_offset, client_panic,
  exit_error, log_handler, run_end, nonsecure_world_handler, read_offset, nonsecure_exit, ta_exit,
}

-- The numbers of the calls are different from one another.
pub record IsNumbered {D J : Type 0} (monitor : Monitor D J) : Type 0 where
  pub write_exit : monitor.sys_write ≢ monitor.sys_exit
  pub write_error : monitor.sys_write ≢ 666
  pub exit_error_not : monitor.sys_exit ≢ 666
  pub req_error : monitor.sys_rpc_req ≢ 666
  pub res_error : monitor.sys_rpc_res ≢ 666
  pub req_exit : monitor.sys_rpc_req ≢ monitor.sys_exit
  pub res_exit : monitor.sys_rpc_res ≢ monitor.sys_exit

module _ {D J : Type 0} (monitor : Monitor D J) (run_ta : ℕ → Context → Outcome Context) where
  -- The world's run after a call that ends it.
  abbrev pub ended : ExecCtx → HandlerResult monitor → Outcome (Unit {0})
  ended ctx panics = panics
  ended ctx (returns (m, e)) = run_end monitor ctx.non_secure e

  exit_error-ended : (ctx : ExecCtx) (m : Machine) → ended ctx (exit_error monitor ctx m) ≡ panics
  unfolding exit_error run_end
  exit_error-ended ctx m = ground arith

  pub log_handler-error :
      (ctx : ExecCtx) (m : Machine)
      → IsNumbered monitor
      → ctx.r0 ≡ 666
      → log_handler monitor ctx m ≡ exit_error monitor ctx m
  unfolding log_handler
  log_handler-error ctx m n e = ground arith

  pub nonsecure_world_handler-log :
      (ctx : ExecCtx) (m : Machine)
      → ctx.r0 ≢ monitor.sys_rpc_req
      → ctx.r0 ≢ monitor.sys_rpc_res
      → nonsecure_world_handler monitor run_ta ctx m ≡ log_handler monitor ctx m
  unfolding nonsecure_world_handler
  nonsecure_world_handler-log ctx m req res = ground arith

  -- The call 666, by which an applet reports an error, ends the run of its world in a panic of the
  -- secure system whatever the registers hold: for an applet, and for the non-secure world, whose
  -- handler lets the call through, too. The numbers of the other calls have to be different.
  pub exit_error_panics :
      (ctx : ExecCtx) (m : Machine)
      → IsNumbered monitor
      → ctx.r0 ≡ 666
      → (ended ctx (log_handler monitor ctx m) ≡ panics)
        × (ended ctx (nonsecure_world_handler monitor run_ta ctx m) ≡ panics)
  exit_error_panics ctx m n e =
      let through : ended ctx (log_handler monitor ctx m) ≡ panics =
        ap (ended ctx) (log_handler-error ctx m n e) ∙ exit_error-ended ctx m in
      (
        through,
        ap (ended ctx) (
              nonsecure_world_handler-log ctx m (λ p. n.req_error (sym p ∙ e))
                (λ p. n.res_error (sym p ∙ e)))
            ∙ through,
      )

  -- An applet's exit call ends the applet's run, and the non-secure world's exit call ends that
  -- world's run, both without a panic and without a change of mailboxes and consoles.
  pub exits_end_runs :
      (ctx : ExecCtx) (m : Machine)
      → IsNumbered monitor
      → ctx.r0 ≡ monitor.sys_exit
      → (log_handler monitor ctx m
          ≡ returns (m, some (if ctx.non_secure then nonsecure_exit else ta_exit)))
        × (nonsecure_world_handler monitor run_ta ctx m ≡ log_handler monitor ctx m)
        × (ended ctx (log_handler monitor ctx m) ≡ returns tt)
  unfolding log_handler run_end
  exits_end_runs ctx m n e = (
    ground arith,
    nonsecure_world_handler-log ctx m (λ p. n.req_exit (sym p ∙ e)) (λ p. n.res_exit (sym p ∙ e)),
    ground arith,
  )

module _ {D J : Type 0} (monitor : Monitor D J) where
  -- An applet that reports an error from a message in its memory, at an offset, is answered by that
  -- message if the message ends before the last byte of the memory, and else, also if it ends
  -- exactly with the memory, by the error of an invalid offset. Random bytes have to be at hand.
  pub exit_error_reads :
      (ctx : ExecCtx) (m : Machine) (offset : ℕ) (noise : List ℕ) (ce : ClientPanic)
      → ctx.r1 ≡ ctx.memory_start + offset
      → ctx.r1 < 4294967296
      → offset < 2147483648
      → ctx.r2 < 2147483648
      → monitor.rand_read ctx.r2 ≡ ok noise
      → length noise ≡ ctx.r2
      → monitor.unmarshal_panic (monitor.memory_read ctx.memory_start offset ctx.r2) ≡ ok ce
      → exit_error monitor ctx m
        ≡ returns (
          m,
          some (
              if ltb (offset + ctx.r2) ctx.memory_size
              then client_panic ce
              else invalid_read_offset),
        )
  unfolding exit_error
  exit_error_reads ctx m offset noise ce at_offset fits low small random full parses =
      let same : read_offset ctx ≡ offset = omega arith in
      elim (Bool-cases (ltb (offset + ctx.r2) ctx.memory_size)) [
        | inl inside ↦ rw (same) (ground arith)
        | inr outside ↦ rw (same) (ground arith)
      ]
