-- ===== src/Tz/Syscall/Report.antt =====
-- An error that an applet reports, on its way to the secure system.
use wall_era.Common.{ℕ, ◌+◌, ◌<◌, ◌≡◌, refl, sym, ◌∙◌, List, some, ltb, if◌then◌else◌, length}
use wall_era.Common.Go.{Outcome, returns, Result, ok, err}
use wall_era.Tz.{Context}
use wall_era.Tz.Syscall.{
  ExecCtx, ClientPanic, Machine, Monitor, invalid_read_offset, client_panic, exit_with_error,
  panic_written, log_handler,
}
use wall_era.Tz.Syscall.Exits.{IsNumbered, log_handler-error, exit_error_reads}

-- The registers and the memory at the call 666 with some bytes, at an offset of the memory.
pub record IsCall {D J : Type 0} (monitor : Monitor D J) (ctx : ExecCtx) (offset : ℕ) (m : List ℕ)
    (n : ℕ) : Type 0 where
  pub is_error_call : ctx.r0 ≡ 666
  pub at_offset : ctx.r1 ≡ ctx.memory_start + offset
  pub small_address : ctx.r1 < 4294967296
  pub small_offset : offset < 2147483648
  pub with_length : ctx.r2 ≡ n
  pub small_length : n < 2147483648
  pub holds : monitor.memory_read ctx.memory_start offset n ≡ m

module _ {D J : Type 0} (monitor : Monitor D J) (run_ta : ℕ → Context → Outcome Context)
    (marshal_panic : ClientPanic → Result J (List ℕ)) where
  written_is :
      (m : List ℕ) (n : ℕ) (r : Result J (List ℕ)) → panic_written r ≡ returns (m, n) → r ≡ ok m
  written_is m n (ok bs) e = cc
  written_is m n (err x) e = cc

  -- The text and the stack of an error that an applet hands to the call 666 come out of the handler
  -- of that call as they went in, if the bytes of the message end before the last byte of the
  -- applet's memory; else, also if they end exactly with the memory, the handler returns the error
  -- of an invalid offset. JSON has to read the message that it wrote, and random bytes to be at
  -- hand.
  pub reported_error_arrives :
      (ctx : ExecCtx) (mc : Machine) (text trace m noise : List ℕ) (n offset : ℕ)
      → IsNumbered monitor
      → exit_with_error marshal_panic text trace ≡ returns (m, n)
      → ((bs : List ℕ)
          → marshal_panic (record { msg = text; stacktrace = trace }) ≡ ok bs
          → monitor.unmarshal_panic bs ≡ ok (record { msg = text; stacktrace = trace }))
      → IsCall monitor ctx offset m n
      → monitor.rand_read n ≡ ok noise
      → length noise ≡ n
      → log_handler monitor ctx mc
        ≡ returns (
          mc,
          some (
              if ltb (offset + n) ctx.memory_size
              then client_panic (record { msg = text; stacktrace = trace })
              else invalid_read_offset),
        )
  unfolding exit_with_error
  reported_error_arrives ctx mc text trace m noise n offset numbered writes carries call random
        full =
      let p : ClientPanic = record { msg = text; stacktrace = trace } in
      let reads : monitor.unmarshal_panic (monitor.memory_read ctx.memory_start offset ctx.r2)
          ≡ ok p =
        rw (call.with_length, call.holds) (carries m (written_is m n (marshal_panic p) writes)) in
      log_handler-error monitor run_ta ctx mc numbered call.is_error_call
      ∙ exit_error_reads monitor ctx mc offset noise p call.at_offset call.small_address
          call.small_offset (rw call.with_length call.small_length) (rw call.with_length random)
          (full ∙ sym call.with_length) reads
      ∙ rw call.with_length refl
