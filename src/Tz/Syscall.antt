-- ===== src/Tz/Syscall.antt =====
-- The handlers of system calls and the end of a world's run in tee/trusted_os/tz/tz.go.
-- Printing of registers and debug messages is left out.
pub mod Exits
pub mod Report
pub mod Runs
mod Examples
use wall_era.Common.{
  ℕ, ◌+◌, ◌-◌, ◌%◌, Bool, true, false, not, ◌&&◌, ◌||◌, List, Option, none, some, ltb, leb, ◌==◌,
  if◌then◌else◌, length,
}
use mathlib.Core.Option
use wall_era.Common.Go.{Outcome, returns, panics, ◌>>=◌, Result, ok, err}
use wall_era.Common.Bytes.{uint8, uint32}
use wall_era.Tz.{Context, dispatch_apps_calls}
use wall_era.Tz.Log.{Console, buffered_stdout_log}

-- What the handlers read of a third-party execution context.
pub record ExecCtx : Type 0 where
  pub r0 : ℕ  -- uint32
  pub r1 : ℕ  -- uint32
  pub r2 : ℕ  -- uint32
  pub non_secure : Bool
  pub memory_start : ℕ  -- uint32
  pub memory_size : ℕ  -- int

pub record ClientPanic : Type 0 where
  pub msg : List ℕ
  pub stacktrace : List ℕ

-- The state that the handlers change.
pub record Machine : Type 0 where
  pub context : Context
  pub console : Console

-- The errors of the handlers, over those of the monitor's handlers and of JSON.
pub data HandlerError (D J : Type 0) : Type 0 where
  ta_exit : HandlerError D J
  nonsecure_exit : HandlerError D J
  invalid_read_offset : HandlerError D J
  internal_error : HandlerError D J
  cannot_unmarshal : J → HandlerError D J
  client_panic : ClientPanic → HandlerError D J
  default_error : D → HandlerError D J
  exit_text : HandlerError D J

abbrev pub sys_exit_error : ℕ
sys_exit_error = 666

-- `ExitWithError`: the bytes and the length that it hands to the call 666, from the text of an error
-- and the text of the stack. `marshal_panic` is that of encoding/json.
abbrev panic_written : {J : Type 0} → Result J (List ℕ) → Outcome (List ℕ × ℕ)
panic_written (err e) = panics
panic_written (ok m) = returns (m, length m)

unfoldable pub exit_with_error :
    {J : Type 0} → (ClientPanic → Result J (List ℕ)) → List ℕ → List ℕ → Outcome (List ℕ × ℕ)
exit_with_error marshal_panic text trace =
    panic_written (marshal_panic (record { msg = text; stacktrace = trace }))

-- What the handlers use of GoTEE, crypto/rand, and encoding/json.
pub record Monitor (D J : Type 0) : Type 0 where
  pub sys_write : ℕ
  pub sys_exit : ℕ
  pub sys_rpc_req : ℕ
  pub sys_rpc_res : ℕ
  pub secure_handler : ExecCtx → Machine → Machine × Option D
  pub non_secure_handler : ExecCtx → Machine → Machine × Option D
  -- `rand.Read` of some bytes
  pub rand_read : ℕ → Result D (List ℕ)
  -- `Memory.Read` from a start and an offset, of some bytes
  pub memory_read : ℕ → ℕ → ℕ → List ℕ
  pub unmarshal_panic : List ℕ → Result J ClientPanic

-- `int(ctx.R1 - ctx.Memory.Start)`: below 2 ^ 31 it is not negative on a 32-bit machine.
abbrev pub read_offset : ExecCtx → ℕ
read_offset ctx = uint32 (ctx.r1 + 4294967296 - ctx.memory_start)

module _ {D J : Type 0} (monitor : Monitor D J) where
  open monitor use {
    sys_write, sys_exit, sys_rpc_req, sys_rpc_res, secure_handler, non_secure_handler, rand_read,
    memory_read, unmarshal_panic,
  }

  abbrev pub HandlerResult : Type 0
  HandlerResult = Outcome (Machine × Option (HandlerError D J))

  abbrev pub log_byte : ExecCtx → Machine → Machine
  log_byte ctx m = record m {
    console = buffered_stdout_log (uint8 ctx.r1) ctx.non_secure m.console;
  }

  abbrev by_default : Machine × Option D → HandlerResult
  by_default (m, none) = returns (m, none)
  by_default (m, some e) = returns (m, some (default_error e))

  abbrev unmarshalled : Machine → Result J ClientPanic → HandlerResult
  unmarshalled m (err e) = returns (m, some (cannot_unmarshal e))
  unmarshalled m (ok ce) = returns (m, some (client_panic ce))

  abbrev random_filled : ExecCtx → Machine → Result D (List ℕ) → HandlerResult
  random_filled ctx m (err e) = returns (m, some internal_error)
  random_filled ctx m (ok bs) =
      if not (length bs == ctx.r2)
      then returns (m, some internal_error)
      else unmarshalled m (unmarshal_panic (memory_read ctx.memory_start (read_offset ctx) ctx.r2))

  -- A slice of 2 ^ 31 bytes or more cannot be made. With `0 ≤ off`, the test
  -- `off < Size - len(buf)` is `off + len(buf) < Size`.
  unfoldable pub exit_error : ExecCtx → Machine → HandlerResult
  exit_error ctx m =
      if leb 2147483648 ctx.r2
      then panics
      else if not
          (ltb (read_offset ctx) 2147483648 && ltb (read_offset ctx + ctx.r2) ctx.memory_size)
      then returns (m, some invalid_read_offset)
      else random_filled ctx m (rand_read ctx.r2)

  unfoldable pub log_handler : ExecCtx → Machine → HandlerResult
  log_handler ctx m =
      if ctx.r0 == sys_write
      then returns (log_byte ctx m, none)
      else if ctx.non_secure && ctx.r0 == sys_exit
      then returns (m, some nonsecure_exit)
      else if ctx.r0 == sys_exit
      then returns (m, some ta_exit)
      else if ctx.r0 == sys_exit_error
      then exit_error ctx m
      else by_default (secure_handler ctx m)

  -- Nothing calls this function.
  unfoldable pub log_handler_copy : ExecCtx → Machine → HandlerResult
  log_handler_copy ctx m =
      if ctx.r0 == sys_write
      then returns (log_byte ctx m, none)
      else if ctx.non_secure && ctx.r0 == sys_exit
      then returns (m, some exit_text)
      else by_default (if ctx.non_secure then non_secure_handler ctx m else secure_handler ctx m)

  -- `errors.Is` of the error with which this world ends.
  abbrev is_exit_of : Bool → HandlerError D J → Bool
  is_exit_of true nonsecure_exit = true
  is_exit_of false ta_exit = true
  is_exit_of _ _ = false

  -- The part of `run` behind the context's own `Run`, which returns the first error of its handler.
  unfoldable pub run_end : Bool → Option (HandlerError D J) → Outcome (Unit {0})
  run_end ns none = returns tt
  run_end ns (some e) = if not (is_exit_of ns e) then panics else returns tt

  module _ (run_ta : ℕ → Context → Outcome Context) where
    abbrev rpc_done : Machine × Option D → HandlerResult
    rpc_done (m, some e) = returns (m, some (default_error e))
    rpc_done (m, none) = do
      c ← dispatch_apps_calls run_ta m.context
      returns (record m { context = c }, none)

    unfoldable pub nonsecure_world_handler : ExecCtx → Machine → HandlerResult
    unfolding log_handler
    nonsecure_world_handler ctx m =
        if not (ctx.r0 == sys_rpc_req || ctx.r0 == sys_rpc_res)
        then log_handler ctx m
        else rpc_done (secure_handler ctx m)
