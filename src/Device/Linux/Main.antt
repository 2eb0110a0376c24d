-- ===== src/Device/Linux/Main.antt =====
-- `main` of cmd/wallera-linux/main.go up to its goroutines, and cmd/wallera-linux/gadget_hid.go. The
-- C functions that set the gadget up and take it away, and the files, are parameters; what the
-- program asks of them is listed as events.
pub mod Starts
use wall_era.Common.{
  ℕ, ◌==◌, if◌then◌else◌, Bool, true, false, not, ◌||◌, String, List, [], ◌∷◌, ◌++◌, Option, none,
  some, length,
}
use wall_era.Common.Go.{Outcome, returns, panics, Result, ok, err}
use wall_era.Crypto.{Random, Keychain, TokenError}
use wall_era.Crypto.DumbToken.{DumbToken, new_dumb_token, dumb_token}
use wall_era.Apps.Cosmos.{Cosmos, Error, Libraries}
use wall_era.Device.Setup.{ledger_nano_x_report}
use wall_era.Device.Firmware.{HidHandler}
use wall_era.Device.Firmware.Wallet.{wallet}

pub record Args : Type 0 where
  pub hidg : String
  pub configfs_path : String
  pub must_clean : Bool
  pub must_setup_hidg : Bool

-- `cliArgs` of an empty command line.
abbrev pub default_args : Args
default_args = record {
  hidg = "/dev/hidg0";
  configfs_path = "/sys/kernel/config";
  must_clean = false;
  must_setup_hidg = false;
}

-- What the program asks of the system, in order.
pub data Event : Type 0 where
  hidg_cleaned : String → Event
  hidg_configured : String → List ℕ → ℕ → Event
  hidg_opened : String → Event

-- The outcome of `C.configure_hidg` for a path, the report and its length, with the names and the
-- messages of errors; whether the file of the gadget is missing; and the error of opening it.
pub record Gadgets (F : Type 0) : Type 0 where
  pub configure : String → List ℕ → ℕ → ℕ
  pub usbg_success : ℕ
  pub error_name : ℕ → String
  pub error_text : ℕ → String
  pub is_not_exist : String → Bool
  pub open_file : String → Option F

-- "libusbgx failure", with the name and the message of the error.
pub data SetupError : Type 0 where
  libusbgx_failure : String → String → SetupError

module _ {F B : Type 0} (sys : Gadgets F) (kc : Keychain) (rand : Random kc.Error)
    (hmac : List ℕ → List ℕ → List ℕ) (libs : Libraries B) where
  -- What a run of `main` did, and what it ends with: the handler that the goroutines poll with, or
  -- nothing where it returns before that.
  abbrev pub LinuxRun : Type 0
  LinuxRun =
      List Event
      × Outcome (Option (HidHandler (Cosmos (DumbToken kc)) (Error (TokenError kc.Error) B)))

  abbrev setup_error : ℕ → Option SetupError
  setup_error res =
      if res == sys.usbg_success
      then none
      else some (libusbgx_failure (sys.error_name res) (sys.error_text res))

  unfoldable pub configure_hidg : String → List Event × Option SetupError
  configure_hidg path = (
    hidg_configured path ledger_nano_x_report (length ledger_nano_x_report) ∷ [],
    setup_error (sys.configure path ledger_nano_x_report (length ledger_nano_x_report)),
  )

  -- The outcome of the C function is not looked at.
  abbrev pub cleanup_hidg : String → List Event × Option SetupError
  cleanup_hidg path = (hidg_cleaned path ∷ [], none)

  abbrev pub hidg_exists : String → Bool
  hidg_exists path = not (sys.is_not_exist path)

  -- The handler with the Cosmos application over a new token.
  abbrev pub gadget_handler : HidHandler (Cosmos (DumbToken kc)) (Error (TokenError kc.Error) B)
  gadget_handler = record {
    ah =
        wallet (dumb_token kc rand hmac) libs
          (record { token = new_dumb_token kc; current_signature_session = none });
    session = none;
  }

  -- `events` came before.
  abbrev pub opened : List Event → String → Option F → LinuxRun
  opened events path (some e) = (events ++ (hidg_opened path ∷ []), panics)
  opened events path none = (events ++ (hidg_opened path ∷ []), returns (some gadget_handler))

  abbrev pub set_up : Args → List Event × Option SetupError → LinuxRun
  set_up a (events, some e) = (events, panics)
  set_up a (events, none) =
      if a.must_setup_hidg
      then (events, returns none)
      else opened events a.hidg (sys.open_file a.hidg)

  abbrev pub cleaned : List Event × Option SetupError → LinuxRun
  cleaned (events, some e) = (events, panics)
  cleaned (events, none) = (events, returns none)

  unfoldable pub linux_main : Args → LinuxRun
  linux_main a =
      if a.must_clean
      then cleaned (cleanup_hidg a.configfs_path)
      else let should_setup_hidg = not (hidg_exists a.hidg) || a.must_clean in
        set_up a (if should_setup_hidg then configure_hidg a.configfs_path else ([], none))
