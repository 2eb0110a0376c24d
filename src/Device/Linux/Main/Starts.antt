-- ===== src/Device/Linux/Main/Starts.antt =====
-- How `main` of the Linux gadget ends, or comes to poll.
use wall_era.Common.{ℕ, ◌≡◌, ◌⊎◌, true, false, List, [], ◌∷◌, ◌++◌, none, some, length}
use wall_era.Common.Go.{returns, panics}
use wall_era.Crypto.{Random, Keychain}
use wall_era.Apps.Cosmos.{Libraries}
use wall_era.Device.Setup.{ledger_nano_x_report}
use wall_era.Device.Linux.Main.{
  Args, Event, LinuxRun, hidg_configured, hidg_opened, Gadgets, gadget_handler,
}

module _ {F B : Type 0} (sys : Gadgets F) (kc : Keychain) (rand : Random kc.Error)
    (hmac : List ℕ → List ℕ → List ℕ) (libs : Libraries B) where
  abbrev Run : Type 0
  Run = LinuxRun sys kc rand hmac libs

  -- The library's answer to the set-up of the gadget with the HID report of the device.
  abbrev pub answer_of : Args → ℕ
  answer_of a = sys.configure a.configfs_path ledger_nano_x_report (length ledger_nano_x_report)

  abbrev pub configured : Args → Event
  configured a = hidg_configured a.configfs_path ledger_nano_x_report (length ledger_nano_x_report)

  -- The run did this with the gadget, and goes on to the file: with the flag for setting up it
  -- returns; else it opens the file last, and polls with the handler of the Cosmos application over a
  -- new software token and without a session, or panics where the file cannot be opened.
  abbrev pub GoesOn : Args → List Event → Run → Type 0
  GoesOn a before run =
      ((a.must_setup_hidg ≡ true) × (run ≡ (before, returns none)))
      ⊎ ((a.must_setup_hidg ≡ false)
          × (((sys.open_file a.hidg ≡ none)
                × (run ≡ (
                  before ++ (hidg_opened a.hidg ∷ []),
                  returns (some (gadget_handler sys kc rand hmac libs)),
                )))
              ⊎ ((f : F) × (sys.open_file a.hidg ≡ some f)
                  × (run ≡ (before ++ (hidg_opened a.hidg ∷ []), panics)))))
