-- ===== src/Device/Main.antt =====
-- firmware/main.go, with the functions of firmware/tee.go and firmware/tee_tee_enabled.go, one file
-- for each build, and firmware/utils_debug.go. What the program does outside itself is a list of
-- events; log messages are left out, but for those that end the program.
pub mod Ends
mod Examples
use wall_era.Common.{ℕ, ◌==◌, if◌then◌else◌, Bool, List, [], ◌∷◌, ◌++◌, Option, none, some}
use wall_era.Common.Go.{Outcome, returns, panics, ◌>>=◌, Result, ok, err}
use wall_era.Crypto.{Random, Keychain, Token, TokenError}
use wall_era.Crypto.DumbToken.{DumbToken, new_dumb_token, dumb_token}
use wall_era.Apps.{Handler}
use wall_era.Apps.Cosmos.{Cosmos, Error, Libraries}
use wall_era.Tz.{Context}
use wall_era.Tee.{Json}
use wall_era.Tee.Client.{TeeToken, ClientError}
use wall_era.Tee.TeeToken.{tee_token, new_tee_token}
use wall_era.Device.Configure.{UsbLibrary, Store, start_usb}
use wall_era.Device.Firmware.{HidHandler}
use wall_era.Device.Firmware.Wallet.{wallet}

pub data Event : Type 0 where
  accessory_awaited frequency_warned fatal_exit controller_initialized : Event
  panic_logged second_waited half_second_waited reset_usbarmory reset_imx6 : Event

-- What differs between the builds.
pub record Build (T E : Type 0) : Type 0 where
  pub ops : Token T E
  pub token_impl : T
  pub load_debug_accessory : List Event
  pub reset_board : Event

abbrev pub plain_build :
    (kc : Keychain)
    → Random kc.Error
    → (List ℕ → List ℕ → List ℕ)
    → Build (DumbToken kc) (TokenError kc.Error)
plain_build kc rand hmac = record {
  ops = dumb_token kc rand hmac;
  token_impl = new_dumb_token kc;
  load_debug_accessory = accessory_awaited ∷ [];
  reset_board = reset_usbarmory;
}

abbrev pub tee_build :
    {J : Type 0}
    → Json J
    → (ℕ → Context → Outcome Context)
    → (List ℕ → List ℕ)
    → List ℕ
    → Build TeeToken (ClientError J)
tee_build json run_ta sha256 apps = record {
  ops = tee_token json run_ta sha256 apps;
  token_impl = new_tee_token;
  load_debug_accessory = [];
  reset_board = reset_imx6;
}

-- What the controller runs with.
pub record Running (T E B : Type 0) : Type 0 where
  pub device : Store
  pub handler : HidHandler (Cosmos T) (Error E B)

abbrev pub new_hid_handler : {S E : Type 0} → Handler S E → HidHandler S E
new_hid_handler ah = record { ah = ah; session = none }

-- `native` tells whether the board is no emulation, `frequency` is the outcome of setting the clock
-- of the processor, and `run` what becomes of `main` in `USB1.Start`.
module _ {T E B U F : Type 0} (build : Build T E) (libs : Libraries B) (usb : UsbLibrary U)
    (native : Bool) (frequency : Option F) (run : Running T E B → Outcome (Unit {0})) where
  abbrev warned : Option F → List Event
  warned none = []
  warned (some e) = frequency_warned ∷ []

  -- The handler with the Cosmos application over a new token.
  abbrev pub first_handler : HidHandler (Cosmos T) (Error E B)
  first_handler = new_hid_handler (
      wallet build.ops libs (record { token = build.token_impl; current_signature_session = none }))

  -- `catchPanic`, after a panic and without one.
  abbrev pub catch_panic : Outcome (Unit {0}) → List Event
  catch_panic panics = panic_logged ∷ second_waited ∷ build.reset_board ∷ []
  catch_panic (returns _) = []

  -- `resetBoard` at the end of `main`, where it gets there.
  abbrev at_end : Outcome (Unit {0}) → List Event
  at_end panics = []
  at_end (returns _) = build.reset_board ∷ []

  abbrev usb_started : Result U Store → List Event × Outcome (Unit {0})
  usb_started (err e) = ([], panics)
  usb_started (ok s) =
      (controller_initialized ∷ [], run (record { device = s; handler = first_handler }))

  abbrev ended : List Event × Outcome (Unit {0}) → List Event
  ended (before, o) = before ++ (at_end o ++ catch_panic o)

  unfoldable pub main : List Event
  main = ended (usb_started (start_usb usb))

  -- `init`, and `main` after it. `Fatal` ends the program.
  unfoldable pub firmware : List Event
  firmware =
      if native then build.load_debug_accessory ++ (warned frequency ++ main) else fatal_exit ∷ []

-- `rebootWatcher` of a debug build, for the outcomes of its reads: a byte in the buffer, or nothing.
module _ (reset_board : Event) where
  abbrev pub read_into : ℕ → Option ℕ → ℕ
  read_into buf none = buf
  read_into buf (some b) = b

  abbrev pub reboots : ℕ → List Event
  reboots buf = if buf == 114 then half_second_waited ∷ reset_board ∷ [] else []

  -- One round, with the buffer that it leaves.
  abbrev pub watch_round : ℕ → List Event × ℕ
  watch_round buf = if buf == 0 then ([], buf) else (reboots buf, 0)

  abbrev pub reboot_watcher : ℕ → List (Option ℕ) → List Event
  reboot_watcher buf [] = []
  reboot_watcher buf (r ∷ rs) =
      let (events, buf') = watch_round (read_into buf r) in events ++ reboot_watcher buf' rs
