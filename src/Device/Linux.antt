-- ===== src/Device/Linux.antt =====
-- cmd/wallera-linux/main.go: the handler of HID frames of the Linux gadget.
pub mod OpenSession
mod Examples
pub mod Main
pub mod Requests
pub mod Wallet
pub mod Goroutines
use wall_era.Common.{
  ℕ, ◌≡◌, refl, ap, subst, arith, Bool, true, false, List, [], ◌∷◌, ◌++◌, Option, none, some,
  if◌then◌else◌, length, replicate, concat, ◌≢◌, ◌∙◌, inl, inr,
}
use wall_era.Common.Go.{Outcome, returns, panics, ◌>>=◌, Result, ok, err}
use wall_era.Usb.Frame
use wall_era.Usb.Session.{Session, read_data, new_session}
use wall_era.Usb.Format.{format_response}
use wall_era.Apps.{Handler, Answer, Capdu, package_response, apdu_command_not_allowed, handle}
use wall_era.Device.Firmware.{HidHandler, RxResult, refusal, answered, handle_session}

module _ {S E : Type 0} (grow : ℕ → ℕ) (unmarshal : List ℕ → Option Capdu) where
  abbrev linux_started : Handler S E → Result Frame.Error Session → RxResult S E
  linux_started h (err e) = panics
  linux_started h (ok s) = handle_session grow unmarshal h s []

  -- With a session open, the frame is read and then refused, whether reading failed or not.
  abbrev linux_in : Handler S E → List ℕ → Option Session → RxResult S E
  linux_in h buf none = linux_started h (new_session grow buf)
  linux_in h buf (some s) =
      let s' = (read_data grow s buf).0 in
      returns (record { ah = h; session = some s' }, refusal s', none)

  unfoldable pub linux_rx : HidHandler S E → List ℕ → RxResult S E
  linux_rx hh buf = linux_in hh.ah buf hh.session

  -- Calls of `Rx` one after the other, with all the frames that they send.
  abbrev pub linux_rx_all :
      HidHandler S E → List (List ℕ) → Outcome (HidHandler S E × List (List ℕ))
  linux_rx_all hh [] = returns (hh, [])
  linux_rx_all hh (buf ∷ bufs) = do
    (hh', sent, e) ← linux_rx hh buf
    (last, more) ← linux_rx_all hh' bufs
    returns (last, sent ++ more)
