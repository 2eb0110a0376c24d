-- ===== src/Device/Firmware.antt =====
-- firmware/wallera.go: the handler of HID frames of the firmware. The frames that a call writes to
-- the outbound channel are listed beside its result; `Tx` takes them from there in order.
pub mod Request
pub mod Conversation
pub mod Wallet
pub mod Channel
pub mod Ready
use wall_era.Common.{ℕ, Bool, true, false, List, [], ◌∷◌, ◌++◌, Option, none, some, if◌then◌else◌}
use wall_era.Common.Go.{Outcome, returns, panics, ◌>>=◌, Result, ok, err, Slice}
use wall_era.Usb.Frame
use wall_era.Usb.Session.{Session, read_data, new_session, data_slice}
use wall_era.Usb.Format.{format_response}
use wall_era.Apps.{Handler, Answer, Capdu, package_response, apdu_command_not_allowed, handle}

pub record HidHandler (S E : Type 0) : Type 0 where
  pub ah : Handler S E
  pub session : Option Session

-- The state after a call of `Rx`, the frames that it sent, and its error.
abbrev pub RxResult : Type 0 → Type 0 → Type 0
RxResult S E = Outcome (HidHandler S E × List (List ℕ) × Option Frame.Error)

abbrev is_empty : List ℕ → Bool
is_empty [] = true
is_empty (b ∷ bs) = false

-- The answer to a frame that a session refuses.
abbrev pub refusal : Session → List (List ℕ)
refusal s = format_response s (package_response [] apdu_command_not_allowed)

abbrev pub refusals : Session → Option Frame.Error → List (List ℕ)
refusals s none = []
refusals s (some e) = refusal s

module _ {S E : Type 0} (grow : ℕ → ℕ) (unmarshal : List ℕ → Option Capdu) where
  abbrev pub answered : Session → List (List ℕ) → Answer S E → RxResult S E
  answered s sent (h, resp, e) =
      if is_empty resp
      then returns (record { ah = h; session = none }, sent, none)
      else returns (record { ah = h; session = none }, sent ++ format_response s resp, none)

  -- The part of `Rx` behind the reading of the frame; `sent` was sent before.
  abbrev pub handle_session : Handler S E → Session → List (List ℕ) → RxResult S E
  handle_session h s sent =
      if s.should_read_more
      then returns (record { ah = h; session = some s }, sent, none)
      else (do answer ← handle unmarshal h (data_slice s); answered s sent answer)

  abbrev rx_started : Handler S E → Result Frame.Error Session → RxResult S E
  rx_started h (err e) = panics
  rx_started h (ok s) = handle_session h s []

  abbrev rx_read : Handler S E → Session × Option Frame.Error → RxResult S E
  rx_read h (s, e) =
      if s.should_read_more
      then returns (record { ah = h; session = some s }, refusals s e, e)
      else handle_session h s (refusals s e)

  abbrev rx_in : Handler S E → List ℕ → Option Session → RxResult S E
  rx_in h buf none = rx_started h (new_session grow buf)
  rx_in h buf (some s) = rx_read h (read_data grow s buf)

  unfoldable pub rx : HidHandler S E → List ℕ → RxResult S E
  rx hh buf = rx_in hh.ah buf hh.session

  -- Calls of `Rx` one after the other, with all the frames that they send.
  abbrev pub rx_all : HidHandler S E → List (List ℕ) → Outcome (HidHandler S E × List (List ℕ))
  rx_all hh [] = returns (hh, [])
  rx_all hh (buf ∷ bufs) = do
    (hh', sent, e) ← rx hh buf
    (last, more) ← rx_all hh' bufs
    returns (last, sent ++ more)

  -- A host sends requests one after the other, each in the frames of its session, and waits for
  -- the frames of each answer.
  abbrev pub converse :
      Session → HidHandler S E → List (List ℕ) → Outcome (HidHandler S E × List (List (List ℕ)))
  converse host hh [] = returns (hh, [])
  converse host hh (request ∷ requests) = do
    (hh', sent) ← rx_all hh (format_response host request)
    (last, more) ← converse host hh' requests
    returns (last, sent ∷ more)
