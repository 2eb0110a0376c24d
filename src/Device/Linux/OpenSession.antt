-- ===== src/Device/Linux/OpenSession.antt =====
-- What becomes of a session of the Linux gadget that needs more than one frame.
use wall_era.Common.{
  ℕ, ◌≡◌, ◌≢◌, refl, sym, ap, ◌∙◌, List, [], ◌∷◌, Option, some, length, replicate, concat, inl, inr,
  leb, Bool-cases,
}
use wall_era.Common.Go.{returns, len}
use wall_era.Usb.Frame
use wall_era.Usb.Frame.{next}
use wall_era.Usb.Session.{Session, read_data, finish, store_frame}
use wall_era.Usb.Session.Cases.{read_data_begun}
use wall_era.Usb.Session.Invariant.{feed}
use wall_era.Usb.Format.{format_response}
use wall_era.Apps.{Handler, Capdu}
use wall_era.Device.Firmware.{refusal}
use wall_era.Device.Linux.{linux_rx, linux_rx_all}

channel-finish : (s : Session) → (finish s).channel ≡ s.channel
channel-finish s = elim (Bool-cases (leb s.amount_to_read (len s.buffer))) [
  | inl full ↦ rw full
  | inr short ↦ rw short
]

channel-read_data :
    (grow : ℕ → ℕ) (s : Session) (bs : List ℕ)
    → s.channel ≢ 0
    → (read_data grow s bs).0.channel ≡ s.channel
channel-read_data grow s bs c = elim (read_data_begun grow s bs c) [
  | inl kept ↦ ap (λ (t : Session). t.channel) kept
  | inr (hf, goes, read) ↦
      ap (λ (r : Session × Option Frame.Error). r.0.channel) read
      ∙ channel-finish (store_frame grow (next hf) s)
      ∙ goes.same_channel
]

pub refusal-channel : (s s' : Session) → s'.channel ≡ s.channel → refusal s' ≡ refusal s
unfolding format_response
refusal-channel s s' e = rw e

module _ {S E : Type 0} (grow : ℕ → ℕ) (unmarshal : List ℕ → Option Capdu) where
  -- Once a session with a channel other than 0 is open, every further frame, a good one too, is answered
  -- with the refusal of the session's channel; no frame reaches the applications, and the session
  -- is never closed.
  pub open_session_refuses :
      (h : Handler S E) (s : Session) (bufs : List (List ℕ))
      → s.channel ≢ 0
      → linux_rx_all grow unmarshal (record { ah = h; session = some s }) bufs
        ≡ returns (
          record { ah = h; session = some (feed grow s bufs) },
          concat (replicate (length bufs) (refusal s)),
        )
  unfolding linux_rx
  open_session_refuses h s [] c = refl
  open_session_refuses h s (buf ∷ bufs) c =
      let s1 : Session = (read_data grow s buf).0 in
      let same : s1.channel ≡ s.channel = channel-read_data grow s buf c in
      rw (open_session_refuses h s1 bufs (λ e. c (sym same ∙ e)), refusal-channel s s1 same)
