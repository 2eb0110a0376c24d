-- ===== src/Device/Firmware/Ready.antt =====
-- The session that the firmware keeps between two calls of Rx.
use wall_era.Common.{
  ℕ, ◌≡◌, refl, Bool, true, false, List, [], ◌∷◌, Option, none, some, if◌then◌else◌, subst,
}
use wall_era.Common.Go.{Outcome, returns, panics, ◌>>=◌, Result, ok, err}
use wall_era.Usb.Frame
use wall_era.Usb.Session.{Session, read_data, new_session, data_slice}
use wall_era.Usb.Session.Invariant.{IsSound, read_data-IsSound, new_session-IsSound}
use wall_era.Apps.{Handler, Answer, Capdu, handle}
use wall_era.Device.Firmware.Channel.{sent_first, then_rest}
use wall_era.Device.Firmware.{
  HidHandler, RxResult, answered, handle_session, rx_started, rx_read, rx_in, rx, rx_all,
}

-- No session, or a sound one that waits for more.
pub record IsOpen (s : Session) : Type 0 where
  pub is_sound : IsSound s
  pub waits : s.should_read_more ≡ true

pub record IsReady {S E : Type 0} (hh : HidHandler S E) : Type 0 where
  pub session_is_open : (s : Session) → hh.session ≡ some s → IsOpen s

module _ {S E : Type 0} (grow : ℕ → ℕ) (unmarshal : List ℕ → Option Capdu) where
  abbrev LeavesReady : RxResult S E → Type 0
  LeavesReady panics = Unit {0}
  LeavesReady (returns (hh, sent, e)) = IsReady hh

  closed-IsReady : (h : Handler S E) → IsReady (record { ah = h; session = none })
  closed-IsReady h = record { session_is_open = λ s e. cc }

  open-IsReady :
      (h : Handler S E) (s : Session)
      → IsSound s
      → s.should_read_more ≡ true
      → IsReady (record { ah = h; session = some s })
  open-IsReady h s sound more = record {
    session_is_open = λ s' e.
        let same : s ≡ s' = cc in subst IsOpen same (record { is_sound = sound; waits = more });
  }

  answered-LeavesReady :
      (s : Session) (sent : List (List ℕ)) (a : Answer S E)
      → LeavesReady (answered grow unmarshal s sent a)
  answered-LeavesReady s sent (h, [], e) = closed-IsReady h
  answered-LeavesReady s sent (h, b ∷ bs, e) = closed-IsReady h

  bound-LeavesReady :
      (s : Session) (sent : List (List ℕ)) (r : Outcome (Answer S E))
      → LeavesReady (r >>= answered grow unmarshal s sent)
  bound-LeavesReady s sent panics = tt
  bound-LeavesReady s sent (returns a) = answered-LeavesReady s sent a

  if-LeavesReady :
      (b : Bool) (x y : RxResult S E)
      → (b ≡ true → LeavesReady x)
      → (b ≡ false → LeavesReady y)
      → LeavesReady (if b then x else y)
  if-LeavesReady true x y hx hy = hx refl
  if-LeavesReady false x y hx hy = hy refl

  handle_session-LeavesReady :
      (h : Handler S E) (s : Session) (sent : List (List ℕ))
      → IsSound s
      → LeavesReady (handle_session grow unmarshal h s sent)
  handle_session-LeavesReady h s sent sound =
      if-LeavesReady s.should_read_more _ _ (open-IsReady h s sound)
        (λ done. bound-LeavesReady s sent (handle unmarshal h (data_slice s)))

  rx_started-LeavesReady :
      (h : Handler S E) (r : Result Frame.Error Session)
      → ((s : Session) → r ≡ ok s → IsSound s)
      → LeavesReady (rx_started grow unmarshal h r)
  rx_started-LeavesReady h (err e) sound = tt
  rx_started-LeavesReady h (ok s) sound = handle_session-LeavesReady h s [] (sound s refl)

  rx_read-LeavesReady :
      (h : Handler S E) (r : Session × Option Frame.Error)
      → IsSound r.0
      → LeavesReady (rx_read grow unmarshal h r)
  rx_read-LeavesReady h (s, e) sound =
      if-LeavesReady s.should_read_more _ _ (open-IsReady h s sound)
        (λ done. handle_session-LeavesReady h s _ sound)

  rx_in-LeavesReady :
      (h : Handler S E) (buf : List ℕ) (session : Option Session)
      → IsReady (record { ah = h; session = session })
      → LeavesReady (rx_in grow unmarshal h buf session)
  rx_in-LeavesReady h buf none ready =
      rx_started-LeavesReady h (new_session grow buf) (λ s. new_session-IsSound grow buf s)
  rx_in-LeavesReady h buf (some s) ready =
      rx_read-LeavesReady h (read_data grow s buf)
        (read_data-IsSound grow s buf (ready.session_is_open s refl).is_sound)

  rx-LeavesReady :
      (hh : HidHandler S E) (buf : List ℕ) → IsReady hh → LeavesReady (rx grow unmarshal hh buf)
  unfolding rx
  rx-LeavesReady hh buf ready = rx_in-LeavesReady hh.ah buf hh.session ready

  abbrev and_then : List (List ℕ) → RxResult S E → Outcome (HidHandler S E × List (List ℕ))
  and_then bufs r = do
    (hh', sent, e) ← r
    sent_first grow unmarshal sent (rx_all grow unmarshal hh' bufs)

  and_then-IsReady :
      (hh' : HidHandler S E) (bufs frames : List (List ℕ)) (r : RxResult S E)
      → ((h : HidHandler S E) (more : List (List ℕ))
          → IsReady h
          → rx_all grow unmarshal h bufs ≡ returns (hh', more)
          → IsReady hh')
      → LeavesReady r
      → and_then bufs r ≡ returns (hh', frames)
      → IsReady hh'
  and_then-IsReady hh' bufs frames panics later ready run = cc
  and_then-IsReady hh' bufs frames (returns (h, sent, e)) later ready run =
      let (more, run', _) =
        then_rest grow unmarshal hh' sent frames (rx_all grow unmarshal h bufs) run in
      later h more ready run'

  -- After any frames that `Rx` takes without a panic, in whatever order and with whatever
  -- contents, the firmware has no session, or a well-formed one that waits for more frames: a
  -- complete request never stays behind. Before the first of them the same has to hold, as it does
  -- for a handler without a session.
  pub rx_all-IsReady :
      (hh hh' : HidHandler S E) (bufs frames : List (List ℕ))
      → IsReady hh
      → rx_all grow unmarshal hh bufs ≡ returns (hh', frames)
      → IsReady hh'
  rx_all-IsReady hh hh' [] frames ready run =
      let same : hh ≡ hh' = cc in subst (λ (h : HidHandler S E). IsReady h) same ready
  rx_all-IsReady hh hh' (buf ∷ bufs) frames ready run =
      and_then-IsReady hh' bufs frames (rx grow unmarshal hh buf)
        (λ h more. rx_all-IsReady h hh' bufs more) (rx-LeavesReady hh buf ready) run
