-- ===== src/Device/Firmware/Request.antt =====
-- A whole request and its answer, through the frames, the session and the application.
use wall_era.Common.{
  ℕ, ◌<◌, ◌≡◌, ◌≢◌, refl, ap, ◌∙◌, subst, arith, true, false, Option, none, some, List, [], ◌∷◌,
  ◌++◌, length, inl, inr, Option-cases, append-nil,
}
use wall_era.Common.Go.{Outcome, returns, ◌>>=◌, ok, Result-cases}
use wall_era.Common.Bytes.{put_uint16_be}
use wall_era.Usb.Frame
use wall_era.Usb.Frame.{Frame, invalid_data}
use wall_era.Usb.Session.{Session, session_read_frame, read_data, new_session, data_slice}
use wall_era.Usb.Session.Cases.{read_data_cases}
use wall_era.Usb.Session.Invariant.{IsSound, read_data-IsSound, new_session-IsSound}
use wall_era.Usb.Format.{format_response}
use wall_era.Usb.Format.Receive.{receive, receive_rest, receive_from, HasRead}
use wall_era.Usb.Format.RoundTrip.{receive-format_response}
use wall_era.Apps.{Handler, Capdu, RouteError, handle}
use wall_era.Apps.Routing.{handle-answers}
use wall_era.Device.Firmware.{HidHandler, is_empty, handle_session, rx, rx_all}

-- A session that takes a frame without an error was waiting.
read_data_waits :
    (grow : ℕ → ℕ) (s : Session) (bs : List ℕ)
    → s.channel ≢ 0
    → (read_data grow s bs).1 ≡ none
    → s.should_read_more ≡ true
read_data_waits grow s bs c e = elim (read_data_cases grow s bs) [
  | inl (x, refused) ↦ cc (rw refused at e)
  | inr (f, kind, valid, run) ↦ waits f (rw run at e)
]
  where
    waits : (f : Frame) → (session_read_frame grow s f).1 ≡ none → s.should_read_more ≡ true
    waits f done = unfold session_read_frame in ground arith

format_response-channel :
    (s s' : Session) (bs : List ℕ)
    → s'.channel ≡ s.channel
    → format_response s' bs ≡ format_response s bs
unfolding format_response
format_response-channel s s' bs e = rw e

module _ {S E : Type 0} (grow : ℕ → ℕ) (unmarshal : List ℕ → Option Capdu) where
  rx_waiting :
      (h : Handler S E) (s s1 : Session) (buf : List ℕ)
      → read_data grow s buf ≡ (s1, none)
      → s1.should_read_more ≡ true
      → rx grow unmarshal (record { ah = h; session = some s }) buf
        ≡ returns (record { ah = h; session = some s1 }, [], none)
  unfolding rx
  rx_waiting h s s1 buf e more = rw (e, more)

  rx_complete :
      (h : Handler S E) (s s1 : Session) (buf : List ℕ)
      → read_data grow s buf ≡ (s1, none)
      → s1.should_read_more ≡ false
      → rx grow unmarshal (record { ah = h; session = some s }) buf
        ≡ handle_session grow unmarshal h s1 []
  unfolding rx
  rx_complete h s s1 buf e done = rw (e, done)

  rx_begun :
      (h : Handler S E) (s : Session) (buf : List ℕ)
      → new_session grow buf ≡ ok s
      → s.should_read_more ≡ true
      → rx grow unmarshal (record { ah = h; session = none }) buf
        ≡ returns (record { ah = h; session = some s }, [], none)
  unfolding rx
  rx_begun h s buf made more = rw made (rw more)

  rx_single :
      (h : Handler S E) (s : Session) (buf : List ℕ)
      → new_session grow buf ≡ ok s
      → rx grow unmarshal (record { ah = h; session = none }) buf
        ≡ handle_session grow unmarshal h s []
  unfolding rx
  rx_single h s buf made = rw made

-- Reading one frame of a run that ends well.
receive_rest_step :
    (grow : ℕ → ℕ) (s s' : Session) (buf : List ℕ) (bufs : List (List ℕ))
    → receive_rest grow s (buf ∷ bufs) ≡ ok s'
    → (s1 : Session) × (read_data grow s buf ≡ (s1, none)) × (receive_rest grow s1 bufs ≡ ok s')
receive_rest_step grow s s' buf bufs got = elim (Option-cases (read_data grow s buf).1) [
  | inr (x, failed) ↦ cc (rw (failed, receive_rest) at got)
  | inl fine ↦ (
    (read_data grow s buf).0,
    (λ i. ((read_data grow s buf).0, fine i)),
    (rw (fine, receive_rest) at got),
  )
]

-- Unless nothing is left to read, the session waits.
receive_rest_waits :
    (grow : ℕ → ℕ) (s s' : Session) (buf : List ℕ) (bufs : List (List ℕ))
    → s.channel ≢ 0
    → receive_rest grow s (buf ∷ bufs) ≡ ok s'
    → s.should_read_more ≡ true
receive_rest_waits grow s s' buf bufs c got =
    let (s1, read, rest) = receive_rest_step grow s s' buf bufs got in
    read_data_waits grow s buf c (ap (λ (r : Session × Option Frame.Error). r.1) read)

is_empty_code : (body : List ℕ) (code : ℕ) → is_empty (body ++ put_uint16_be code) ≡ false
is_empty_code [] code = refl
is_empty_code (b ∷ body) code = refl

module _ {S E : Type 0} (grow : ℕ → ℕ) (unmarshal : List ℕ → Option Capdu) (h h' : Handler S E)
    (answer : List ℕ) (e : Option (RouteError E)) (s' : Session)
    (run : handle unmarshal h (data_slice s') ≡ returns (h', answer, e))
    (done : s'.should_read_more ≡ false) where
  handle_session_answers :
      handle_session grow unmarshal h s' []
      ≡ returns (record { ah = h'; session = none }, format_response s' answer, none)
  handle_session_answers =
      let (body, code, shape) = handle-answers unmarshal h h' (data_slice s') answer e run in
      let full : is_empty answer ≡ false = ap is_empty shape ∙ is_empty_code body code in
      rw (done, run, full)

  rx_all_last :
      (s : Session) (buf : List ℕ)
      → read_data grow s buf ≡ (s', none)
      → rx_all grow unmarshal (record { ah = h; session = some s }) (buf ∷ [])
        ≡ returns (record { ah = h'; session = none }, format_response s' answer)
  rx_all_last s buf read = rw (
    rx_complete grow unmarshal h s s' buf read done,
    handle_session_answers,
    append-nil (format_response s' answer),
  )

  rx_all_rest :
      (s : Session) (buf : List ℕ) (bufs : List (List ℕ))
      → IsSound s
      → receive_rest grow s (buf ∷ bufs) ≡ ok s'
      → rx_all grow unmarshal (record { ah = h; session = some s }) (buf ∷ bufs)
        ≡ returns (record { ah = h'; session = none }, format_response s' answer)
  rx_all_rest s buf [] sound got =
      let (s1, read, rest) = receive_rest_step grow s s' buf [] got in
      let same : s1 ≡ s' = cc in rx_all_last s buf (read ∙ ap (λ (t : Session). (t, none)) same)
  rx_all_rest s buf (buf' ∷ bufs) sound got =
      let (s1, read, rest) = receive_rest_step grow s s' buf (buf' ∷ bufs) got in
      let sound1 : IsSound s1 =
        subst (λ (r : Session × Option Frame.Error). IsSound r.0) read
          (read_data-IsSound grow s buf sound) in
      rw
        (rx_waiting grow unmarshal h s s1 buf read
          (receive_rest_waits grow s1 s' buf' bufs sound1.has_channel rest))
        (ap
          (λ (r : Outcome (HidHandler S E × List (List ℕ))). (do
            (last, more) ← r
            returns (last, more)))
          (rx_all_rest s1 buf' bufs sound1 rest))

  rx_all_started :
      (s : Session) (buf : List ℕ) (bufs : List (List ℕ))
      → new_session grow buf ≡ ok s
      → receive_rest grow s bufs ≡ ok s'
      → rx_all grow unmarshal (record { ah = h; session = none }) (buf ∷ bufs)
        ≡ returns (record { ah = h'; session = none }, format_response s' answer)
  rx_all_started s buf [] made got =
      let same : s ≡ s' = cc in
      rw (
        rx_single grow unmarshal h s' buf (made ∙ ap ok same),
        handle_session_answers,
        append-nil (format_response s' answer),
      )
  rx_all_started s buf (buf' ∷ bufs) made got =
      let sound : IsSound s = new_session-IsSound grow buf s made in
      rw
        (rx_begun grow unmarshal h s buf made
          (receive_rest_waits grow s s' buf' bufs sound.has_channel got))
        (ap
          (λ (r : Outcome (HidHandler S E × List (List ℕ))). (do
            (last, more) ← r
            returns (last, more)))
          (rx_all_rest s buf' bufs sound got))

  rx_all-receive :
      (packets : List (List ℕ))
      → receive grow packets ≡ ok s'
      → rx_all grow unmarshal (record { ah = h; session = none }) packets
        ≡ returns (record { ah = h'; session = none }, format_response s' answer)
  rx_all-receive [] got = cc
  rx_all-receive (buf ∷ bufs) got = elim (Result-cases (new_session grow buf)) [
    | inl (s, made) ↦ rx_all_started s buf bufs made (rw (made, receive_from) at got)
    | inr (x, failed) ↦ cc (rw (failed, receive_from) at got)
  ]

-- A host that sends a request of fewer than 65536 bytes, cut into frames of its session, to an
-- idle firmware whose applications answer that request, whatever lies behind it in the buffer,
-- gets the whole answer: the firmware takes every frame, sends frames from which a new session of
-- the host puts exactly the answer together, and is idle again, with the applications' new state.
pub exchange :
    {S E : Type 0} (grow : ℕ → ℕ) (unmarshal : List ℕ → Option Capdu) (h h' : Handler S E)
    (host : Session) (request answer : List ℕ) (e : Option (RouteError E))
    → host.channel ≢ 0
    → host.channel < 65536
    → length request < 65536
    → length answer < 65536
    → ((beyond : List ℕ)
        → handle unmarshal h (record { elems = request; beyond = beyond })
          ≡ returns (h', answer, e))
    → (sent : List (List ℕ)) × (rx_all grow unmarshal
          (record { ah = h; session = none })
          (format_response host request)
        ≡ returns (record { ah = h'; session = none }, sent))
      × (reader : Session) × (receive grow sent ≡ ok reader)
      × HasRead reader host.channel answer
exchange grow unmarshal h h' host request answer e c fits small small' answers =
    let (s', got, read) = receive-format_response grow host request c fits small in
    let run : handle unmarshal h (data_slice s') ≡ returns (h', answer, e) =
      ap (λ (t : List ℕ). handle unmarshal h (record { elems = t; beyond = s'.buffer.beyond }))
        read.data_is
      ∙ answers s'.buffer.beyond in
    let (reader, got', read') = receive-format_response grow host answer c fits small' in
    (
      format_response host answer,
      rx_all-receive grow unmarshal h h' answer e s' run read.complete
            (format_response host request) got
          ∙ ap (λ (t : List (List ℕ)). returns (record { ah = h'; session = none }, t))
              (format_response-channel host s' answer read.channel_is),
      reader,
      got',
      read',
    )
