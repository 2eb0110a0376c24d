-- ===== src/Device/Linux/Requests.antt =====
-- Whole requests to the Linux gadget.
use wall_era.Common.{
  ℕ, ◌-◌, ◌≤◌, ◌<◌, ◌≡◌, ◌≢◌, refl, sym, ap, ◌∙◌, arith, true, Option, none, some, List, [], ◌∷◌,
  length, replicate, concat,
}
use wall_era.Common.Go.{returns, ok}
use wall_era.Usb.Session.{Session, new_session}
use wall_era.Usb.Session.Invariant.{feed}
use wall_era.Usb.Format.{format_response}
use wall_era.Usb.Format.RoundTrip.{format_response-begins, format_response-single}
use wall_era.Apps.{Handler, Capdu, RouteError, handle}
use wall_era.Device.Firmware.{HidHandler, refusal, rx, rx_all}
use wall_era.Device.Firmware.Conversation.{IsRead}
use wall_era.Device.Firmware.Request.{exchange}
use wall_era.Device.Linux.{linux_rx, linux_rx_all}
use wall_era.Device.Linux.OpenSession.{open_session_refuses, refusal-channel}

module _ {S E : Type 0} (grow : ℕ → ℕ) (unmarshal : List ℕ → Option Capdu) where
  -- Without a session, the gadget does with one frame what the firmware does.
  one_frame_same :
      (h : Handler S E) (frame : List ℕ)
      → linux_rx_all grow unmarshal (record { ah = h; session = none }) (frame ∷ [])
        ≡ rx_all grow unmarshal (record { ah = h; session = none }) (frame ∷ [])
  unfolding linux_rx rx
  one_frame_same h frame = refl

  single_same :
      (h : Handler S E) (host : Session) (request : List ℕ)
      → length request ≤ 57
      → linux_rx_all grow unmarshal
          (record { ah = h; session = none })
          (format_response host request)
        ≡ rx_all grow unmarshal (record { ah = h; session = none }) (format_response host request)
  single_same h host request short =
      let (frame, single) = format_response-single host request short in
      rw single (one_frame_same h frame)

  -- A host that sends a request of at most 57 bytes, in the one frame of its session, to an idle
  -- gadget whose applications answer that request, whatever lies behind it in the buffer, gets the
  -- whole answer of fewer than 65536 bytes: the gadget sends frames from which a new session of the
  -- host puts exactly the answer together, and is idle again, with the applications' new state.
  pub short_request_answered :
      (h h' : Handler S E) (host : Session) (request answer : List ℕ) (e : Option (RouteError E))
      → host.channel ≢ 0
      → host.channel < 65536
      → length request ≤ 57
      → length answer < 65536
      → ((beyond : List ℕ)
          → handle unmarshal h (record { elems = request; beyond = beyond })
            ≡ returns (h', answer, e))
      → (sent : List (List ℕ)) × (linux_rx_all grow unmarshal
            (record { ah = h; session = none })
            (format_response host request)
          ≡ returns (record { ah = h'; session = none }, sent))
        × IsRead grow host.channel sent answer
  short_request_answered h h' host request answer e c fits short small answers =
      let (sent, run, reader, got, has) =
        exchange grow unmarshal h h' host request answer e c fits (omega arith) small answers in
      (sent, single_same h host request short ∙ run, (reader, got, has))

  first_opens :
      (h : Handler S E) (s : Session) (buf : List ℕ)
      → new_session grow buf ≡ ok s
      → s.should_read_more ≡ true
      → linux_rx grow unmarshal (record { ah = h; session = none }) buf
        ≡ returns (record { ah = h; session = some s }, [], none)
  unfolding linux_rx
  first_opens h s buf made more = rw made (rw more)

  linux_begun :
      (h : Handler S E) (s : Session) (buf : List ℕ) (bufs sent : List (List ℕ))
      (last : HidHandler S E)
      → new_session grow buf ≡ ok s
      → s.should_read_more ≡ true
      → linux_rx_all grow unmarshal (record { ah = h; session = some s }) bufs
        ≡ returns (last, sent)
      → linux_rx_all grow unmarshal (record { ah = h; session = none }) (buf ∷ bufs)
        ≡ returns (last, sent)
  linux_begun h s buf bufs sent last made more rest = rw (first_opens h s buf made more, rest) refl

  -- A longer request is never answered: to an idle gadget with any applications, the first of its
  -- frames opens a session, and each of the others, though it is the very one that is due, is answered
  -- with the refusal 69 86 in the frames of the host's channel. The applications see nothing of the
  -- request and keep their state, and the session stays open.
  pub long_request_refused :
      (h : Handler S E) (host : Session) (request : List ℕ)
      → host.channel ≢ 0
      → host.channel < 65536
      → length request < 65536
      → 57 < length request
      → (s : Session) × (linux_rx_all grow unmarshal
            (record { ah = h; session = none })
            (format_response host request)
          ≡ returns (
            record { ah = h; session = some s },
            concat (replicate (length (format_response host request) - 1) (refusal host)),
          ))
  long_request_refused h host request c fits small long =
      let (first, rest, s1, frames, made, same, more) =
        format_response-begins grow host request c fits small long in
      (
        feed grow s1 rest,
        rw
            (
              frames,
              linux_begun h s1 first rest (concat (replicate (length rest) (refusal s1)))
                  (record { ah = h; session = some (feed grow s1 rest) }) made more
                  (open_session_refuses grow unmarshal h s1 rest (λ e. c (sym same ∙ e))),
              refusal-channel host s1 same,
            )
            (ap
              (λ (n : ℕ). returns (
                record { ah = h; session = some (feed grow s1 rest) },
                concat (replicate n (refusal host)),
              ))
              {x = length rest} {y = length (first ∷ rest) - 1} (omega arith)),
      )
