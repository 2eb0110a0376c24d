-- ===== src/Device/Firmware/Conversation.antt =====
-- Several requests of a host, one after the other.
use wall_era.Common.{ℕ, ◌<◌, ◌≡◌, ◌≢◌, refl, Option, none, List, [], ◌∷◌, length}
use wall_era.Common.Go.{returns, ok}
use wall_era.Usb.Session.{Session}
use wall_era.Usb.Format.Receive.{receive, HasRead}
use wall_era.Apps.{Handler, Capdu, RouteError, handle}
use wall_era.Device.Firmware.{converse}
use wall_era.Device.Firmware.Request.{exchange}

-- Applications that answer these requests, in order, whatever lies behind each in the buffer,
-- with the states that they go through.
pub data Serves {S E : Type 0} (unmarshal : List ℕ → Option Capdu)
    : Handler S E → List (List ℕ) → List (List ℕ) → Handler S E → Type 0 where
  served : (h : Handler S E) → Serves unmarshal h [] [] h
  serves :
      {h h1 h' : Handler S E} {request answer : List ℕ} {requests answers : List (List ℕ)}
      (e : Option (RouteError E))
      → length request < 65536
      → length answer < 65536
      → ((beyond : List ℕ)
          → handle unmarshal h (record { elems = request; beyond = beyond })
            ≡ returns (h1, answer, e))
      → Serves unmarshal h1 requests answers h'
      → Serves unmarshal h (request ∷ requests) (answer ∷ answers) h'

-- Frames from which a new session puts together exactly these bytes.
abbrev pub IsRead : (ℕ → ℕ) → ℕ → List (List ℕ) → List ℕ → Type 0
IsRead grow channel sent answer =
    (reader : Session) × (receive grow sent ≡ ok reader) × HasRead reader channel answer

-- The frames for every request give the answer to it.
pub data AreRead (grow : ℕ → ℕ) (channel : ℕ) : List (List (List ℕ)) → List (List ℕ) → Type 0 where
  none_sent : AreRead grow channel [] []
  one_read :
      {sent : List (List ℕ)} {answer : List ℕ} {more : List (List (List ℕ))}
      {answers : List (List ℕ)}
      → IsRead grow channel sent answer
      → AreRead grow channel more answers
      → AreRead grow channel (sent ∷ more) (answer ∷ answers)

-- An idle firmware brings every answer of its applications to the host.
pub converse-Serves :
    {S E : Type 0} (grow : ℕ → ℕ) (unmarshal : List ℕ → Option Capdu) (host : Session)
    {h h' : Handler S E} {requests answers : List (List ℕ)}
    → host.channel ≢ 0
    → host.channel < 65536
    → Serves unmarshal h requests answers h'
    → (frames : List (List (List ℕ))) × (converse grow unmarshal host
          (record { ah = h; session = none })
          requests
        ≡ returns (record { ah = h'; session = none }, frames))
      × AreRead grow host.channel frames answers
converse-Serves grow unmarshal host c fits (served h) = ([], refl, none_sent)
converse-Serves grow unmarshal host c fits
      (serves {h} {h1} {h'} {request} {answer} e small small' answered rest) =
    let (sent, run, reader, got, has) =
      exchange grow unmarshal h h1 host request answer e c fits small small' answered in
    let (frames, run', reads) = converse-Serves grow unmarshal host c fits rest in
    (sent ∷ frames, rw (run, run'), one_read (reader, got, has) reads)
