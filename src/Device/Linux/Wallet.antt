-- ===== src/Device/Linux/Wallet.antt =====
-- The Linux gadget with the Cosmos application, as cmd/wallera-linux/main.go puts it together.
use mathlib.Core.List.{Memᴰ}
use wall_era.Common.{
  ℕ, ◌≤◌, ◌<◌, ◌≡◌, ◌≢◌, refl, arith, true, Option, none, some, List, [], ◌∷◌, ◌++◌, All, length,
  concat, map, replicate,
}
use wall_era.Common.Go.{Outcome, returns, ◌>>=◌, ok, exact}
use wall_era.Crypto.{DerivationPath, Token, algo_secp256k1}
use wall_era.Usb.Session.{Session}
use wall_era.Usb.Format.{format_response}
use wall_era.Apps.{Capdu, Handler, apdu_success}
use wall_era.Apps.Cosmos.{Cosmos, Libraries, path_from}
use wall_era.Apps.Cosmos.Signing.{sign_bytes}
use wall_era.Device.Firmware.{HidHandler}
use wall_era.Device.Firmware.Conversation.{Serves, served, serves, AreRead, none_sent, one_read}
use wall_era.Device.Firmware.Wallet.{wallet, reply-Serves, session_signs}
use wall_era.Device.Linux.{linux_rx_all}
use wall_era.Device.Linux.Requests.{short_request_answered}

-- A host sends requests to the gadget one after the other, and waits for the frames of each answer.
abbrev pub linux_converse :
    {S E : Type 0}
    → (ℕ → ℕ)
    → (List ℕ → Option Capdu)
    → Session
    → HidHandler S E
    → List (List ℕ)
    → Outcome (HidHandler S E × List (List (List ℕ)))
linux_converse grow unmarshal host hh [] = returns (hh, [])
linux_converse grow unmarshal host hh (request ∷ requests) = do
  (hh', sent) ← linux_rx_all grow unmarshal hh (format_response host request)
  (last, more) ← linux_converse grow unmarshal host hh' requests
  returns (last, sent ∷ more)

-- An idle gadget brings every answer to a request in one frame to the host.
linux_converse-Serves :
    {S E : Type 0} (grow : ℕ → ℕ) (unmarshal : List ℕ → Option Capdu) (host : Session)
    {h h' : Handler S E} {requests answers : List (List ℕ)}
    → host.channel ≢ 0
    → host.channel < 65536
    → Serves unmarshal h requests answers h'
    → All (λ (request : List ℕ). length request ≤ 57) requests
    → (frames : List (List (List ℕ))) × (linux_converse grow unmarshal host
          (record { ah = h; session = none })
          requests
        ≡ returns (record { ah = h'; session = none }, frames))
      × AreRead grow host.channel frames answers
linux_converse-Serves grow unmarshal host c fits (served h) short = ([], refl, none_sent)
linux_converse-Serves grow unmarshal host c fits
      (serves {h} {h1} {h'} {request} {answer} e small small' answered rest) (short, shorter) =
    let (sent, run, read) =
      short_request_answered grow unmarshal h h1 host request answer e c fits short small'
        answered in
    let (frames, run', reads) = linux_converse-Serves grow unmarshal host c fits rest shorter in
    (sent ∷ frames, rw (run, run'), one_read read reads)

packets_short :
    (bodies : List (List ℕ)) (last : List ℕ)
    → ((body : List ℕ) → Memᴰ body bodies → length body ≤ 52)
    → length last ≤ 52
    → All
        (λ (request : List ℕ). length request ≤ 57)
        (map (sign_bytes 1) bodies ++ (sign_bytes 2 last ∷ []))
packets_short [] last small small_last = (omega arith, tt)
packets_short (body ∷ bodies) last small small_last = (
  omega (arith, small body (Memᴰ.head refl)),
  packets_short bodies last (λ b m. small b (Memᴰ.tail m)) small_last,
)

module _ {T E B : Type 0} (ops : Token T E) (libs : Libraries B) (unmarshal : List ℕ → Option Capdu)
    (parses : (descr : ℕ) (body : List ℕ)
      → length body < 256
      → unmarshal (sign_bytes descr body) ≡ some (record { cla = 0x55; ins = 0x02 })) where
  -- A host that cuts a document into packets of at most 52 bytes behind the header gets it signed by
  -- the Linux gadget, though a request of two frames is refused: from the frames that come back
  -- it puts together 90 00 for every packet but the last, and for that one the signature followed
  -- by 90 00, which the token makes, after its clone took the path, of the SHA-256 of all bytes of
  -- the `add` packets and the `last` packet in order. The path is read from the `init` packet, at least
  -- twenty bytes; the bytes have to be JSON, and the signature to have fewer than 65534 bytes.
  pub gadget_signs :
      (grow : ℕ → ℕ) (host : Session) (c : Cosmos T) (path_bytes last : List ℕ)
      (bodies : List (List ℕ)) (path : DerivationPath) (t : T) (signature : List ℕ)
      → host.channel ≢ 0
      → host.channel < 65536
      → 20 ≤ length path_bytes
      → length path_bytes ≤ 52
      → path_from (exact path_bytes) ≡ returns path
      → ((body : List ℕ) → Memᴰ body bodies → length body ≤ 52)
      → length last ≤ 52
      → length signature < 65534
      → ops.initialize (ops.clone c.token) path ≡ (t, none)
      → libs.json_valid (concat bodies ++ last) ≡ true
      → ops.sign t (libs.sha256 (concat bodies ++ last)) algo_secp256k1 ≡ returns (ok signature)
      → (frames : List (List (List ℕ))) × (linux_converse grow unmarshal host
            (record { ah = wallet ops libs c; session = none })
            (sign_bytes 0 path_bytes ∷ (map (sign_bytes 1) bodies ++ (sign_bytes 2 last ∷ [])))
          ≡ returns (
            record {
              ah = wallet ops libs (record c { current_signature_session = none });
              session = none;
            },
            frames,
          ))
        × AreRead grow host.channel frames (
            (0x90 ∷ 0x00 ∷ [])
            ∷ (replicate (length bodies) (0x90 ∷ 0x00 ∷ [])
                ++ ((signature ++ (0x90 ∷ 0x00 ∷ [])) ∷ [])))
  gadget_signs grow host c path_bytes last bodies path t signature channel fits long short reads
        small small_last small_signature takes_path is_json signs =
      linux_converse-Serves grow unmarshal host channel fits
        (reply-Serves ops libs unmarshal parses path last (concat bodies ++ last)
          (record { response = signature; code = apdu_success; error = none }) c small_signature
          (omega arith)
          (session_signs ops libs unmarshal parses c path (concat bodies ++ last) signature t
            takes_path is_json signs)
          path_bytes bodies (omega arith) long reads (λ body m. omega (arith, small body m)) refl)
        (omega arith, packets_short bodies last small small_last)
