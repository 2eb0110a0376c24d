-- ===== src/Device/Firmware/Wallet/Refusals.antt =====
-- What the host gets when a document is not signed.
use mathlib.Core.List.{Memᴰ}
use wall_era.Common.{
  ℕ, ◌≤◌, ◌<◌, ◌≡◌, ◌≢◌, refl, arith, true, false, Option, none, some, List, [], ◌∷◌, ◌++◌, length,
  concat, map, replicate,
}
use wall_era.Common.Go.{returns, err, exact}
use wall_era.Common.Bytes.{put_uint16_be}
use wall_era.Crypto.{DerivationPath, Token, algo_secp256k1}
use wall_era.Usb.Session.{Session}
use wall_era.Apps.{Capdu, apdu_execution_error, apdu_data_invalid}
use wall_era.Apps.Cosmos.{Cosmos, Error, Libraries, token_error, not_json, path_from, sign_session}
use wall_era.Apps.Cosmos.Signing.{sign_bytes}
use wall_era.Device.Firmware.{converse}
use wall_era.Device.Firmware.Conversation.{AreRead, converse-Serves}
use wall_era.Device.Firmware.Wallet.{wallet, reply-Serves}

module _ {T E B : Type 0} (ops : Token T E) (libs : Libraries B) (c : Cosmos T)
    (path : DerivationPath) (whole : List ℕ) where
  -- Why these bytes are not signed with the key of this path, and the code for it.
  pub data Refuses : ℕ → Type 0 where
    path_refused :
        (t : T) (e : E)
        → ops.initialize (ops.clone c.token) path ≡ (t, some e)
        → Refuses apdu_execution_error
    no_json :
        (t : T)
        → ops.initialize (ops.clone c.token) path ≡ (t, none)
        → libs.json_valid whole ≡ false
        → Refuses apdu_data_invalid
    sign_failed :
        (t : T) (e : E)
        → ops.initialize (ops.clone c.token) path ≡ (t, none)
        → libs.json_valid whole ≡ true
        → ops.sign t (libs.sha256 whole) algo_secp256k1 ≡ returns (err e)
        → Refuses apdu_execution_error

  refused-reply :
      (code : ℕ)
      → Refuses code
      → (e : Error E B) × (sign_session ops libs c.token
            (record { derivation_path = path; payload = whole })
          ≡ returns (c.token, record { response = []; code = code; error = some e }))
  refused-reply _ (path_refused t e init) = (token_error e, rw init)
  refused-reply _ (no_json t init invalid) = (not_json, rw (init, invalid))
  refused-reply _ (sign_failed t e init valid fails) = (token_error e, rw (init, valid, fails))

module _ {T E B : Type 0} (ops : Token T E) (libs : Libraries B) (unmarshal : List ℕ → Option Capdu)
    (parses : (descr : ℕ) (body : List ℕ)
      → length body < 256
      → unmarshal (sign_bytes descr body) ≡ some (record { cla = 0x55; ins = 0x02 })) where
  -- Where the token refuses the path, where the bytes are no JSON, or where the token fails to sign
  -- their hash, the host still gets 90 00 for every packet but the last, and for that one just the
  -- two bytes 64 00, 69 84 or 64 00. The firmware is idle again, its token is as before, and the
  -- signature session is gone, so that the next packet has to begin a new one.
  pub host_gets_refusal :
      (grow : ℕ → ℕ) (host : Session) (c : Cosmos T) (path_bytes last : List ℕ)
      (bodies : List (List ℕ)) (path : DerivationPath) (code : ℕ)
      → host.channel ≢ 0
      → host.channel < 65536
      → length path_bytes < 256
      → 20 ≤ length path_bytes
      → path_from (exact path_bytes) ≡ returns path
      → ((body : List ℕ) → Memᴰ body bodies → length body < 256)
      → length last < 256
      → Refuses ops libs c path (concat bodies ++ last) code
      → (frames : List (List (List ℕ))) × (converse grow unmarshal host
            (record { ah = wallet ops libs c; session = none })
            (sign_bytes 0 path_bytes ∷ (map (sign_bytes 1) bodies ++ (sign_bytes 2 last ∷ [])))
          ≡ returns (
            record {
              ah = wallet ops libs (record c { current_signature_session = none });
              session = none;
            },
            frames,
          ))
        × AreRead grow host.channel frames (
            (0x90 ∷ 0x00 ∷ [])
            ∷ (replicate (length bodies) (0x90 ∷ 0x00 ∷ []) ++ (put_uint16_be code ∷ [])))
  host_gets_refusal grow host c path_bytes last bodies path code channel fits short long reads small
        small_last refuses =
      let (e, concludes) = refused-reply ops libs c path (concat bodies ++ last) code refuses in
      converse-Serves grow unmarshal host channel fits (
        reply-Serves ops libs unmarshal parses path last (concat bodies ++ last)
          (record { response = []; code = code; error = some e }) c (omega arith) small_last
          concludes path_bytes bodies short long reads small refl)
