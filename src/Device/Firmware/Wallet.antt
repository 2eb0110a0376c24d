-- ===== src/Device/Firmware/Wallet.antt =====
-- The firmware with the Cosmos application, as firmware/main.go puts it together.
pub mod Address
pub mod Software
pub mod Secure
pub mod Refusals
pub mod SecureRefused
mod SecureExamples
mod Examples
use mathlib.Core.List.{Memᴰ}
use wall_era.Common.{
  ℕ, ◌≤◌, ◌<◌, ◌≡◌, ◌≢◌, refl, sym, ap, ◌∙◌, arith, true, Option, none, some, List, [], ◌∷◌, ◌++◌,
  length, concat, map, replicate, append_assoc, length-append,
}
use wall_era.Common.Go.{returns, ok, exact, Slice}
use wall_era.Common.Bytes.{put_uint16_be}
use wall_era.Crypto.{DerivationPath, Token, algo_secp256k1}
use wall_era.Usb.Session.{Session}
use wall_era.Apps.{
  Handler, Capdu, Reply, to_route_error, has_command, new_handler, register, handle, apdu_success,
  package_response,
}
use wall_era.Apps.Routing.{handle-parsed, route-found}
use wall_era.Apps.Cosmos
use wall_era.Apps.Cosmos.{
  Cosmos, Error, Libraries, cosmos_app, cla_sign_secp256k1, path_from, sign_session,
}
use wall_era.Apps.Cosmos.Path.{path_from-beyond}
use wall_era.Apps.Cosmos.Signing.{
  sign_bytes, packet_in, with_session, handle_init, handle_add, handle_last,
}
use wall_era.Device.Firmware.{converse}
use wall_era.Device.Firmware.Conversation.{Serves, served, serves, AreRead, converse-Serves}

module _ {T E B : Type 0} (ops : Token T E) (libs : Libraries B) where
  -- The applications of the firmware: that of Cosmos alone.
  unfoldable pub wallet : Cosmos T → Handler (Cosmos T) (Error E B)
  unfolding register
  wallet c = (register new_handler (cosmos_app ops libs c ∷ [])).0

  -- A packet for the Cosmos application is answered with its reply and the code.
  pub wallet_answers :
      (unmarshal : List ℕ → Option Capdu) (c c' : Cosmos T) (ins : ℕ) (bs : Slice)
      (reply : Reply (Error E B))
      → unmarshal bs.elems ≡ some (record { cla = 0x55; ins = ins })
      → has_command (wallet c).command_app_map 0x55 ins ≡ true
      → Cosmos.handle ops libs c ins bs ≡ returns (c', reply)
      → handle unmarshal (wallet c) bs
        ≡ returns
            (wallet c', reply.response ++ put_uint16_be reply.code, to_route_error reply.error)
  unfolding wallet package_response
  wallet_answers unmarshal c c' ins bs reply parsed has run =
      handle-parsed unmarshal (wallet c) bs (record { cla = 0x55; ins = ins }) parsed
      ∙ route-found (wallet c) (cosmos_app ops libs c) bs (record { cla = 0x55; ins = ins }) c'
          reply refl has run

  module _ (unmarshal : List ℕ → Option Capdu)
      (parses : (descr : ℕ) (body : List ℕ)
        → length body < 256
        → unmarshal (sign_bytes descr body) ≡ some (record { cla = 0x55; ins = 0x02 })) where
    sign_answers :
        (c c' : Cosmos T) (descr : ℕ) (body beyond : List ℕ) (reply : Reply (Error E B))
        → length body < 256
        → Cosmos.handle ops libs c cla_sign_secp256k1 (packet_in descr body beyond)
          ≡ returns (c', reply)
        → handle unmarshal (wallet c) (packet_in descr body beyond)
          ≡ returns
              (wallet c', reply.response ++ put_uint16_be reply.code, to_route_error reply.error)
    unfolding wallet
    sign_answers c c' descr body beyond reply small run =
        wallet_answers unmarshal c c' 0x02 (packet_in descr body beyond) reply
          (parses descr body small) refl run

    -- The code of success.
    abbrev pub success : List ℕ
    success = 0x90 ∷ 0x00 ∷ []

    -- What the host gets of a reply of the application.
    abbrev pub packaged : Reply (Error E B) → List ℕ
    packaged r = r.response ++ put_uint16_be r.code

    module _ (path : DerivationPath) (last whole : List ℕ) (r : Reply (Error E B)) (c : Cosmos T)
        (small_reply : length r.response < 65534) (small_last : length last < 256)
        (concludes : sign_session ops libs c.token
            (record { derivation_path = path; payload = whole })
          ≡ returns (c.token, r)) where
      last-Serves :
          (got : List ℕ)
          → got ++ last ≡ whole
          → Serves unmarshal
              (wallet (with_session ops libs c path got))
              (sign_bytes 2 last ∷ [])
              (packaged r ∷ [])
              (wallet (record c { current_signature_session = none }))
      last-Serves got all =
          serves (to_route_error r.error) (omega arith)
            (omega (arith, length-append r.response (put_uint16_be r.code)))
            (λ beyond.
              sign_answers (with_session ops libs c path got)
                (record c { current_signature_session = none }) 2 last beyond r small_last
                (handle_last ops libs c last beyond got path ∙ rw (all, concludes)))
            (served (wallet (record c { current_signature_session = none })))

      adds-Serves :
          (got : List ℕ) (bodies : List (List ℕ))
          → ((body : List ℕ) → Memᴰ body bodies → length body < 256)
          → got ++ (concat bodies ++ last) ≡ whole
          → Serves unmarshal
              (wallet (with_session ops libs c path got))
              (map (sign_bytes 1) bodies ++ (sign_bytes 2 last ∷ []))
              (replicate (length bodies) success ++ (packaged r ∷ []))
              (wallet (record c { current_signature_session = none }))
      adds-Serves got [] small all = last-Serves got all
      adds-Serves got (body ∷ bodies) small all =
          serves none (omega (arith, small body (Memᴰ.head refl))) (omega arith)
            (λ beyond.
              sign_answers (with_session ops libs c path got)
                (with_session ops libs c path (got ++ body)) 1 body beyond
                (record { response = []; code = apdu_success; error = none })
                (small body (Memᴰ.head refl)) (handle_add ops libs c body beyond got path))
            (adds-Serves (got ++ body) bodies (λ b m. small b (Memᴰ.tail m))
              (append_assoc got body (concat bodies ++ last)
                ∙ ap (λ (l : List ℕ). got ++ l) (sym (append_assoc body (concat bodies) last))
                ∙ all))

      pub reply-Serves :
          (path_bytes : List ℕ) (bodies : List (List ℕ))
          → length path_bytes < 256
          → 20 ≤ length path_bytes
          → path_from (exact path_bytes) ≡ returns path
          → ((body : List ℕ) → Memᴰ body bodies → length body < 256)
          → concat bodies ++ last ≡ whole
          → Serves unmarshal
              (wallet c)
              (sign_bytes 0 path_bytes ∷ (map (sign_bytes 1) bodies ++ (sign_bytes 2 last ∷ [])))
              (success ∷ (replicate (length bodies) success ++ (packaged r ∷ [])))
              (wallet (record c { current_signature_session = none }))
      reply-Serves path_bytes bodies short long reads small all =
          serves none (omega arith) (omega arith)
            (λ beyond.
              sign_answers c (with_session ops libs c path []) 0 path_bytes beyond
                (record { response = []; code = apdu_success; error = none }) short
                (handle_init ops libs c path_bytes beyond path
                  (path_from-beyond path_bytes beyond path long reads)))
            (adds-Serves [] bodies small all)

    -- The reply with a signature.
    pub session_signs :
        (c : Cosmos T) (path : DerivationPath) (whole signature : List ℕ) (t : T)
        → ops.initialize (ops.clone c.token) path ≡ (t, none)
        → libs.json_valid whole ≡ true
        → ops.sign t (libs.sha256 whole) algo_secp256k1 ≡ returns (ok signature)
        → sign_session ops libs c.token (record { derivation_path = path; payload = whole })
          ≡ returns (c.token, record { response = signature; code = apdu_success; error = none })
    session_signs c path whole signature t takes_path is_json signs =
        rw (takes_path, is_json, signs)

    -- A host with a channel that is not 0 sends an `init` packet with a path in at least twenty
    -- bytes, `add` packets and a `last` packet, each of at most 255 bytes behind its header and cut
    -- into frames, to an idle firmware with the Cosmos application in any state. It puts together
    -- from the frames that come back 90 00 for every packet but the last, and for that one the
    -- signature followed by 90 00: what the token signs, after its clone took the path, of the
    -- SHA-256 of all the bytes of the `add` packets and the `last` packet in order. Those bytes have
    -- to be JSON, the signature to have fewer than 65534 bytes, and the parser of packets has to find
    -- class and instruction in them. The firmware is idle again, without a signature session.
    pub host_gets_signature :
        (grow : ℕ → ℕ) (host : Session) (c : Cosmos T) (path_bytes last : List ℕ)
        (bodies : List (List ℕ)) (path : DerivationPath) (t : T) (signature : List ℕ)
        → host.channel ≢ 0
        → host.channel < 65536
        → length path_bytes < 256
        → 20 ≤ length path_bytes
        → path_from (exact path_bytes) ≡ returns path
        → ((body : List ℕ) → Memᴰ body bodies → length body < 256)
        → length last < 256
        → length signature < 65534
        → ops.initialize (ops.clone c.token) path ≡ (t, none)
        → libs.json_valid (concat bodies ++ last) ≡ true
        → ops.sign t (libs.sha256 (concat bodies ++ last)) algo_secp256k1 ≡ returns (ok signature)
        → (frames : List (List (List ℕ))) × (converse grow unmarshal host
              (record { ah = wallet c; session = none })
              (sign_bytes 0 path_bytes ∷ (map (sign_bytes 1) bodies ++ (sign_bytes 2 last ∷ [])))
            ≡ returns (
              record {
                ah = wallet (record c { current_signature_session = none });
                session = none;
              },
              frames,
            ))
          × AreRead grow host.channel frames
              (success ∷ (replicate (length bodies) success ++ ((signature ++ success) ∷ [])))
    host_gets_signature grow host c path_bytes last bodies path t signature channel fits short long
          reads small small_last small_signature takes_path is_json signs =
        converse-Serves grow unmarshal host channel fits (
          reply-Serves path last (concat bodies ++ last)
            (record { response = signature; code = apdu_success; error = none }) c small_signature
            small_last
            (session_signs c path (concat bodies ++ last) signature t takes_path is_json signs)
            path_bytes bodies short long reads small refl)
