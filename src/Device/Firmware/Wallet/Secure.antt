-- ===== src/Device/Firmware/Wallet/Secure.antt =====
-- The firmware of the build with the trusted environment (firmware/tee_tee_enabled.go): from the
-- words of a path on the wire to a signature that the applet's token makes.
use mathlib.Core.List.{Memᴰ}
use wall_era.Common.{
  ℕ, ◌<◌, ◌≡◌, ◌≢◌, refl, ap, arith, true, Option, none, some, List, [], ◌∷◌, ◌++◌, length, concat,
  map, replicate, bit_xor,
}
use wall_era.Common.Go.{Outcome, returns, ok}
use wall_era.Crypto.{Random, Keychain, Token, algo_secp256k1}
use wall_era.Crypto.Derivation.{descend, wire_path}
use wall_era.Crypto.DumbToken.{new_dumb_token, derive_secret}
use wall_era.Crypto.DumbToken.Keys.{sign-wire_path}
use wall_era.Usb.Session.{Session}
use wall_era.Apps.{Capdu}
use wall_era.Apps.Cosmos.{Cosmos, Libraries}
use wall_era.Apps.Cosmos.Path.{wire_bytes}
use wall_era.Apps.Cosmos.Signing.{sign_bytes}
use wall_era.Tz.{Context, contains}
use wall_era.Tee.{Json, request_sign, a_sign_response}
use wall_era.Tee.Client.{TeeToken, ClientError}
use wall_era.Tee.TeeToken.{tee_token, answer}
use wall_era.Tee.SecureToken.Refines.{secure_world, tee_sign-dumb_token}
use wall_era.Tee.Trip.{Carries, CarriesSign, sign_request}
use wall_era.Device.Firmware.{converse}
use wall_era.Device.Firmware.Conversation.{AreRead}
use wall_era.Device.Firmware.Wallet.{wallet, host_gets_signature}
use wall_era.Device.Firmware.Wallet.Software.{HasWords, HasWords-twenty, HasWords-reads}

-- What is signed: the data that the application asks to sign are hashed once more.
abbrev pub hashed_twice : {B : Type 0} → Libraries B → List ℕ → List ℕ
hashed_twice libs whole = libs.sha256 (libs.sha256 whole)

module _ {B J : Type 0} (kc : Keychain) (rand : Random kc.Error) (hmac : List ℕ → List ℕ → List ℕ)
    (json : Json J) (fatal : Context → Outcome Context) (others : ℕ → Context → Outcome Context)
    (apps : List ℕ) (registered : contains apps 42 ≡ true) (libs : Libraries B) where
  -- The firmware's token of this build, with the applet's own token behind the mailboxes.
  abbrev pub applet_token : Token TeeToken (ClientError J)
  applet_token =
      tee_token json (secure_world kc rand hmac json fatal others apps registered) libs.sha256 apps

module _ {B J : Type 0} (kc : Keychain) (rand : Random kc.Error) (hmac : List ℕ → List ℕ → List ℕ)
    (json : Json J) (fatal : Context → Outcome Context) (others : ℕ → Context → Outcome Context)
    (apps : List ℕ) (registered : contains apps 42 ≡ true) (libs : Libraries B)
    (unmarshal : List ℕ → Option Capdu)
    (parses : (descr : ℕ) (body : List ℕ)
      → length body < 256
      → unmarshal (sign_bytes descr body) ≡ some (record { cla = 0x55; ins = 0x02 })) where
  -- In the build with the trusted environment, what the host puts together from the answers to an
  -- `init` packet with five words, `add` packets and a `last` packet is 90 00 for each packet, at the
  -- last one behind a signature that the applet makes with the key that the keychain gives at the end
  -- of these very words, from the master key of the applet's secret and of the second word with its
  -- top bit flipped. It is a signature of the SHA-256 of the SHA-256 of the bytes, where the software
  -- token signs their SHA-256. The applet has to be registered, no mail and no result to wait, JSON to
  -- carry the request to the applet and its response, and keychain and packets to be as for the
  -- software token.
  pub host_signs_in_applet :
      (grow : ℕ → ℕ) (host : Session) (c : Cosmos TeeToken) (p q a h i : List ℕ)
      (w0 w1 w2 w3 w4 : ℕ) (last secret : List ℕ) (bodies : List (List ℕ)) (master key : kc.Key)
      (private : kc.PrivKey) (signature : kc.Signature)
      → host.channel ≢ 0
      → host.channel < 65536
      → kc.hardened_key_start ≡ 0x80000000
      → HasWords p q a h i w0 w1 w2 w3 w4
      → ((body : List ℕ) → Memᴰ body bodies → length body < 256)
      → length last < 256
      → length (kc.serialize signature) < 65534
      → libs.json_valid (concat bodies ++ last) ≡ true
      → CarriesSign json (
          sign_request libs.sha256
            (record { path = wire_path w0 w1 w2 w3 w4 })
            (libs.sha256 (concat bodies ++ last)))
      → Carries json a_sign_response
          (record { id = request_sign; data_bytes = kc.serialize signature })
      → derive_secret kc rand hmac (new_dumb_token kc) ≡ ok secret
      → kc.new_master secret (bit_xor 0x80000000 w1) ≡ ok master
      → descend kc master (w0 ∷ w1 ∷ w2 ∷ w3 ∷ w4 ∷ []) 0 ≡ ok key
      → kc.ec_priv_key key ≡ ok private
      → kc.pk_sign private (hashed_twice libs (concat bodies ++ last)) ≡ ok signature
      → (frames : List (List (List ℕ))) × (converse grow unmarshal host
            (record {
              ah = wallet (applet_token kc rand hmac json fatal others apps registered libs) libs c;
              session = none;
            })
            (sign_bytes 0 (wire_bytes p q a h i)
              ∷ (map (sign_bytes 1) bodies ++ (sign_bytes 2 last ∷ [])))
          ≡ returns (
            record {
              ah =
                  wallet
                    (applet_token kc rand hmac json fatal others apps registered libs)
                    libs
                    (record c { current_signature_session = none });
              session = none;
            },
            frames,
          ))
        × AreRead grow host.channel frames (
            (0x90 ∷ 0x00 ∷ [])
            ∷ (replicate (length bodies) (0x90 ∷ 0x00 ∷ [])
                ++ ((kc.serialize signature ++ (0x90 ∷ 0x00 ∷ [])) ∷ [])))
  host_signs_in_applet grow host c p q a h i w0 w1 w2 w3 w4 last secret bodies master key private
        signature channel fits start words small small_last small_signature is_json asks gives
        derives masters descends has_key signs =
      let (t, takes_path, makes) =
        sign-wire_path kc rand hmac (new_dumb_token kc) w0 w1 w2 w3 w4 secret
          (hashed_twice libs (concat bodies ++ last)) algo_secp256k1 master key private signature
          start words.fit derives masters descends has_key signs in
      host_gets_signature (applet_token kc rand hmac json fatal others apps registered libs) libs
        unmarshal parses grow host c (wire_bytes p q a h i) last bodies (wire_path w0 w1 w2 w3 w4)
        (record { path = wire_path w0 w1 w2 w3 w4 }) (kc.serialize signature) channel fits
        (omega (arith, HasWords-twenty words)) (omega (arith, HasWords-twenty words))
        (HasWords-reads words) small small_last small_signature refl is_json
        (ap
          (answer json (secure_world kc rand hmac json fatal others apps registered) libs.sha256
            apps)
          (tee_sign-dumb_token kc rand hmac json fatal others apps registered libs.sha256
            (record { path = wire_path w0 w1 w2 w3 w4 }) (libs.sha256 (concat bodies ++ last))
            (kc.serialize signature) algo_secp256k1 t asks gives takes_path makes))
