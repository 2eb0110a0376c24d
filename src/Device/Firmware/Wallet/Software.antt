-- ===== src/Device/Firmware/Wallet/Software.antt =====
-- The firmware with the software token: from the words of a path on the wire to a signature.
use mathlib.Core.List.{Memᴰ}
use wall_era.Common.{
  ℕ, ◌^◌, ◌<◌, ◌≡◌, ◌≢◌, refl, ◌∙◌, arith, true, Option, none, some, List, [], ◌∷◌, ◌++◌, length,
  concat, map, replicate, bit_xor,
}
use wall_era.Common.Go.{returns, ok, exact}
use wall_era.Crypto.{Random, Keychain, algo_secp256k1, uint32_le, new_derivation_path_from_bytes}
use wall_era.Crypto.Derivation.{descend, wire_path}
use wall_era.Crypto.DumbToken.{DumbToken, dumb_token, derive_secret, clone}
use wall_era.Crypto.DumbToken.Keys.{sign-wire_path}
use wall_era.Usb.Session.{Session}
use wall_era.Apps.{Capdu}
use wall_era.Apps.Cosmos.{Cosmos, Libraries, path_from}
use wall_era.Apps.Cosmos.Path.{wire_bytes, length-wire_bytes, path_from-wire_bytes}
use wall_era.Apps.Cosmos.Signing.{sign_bytes}
use wall_era.Device.Firmware.{converse}
use wall_era.Device.Firmware.Conversation.{AreRead}
use wall_era.Device.Firmware.Wallet.{wallet, host_gets_signature}

-- Five words in four bytes each, the first three of them below 2 ^ 32.
pub record HasWords (p c a h i : List ℕ) (w0 w1 w2 w3 w4 : ℕ) : Type 0 where
  pub four_p : length p ≡ 4
  pub four_c : length c ≡ 4
  pub four_a : length a ≡ 4
  pub four_h : length h ≡ 4
  pub four_i : length i ≡ 4
  pub word_p : uint32_le p ≡ returns w0
  pub word_c : uint32_le c ≡ returns w1
  pub word_a : uint32_le a ≡ returns w2
  pub word_h : uint32_le h ≡ returns w3
  pub word_i : uint32_le i ≡ returns w4
  pub fit : (w0 < 2 ^ 32) × (w1 < 2 ^ 32) × (w2 < 2 ^ 32)

pub HasWords-twenty :
    {p c a h i : List ℕ} {w0 w1 w2 w3 w4 : ℕ}
    → HasWords p c a h i w0 w1 w2 w3 w4
    → length (wire_bytes p c a h i) ≡ 20
HasWords-twenty {p} {c} {a} {h} {i} words =
    length-wire_bytes p c a h i words.four_p words.four_c words.four_a words.four_h words.four_i

pub HasWords-reads :
    {p c a h i : List ℕ} {w0 w1 w2 w3 w4 : ℕ}
    → HasWords p c a h i w0 w1 w2 w3 w4
    → path_from (exact (wire_bytes p c a h i)) ≡ returns (wire_path w0 w1 w2 w3 w4)
unfolding new_derivation_path_from_bytes
HasWords-reads {p} {c} {a} {h} {i} words =
    path_from-wire_bytes p c a h i words.four_p words.four_c words.four_a words.four_h words.four_i
    ∙ rw (words.word_p, words.word_c, words.word_a, words.word_h, words.word_i) refl

module _ {B : Type 0} (kc : Keychain) (rand : Random kc.Error) (hmac : List ℕ → List ℕ → List ℕ)
    (libs : Libraries B) (unmarshal : List ℕ → Option Capdu)
    (parses : (descr : ℕ) (body : List ℕ)
      → length body < 256
      → unmarshal (sign_bytes descr body) ≡ some (record { cla = 0x55; ins = 0x02 })) where
  -- With the software token, what the host puts together from the answers to an `init` packet with
  -- five words, `add` packets and a `last` packet is 90 00 for each packet, at the last one behind
  -- the signature made with the key that the keychain gives at the end of these very words, from
  -- the master key of the token's secret and of the second word with its top bit flipped. Hardened
  -- indices have to begin at 0x80000000, the keychain to give the keys and the signature, and the
  -- packets to be as for any token.
  pub host_signs_along_words :
      (grow : ℕ → ℕ) (host : Session) (c : Cosmos (DumbToken kc)) (p q a h i : List ℕ)
      (w0 w1 w2 w3 w4 : ℕ) (last secret : List ℕ) (bodies : List (List ℕ)) (master key : kc.Key)
      (private : kc.PrivKey) (signature : kc.Signature)
      → host.channel ≢ 0
      → host.channel < 65536
      → kc.hardened_key_start ≡ 0x80000000
      → HasWords p q a h i w0 w1 w2 w3 w4
      → ((body : List ℕ) → Memᴰ body bodies → length body < 256)
      → length last < 256
      → length (kc.serialize signature) < 65534
      → libs.json_valid (concat bodies ++ last) ≡ true
      → derive_secret kc rand hmac (clone kc rand hmac c.token) ≡ ok secret
      → kc.new_master secret (bit_xor 0x80000000 w1) ≡ ok master
      → descend kc master (w0 ∷ w1 ∷ w2 ∷ w3 ∷ w4 ∷ []) 0 ≡ ok key
      → kc.ec_priv_key key ≡ ok private
      → kc.pk_sign private (libs.sha256 (concat bodies ++ last)) ≡ ok signature
      → (frames : List (List (List ℕ))) × (converse grow unmarshal host
            (record { ah = wallet (dumb_token kc rand hmac) libs c; session = none })
            (sign_bytes 0 (wire_bytes p q a h i)
              ∷ (map (sign_bytes 1) bodies ++ (sign_bytes 2 last ∷ [])))
          ≡ returns (
            record {
              ah =
                  wallet
                    (dumb_token kc rand hmac)
                    libs
                    (record c { current_signature_session = none });
              session = none;
            },
            frames,
          ))
        × AreRead grow host.channel frames (
            (0x90 ∷ 0x00 ∷ [])
            ∷ (replicate (length bodies) (0x90 ∷ 0x00 ∷ [])
                ++ ((kc.serialize signature ++ (0x90 ∷ 0x00 ∷ [])) ∷ [])))
  host_signs_along_words grow host c p q a h i w0 w1 w2 w3 w4 last secret bodies master key private
        signature channel fits start words small small_last small_signature json derives masters
        descends has_key signs =
      let (t, takes_path, gives) =
        sign-wire_path kc rand hmac (clone kc rand hmac c.token) w0 w1 w2 w3 w4 secret
          (libs.sha256 (concat bodies ++ last)) algo_secp256k1 master key private signature start
          words.fit derives masters descends has_key signs in
      host_gets_signature (dumb_token kc rand hmac) libs unmarshal parses grow host c
        (wire_bytes p q a h i) last bodies (wire_path w0 w1 w2 w3 w4) t (kc.serialize signature)
        channel fits (omega (arith, HasWords-twenty words)) (omega (arith, HasWords-twenty words))
        (HasWords-reads words) small small_last small_signature takes_path json gives
