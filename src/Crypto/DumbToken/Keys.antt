-- ===== src/Crypto/DumbToken/Keys.antt =====
-- Which key the software token uses after `Initialize`.
use wall_era.Common.{ℕ, ◌+◌, ◌<◌, ◌^◌, bit_xor, ◌≡◌, refl, ap, ◌∙◌, List, [], ◌∷◌, none, some, take}
use wall_era.Common.Go.{returns, panics, ok, err}
use wall_era.Common.Bytes.{uint32}
use wall_era.Crypto.{Random, DerivationPath, Keychain, no_child, in_order}
use wall_era.Crypto.Derivation.{descend, path_result, key_from_path_lem, wire_path, steps-wire_path}
use wall_era.Crypto.DumbToken.{DumbToken, derive_secret, initialize, keep_key, sign, public_key}

-- The child indices that a path stands for.
abbrev pub steps : (kc : Keychain) → DerivationPath → List ℕ
steps kc path =
    uint32 (path.purpose + kc.hardened_key_start)
    ∷ uint32 (path.coin_type + kc.hardened_key_start)
    ∷ uint32 (path.account + kc.hardened_key_start)
    ∷ path.change
    ∷ path.address_index
    ∷ []

module _ (kc : Keychain) (rand : Random kc.Error) (hmac : List ℕ → List ℕ → List ℕ) where
  initialize_from :
      (dt : DumbToken kc) (path : DerivationPath) (secret : List ℕ) (sb : kc.Key)
      → derive_secret kc rand hmac dt ≡ ok secret
      → kc.new_master secret path.coin_type ≡ ok sb
      → initialize kc rand hmac dt path
        ≡ keep_key kc rand hmac (path_result kc (in_order path) (descend kc sb (steps kc path) 0))
  unfolding initialize
  initialize_from dt path secret sb s m =
      rw (s, m) (ap (keep_key kc rand hmac) (key_from_path_lem kc sb path))

  -- After a successful `Initialize` the token signs with the private key at the end of the path,
  -- whatever key it held before and whatever algorithm is asked for.
  pub sign-initialize :
      (dt : DumbToken kc) (path : DerivationPath) (secret bs : List ℕ) (algorithm : ℕ)
      (sb k : kc.Key) (pk : kc.PrivKey) (signature : kc.Signature)
      → derive_secret kc rand hmac dt ≡ ok secret
      → kc.new_master secret path.coin_type ≡ ok sb
      → descend kc sb (steps kc path) 0 ≡ ok k
      → kc.ec_priv_key k ≡ ok pk
      → kc.pk_sign pk bs ≡ ok signature
      → (dt' : DumbToken kc) × (initialize kc rand hmac dt path ≡ (dt', none))
        × (sign kc rand hmac dt' bs algorithm ≡ returns (ok (kc.serialize signature)))
  unfolding sign
  sign-initialize dt path secret bs algorithm sb k pk signature s m d e p = (
    record { priv_key = some k },
    initialize_from dt path secret sb s m ∙ rw d refl,
    rw (e, p) refl,
  )

  -- A token that took the path of five words signs with the key that these words lead to.
  pub sign-wire_path :
      (dt : DumbToken kc) (w0 w1 w2 w3 w4 : ℕ) (secret bs : List ℕ) (algorithm : ℕ)
      (master key : kc.Key) (private : kc.PrivKey) (signature : kc.Signature)
      → kc.hardened_key_start ≡ 0x80000000
      → (w0 < 2 ^ 32) × (w1 < 2 ^ 32) × (w2 < 2 ^ 32)
      → derive_secret kc rand hmac dt ≡ ok secret
      → kc.new_master secret (bit_xor 0x80000000 w1) ≡ ok master
      → descend kc master (w0 ∷ w1 ∷ w2 ∷ w3 ∷ w4 ∷ []) 0 ≡ ok key
      → kc.ec_priv_key key ≡ ok private
      → kc.pk_sign private bs ≡ ok signature
      → (dt' : DumbToken kc) × (initialize kc rand hmac dt (wire_path w0 w1 w2 w3 w4) ≡ (dt', none))
        × (sign kc rand hmac dt' bs algorithm ≡ returns (ok (kc.serialize signature)))
  sign-wire_path dt w0 w1 w2 w3 w4 secret bs algorithm master key private signature start fit
        derives masters descends has_key signs =
      sign-initialize dt (wire_path w0 w1 w2 w3 w4) secret bs algorithm master key private signature
        derives masters
        (ap (λ (ws : List ℕ). descend kc master ws 0) (steps-wire_path kc w0 w1 w2 w3 w4 start fit)
          ∙ descends)
        has_key signs

  -- Where a step of the path has no child, `Initialize` returns an error that names the components
  -- before it, and the token has lost the key it held: signing with it and asking for its public
  -- key panic.
  pub failed_initialize_panics :
      (dt : DumbToken kc) (path : DerivationPath) (secret bs : List ℕ) (algorithm made : ℕ)
      (sb : kc.Key)
      → derive_secret kc rand hmac dt ≡ ok secret
      → kc.new_master secret path.coin_type ≡ ok sb
      → descend kc sb (steps kc path) 0 ≡ err made
      → (dt' : DumbToken kc) × (initialize kc rand hmac dt path
          ≡ (dt', some (no_child (take made (in_order path)))))
        × (sign kc rand hmac dt' bs algorithm ≡ panics)
        × (public_key kc rand hmac dt' ≡ panics)
  unfolding sign public_key
  failed_initialize_panics dt path secret bs algorithm made sb s m d =
      (record { priv_key = none }, initialize_from dt path secret sb s m ∙ rw d refl, refl, refl)
