-- ===== src/Tee/SecureToken/Agreement.antt =====
-- The applet's token beside the software token.
use wall_era.Common.{ℕ, ◌≡◌, refl, arith, List}
use wall_era.Crypto.{Random, DerivationPath, Keychain}
use wall_era.Crypto.DumbToken.{
  DumbToken, supported_sign_algorithms, clone, random_bytes, derive_secret, initialize, sign,
  public_key, mnemonic,
}
use wall_era.Tee.SecureToken.{
  SecureToken, secure_algorithms, secure_clone, secure_random_bytes, secure_derive_secret,
  secure_initialize, secure_sign, secure_public_key, secure_mnemonic,
}

-- The software token with the same key.
abbrev pub as_dumb : {kc : Keychain} → SecureToken kc → DumbToken kc
as_dumb st = record { priv_key = st.secure_key }

module _ (kc : Keychain) (rand : Random kc.Error) (hmac : List ℕ → List ℕ → List ℕ) where
  pub sign-as_dumb :
      (st : SecureToken kc) (bs : List ℕ) (algorithm : ℕ)
      → secure_sign kc rand hmac st bs algorithm ≡ sign kc rand hmac (as_dumb st) bs algorithm
  unfolding secure_sign sign
  sign-as_dumb st bs algorithm = ground arith

  pub public_key-as_dumb :
      (st : SecureToken kc)
      → secure_public_key kc rand hmac st ≡ public_key kc rand hmac (as_dumb st)
  unfolding secure_public_key public_key
  public_key-as_dumb st = ground arith

  pub initialize-as_dumb :
      (st : SecureToken kc) (path : DerivationPath)
      → initialize kc rand hmac (as_dumb st) path ≡ (
        as_dumb (secure_initialize kc rand hmac st path).0,
        (secure_initialize kc rand hmac st path).1,
      )
  unfolding secure_initialize initialize secure_derive_secret derive_secret
  initialize-as_dumb st path = ground arith

  pub mnemonic-as_dumb :
      (st : SecureToken kc) → secure_mnemonic kc rand hmac st ≡ mnemonic kc rand hmac (as_dumb st)
  unfolding secure_mnemonic mnemonic secure_derive_secret derive_secret
  mnemonic-as_dumb st = ground arith

  -- Every method of the applet's token does what the same method of a software token with the same
  -- key does: results, errors, panics, and the key that is left after `Initialize`.
  pub secure_token-dumb_token :
      (st : SecureToken kc) (path : DerivationPath) (bs : List ℕ) (amount algorithm : ℕ)
      → (secure_random_bytes kc rand hmac st amount ≡ random_bytes kc rand hmac (as_dumb st) amount)
        × (secure_derive_secret kc rand hmac st ≡ derive_secret kc rand hmac (as_dumb st))
        × (initialize kc rand hmac (as_dumb st) path ≡ (
          as_dumb (secure_initialize kc rand hmac st path).0,
          (secure_initialize kc rand hmac st path).1,
        ))
        × (secure_sign kc rand hmac st bs algorithm ≡ sign kc rand hmac (as_dumb st) bs algorithm)
        × (secure_public_key kc rand hmac st ≡ public_key kc rand hmac (as_dumb st))
        × (secure_mnemonic kc rand hmac st ≡ mnemonic kc rand hmac (as_dumb st))
        × (as_dumb (secure_clone kc rand hmac st) ≡ clone kc rand hmac (as_dumb st))
        × (secure_algorithms kc rand hmac st ≡ supported_sign_algorithms kc rand hmac (as_dumb st))
  unfolding secure_random_bytes random_bytes secure_derive_secret derive_secret
  secure_token-dumb_token st path bs amount algorithm = (
    ground arith,
    refl,
    initialize-as_dumb st path,
    sign-as_dumb st bs algorithm,
    public_key-as_dumb st,
    mnemonic-as_dumb st,
    refl,
    refl,
  )
