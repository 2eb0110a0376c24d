-- ===== src/Tee/SecureToken.antt =====
-- tee/cryptography_applet/token/token.go: the token of the applet. The file repeats
-- crypto/crypto_token.go; it is translated on its own, with chains of results.
pub mod Agreement
pub mod Refines
use wall_era.Common.{ℕ, List, [], ◌∷◌, Option, none, some, ◌==◌, leb, if◌then◌else◌, replicate}
use wall_era.Common.Go.{Outcome, returns, panics, Result, ok, err, copy}
use wall_era.Common.Results.{◌>>=◌, wrap_err}
use wall_era.Crypto.{
  Random, DerivationPath, Token, Keychain, TokenError, zero_amount, library, diversifier,
  algo_secp256k1, key_from_path,
}
use wall_era.Crypto.DumbToken.{split}

abbrev pub secure_entropy : List ℕ
secure_entropy =
    118 ∷ 252 ∷ 209 ∷ 103 ∷ 94 ∷ 240 ∷ 60 ∷ 245 ∷ 18 ∷ 224 ∷ 156 ∷ 240 ∷ 11 ∷ 232 ∷ 52 ∷ 25 ∷ 31
    ∷ 134 ∷ 125 ∷ 135 ∷ 192 ∷ 2 ∷ 31 ∷ 206 ∷ 216 ∷ 100 ∷ 159 ∷ 234 ∷ 150 ∷ 9 ∷ 236 ∷ 57 ∷ []

pub record SecureToken (kc : Keychain) : Type 0 where
  pub secure_key : Option kc.Key

abbrev pub new_secure_token : (kc : Keychain) → SecureToken kc
new_secure_token kc = record { secure_key = none }

-- `rand` and `hmac` are as for the software token. A method of a nil key panics.
module _ (kc : Keychain) (rand : Random kc.Error) (hmac : List ℕ → List ℕ → List ℕ) where
  abbrev Fallible : Type 0 → Type 0
  Fallible A = Result (TokenError kc.Error) A

  abbrev called : {A : Type 0} → Result kc.Error A → Fallible A
  called = wrap_err library

  unfoldable pub secure_random_bytes : SecureToken kc → ℕ → Outcome (Fallible (List ℕ))
  secure_random_bytes st amount =
      if amount == 0
      then returns (err zero_amount)
      else if leb rand.slice_limit amount
      then panics
      else returns (called (rand.read amount))

  unfoldable pub secure_derive_secret : SecureToken kc → Fallible (List ℕ)
  secure_derive_secret st = do
    let res = hmac diversifier secure_entropy
    ok (copy (replicate 32 0) res)

  abbrev master_of : SecureToken kc → DerivationPath → Fallible kc.Key
  master_of st path = do
    secret ← secure_derive_secret st
    called (kc.new_master secret path.coin_type)

  abbrev store_key : Fallible (Option kc.Key) → SecureToken kc × Option (TokenError kc.Error)
  store_key (ok k) = (record { secure_key = k }, none)
  store_key (err e) = (record { secure_key = none }, some e)

  -- Only the last of the three calls assigns to the token, also where it fails.
  unfoldable pub secure_initialize :
      SecureToken kc → DerivationPath → SecureToken kc × Option (TokenError kc.Error)
  secure_initialize st path = elim (master_of st path) [
    | ok sb ↦ store_key (key_from_path kc sb path)
    | err e ↦ (st, some e)
  ]

  abbrev with_key : {A : Type 0} → SecureToken kc → (kc.Key → Fallible A) → Outcome (Fallible A)
  with_key st f = elim st.secure_key [ none ↦ panics | some k ↦ returns (f k) ]

  unfoldable pub secure_sign : SecureToken kc → List ℕ → ℕ → Outcome (Fallible (List ℕ))
  secure_sign st bs algorithm = with_key st λ k. do
    pk ← called (kc.ec_priv_key k)
    signature ← called (kc.pk_sign pk bs)
    ok (kc.serialize signature)

  unfoldable pub secure_public_key : SecureToken kc → Outcome (Fallible (List ℕ))
  secure_public_key st = with_key st λ k. do
    epubk ← called (kc.neuter k)
    pp ← called (kc.ec_pub_key epubk)
    ok (kc.serialize_compressed pp)

  unfoldable pub secure_mnemonic : SecureToken kc → Fallible (List (List ℕ))
  secure_mnemonic st = do
    secret ← secure_derive_secret st
    mnemonic ← called (kc.new_mnemonic secret)
    ok (split mnemonic)

  abbrev pub secure_algorithms : SecureToken kc → List ℕ
  secure_algorithms st = algo_secp256k1 ∷ []

  abbrev pub secure_clone : SecureToken kc → SecureToken kc
  secure_clone st = record { secure_key = st.secure_key }

  -- `*Token` implements `crypto.Token`.
  abbrev pub secure_token : Token (SecureToken kc) (TokenError kc.Error)
  secure_token = record {
    random_bytes = secure_random_bytes;
    derive_secret = secure_derive_secret;
    initialize = secure_initialize;
    sign = secure_sign;
    public_key = secure_public_key;
    mnemonic = λ st. returns (secure_mnemonic st);
    clone = secure_clone;
    supported_sign_algorithms = secure_algorithms;
  }
