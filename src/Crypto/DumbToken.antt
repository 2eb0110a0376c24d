-- ===== src/Crypto/DumbToken.antt =====
-- crypto/crypto_token.go: the software token. A nil `privKey` is `none`; a method of a nil key
-- panics.
pub mod Keys
use wall_era.Common.{
  ℕ, List, [], ◌∷◌, ◌++◌, Option, none, some, ◌==◌, leb, if◌then◌else◌, replicate,
}
use wall_era.Common.Go.{Outcome, returns, panics, Result, ok, err, copy}
use wall_era.Crypto.{
  Random, DerivationPath, Token, Keychain, TokenError, zero_amount, library, diversifier,
  algo_secp256k1, key_from_path,
}

abbrev pub default_entropy : List ℕ
default_entropy =
    118 ∷ 252 ∷ 209 ∷ 103 ∷ 94 ∷ 240 ∷ 60 ∷ 245 ∷ 18 ∷ 224 ∷ 156 ∷ 240 ∷ 11 ∷ 232 ∷ 52 ∷ 25 ∷ 31
    ∷ 134 ∷ 125 ∷ 135 ∷ 192 ∷ 2 ∷ 31 ∷ 206 ∷ 216 ∷ 100 ∷ 159 ∷ 234 ∷ 150 ∷ 9 ∷ 236 ∷ 57 ∷ []

-- `strings.Split` at a space; the first argument is the word that is being read.
abbrev split_word : List ℕ → List ℕ → List (List ℕ)
split_word word [] = word ∷ []
split_word word (c ∷ text) =
    let rest = split_word [] text in
    let more = split_word (word ++ (c ∷ [])) text in if c == 32 then word ∷ rest else more

unfoldable pub split : List ℕ → List (List ℕ)
split text = split_word [] text

pub record DumbToken (kc : Keychain) : Type 0 where
  pub priv_key : Option kc.Key

abbrev pub new_dumb_token : (kc : Keychain) → DumbToken kc
new_dumb_token kc = record { priv_key = none }

-- `rand` makes and fills a slice, `hmac` is HMAC-SHA256 of a
-- key and a message. Writing to a hash does not fail, and its sum is not nil.
module _ (kc : Keychain) (rand : Random kc.Error) (hmac : List ℕ → List ℕ → List ℕ) where
  open kc use {
    Key, PrivKey, PubKey, Error, new_master, ec_priv_key, pk_sign, serialize, neuter, ec_pub_key,
    serialize_compressed, new_mnemonic,
  }

  abbrev lift : {A : Type 0} → Result Error A → Result (TokenError Error) A
  lift (ok a) = ok a
  lift (err e) = err (library e)

  unfoldable pub random_bytes : DumbToken kc → ℕ → Outcome (Result (TokenError Error) (List ℕ))
  random_bytes dt amount =
      if amount == 0
      then returns (err zero_amount)
      else if leb rand.slice_limit amount
      then panics
      else returns (lift (rand.read amount))

  unfoldable pub derive_secret : DumbToken kc → Result (TokenError Error) (List ℕ)
  derive_secret dt = ok (copy (replicate 32 0) (hmac diversifier default_entropy))

  abbrev pub keep_key :
      Result (TokenError Error) (Option Key) → DumbToken kc × Option (TokenError Error)
  keep_key (ok k) = (record { priv_key = k }, none)
  keep_key (err e) = (record { priv_key = none }, some e)

  abbrev initialize_master :
      DumbToken kc → DerivationPath → Result Error Key → DumbToken kc × Option (TokenError Error)
  initialize_master dt path (err e) = (dt, some (library e))
  initialize_master dt path (ok sb) = keep_key (key_from_path kc sb path)

  abbrev initialize_secret :
      DumbToken kc
      → DerivationPath
      → Result (TokenError Error) (List ℕ)
      → DumbToken kc × Option (TokenError Error)
  initialize_secret dt path (err e) = (dt, some e)
  initialize_secret dt path (ok secret) =
      initialize_master dt path (new_master secret path.coin_type)

  -- The key is replaced by nil where the derivation along the path fails.
  unfoldable pub initialize :
      DumbToken kc → DerivationPath → DumbToken kc × Option (TokenError Error)
  initialize dt path = initialize_secret dt path (derive_secret dt)

  abbrev sign_with : List ℕ → Result Error PrivKey → Result (TokenError Error) (List ℕ)
  sign_with bs (err e) = err (library e)
  sign_with bs (ok pk) =
      lift (elim (pk_sign pk bs) [ ok signature ↦ ok (serialize signature) | err e ↦ err e ])

  abbrev sign_key : Option Key → List ℕ → Outcome (Result (TokenError Error) (List ℕ))
  sign_key none bs = panics
  sign_key (some k) bs = returns (sign_with bs (ec_priv_key k))

  unfoldable pub sign : DumbToken kc → List ℕ → ℕ → Outcome (Result (TokenError Error) (List ℕ))
  sign dt bs algorithm = sign_key dt.priv_key bs

  abbrev serialize_key : Result Error PubKey → Result (TokenError Error) (List ℕ)
  serialize_key (err e) = err (library e)
  serialize_key (ok pp) = ok (serialize_compressed pp)

  abbrev neutered : Result Error Key → Result (TokenError Error) (List ℕ)
  neutered (err e) = err (library e)
  neutered (ok epubk) = serialize_key (ec_pub_key epubk)

  abbrev public_of : Option Key → Outcome (Result (TokenError Error) (List ℕ))
  public_of none = panics
  public_of (some k) = returns (neutered (neuter k))

  unfoldable pub public_key : DumbToken kc → Outcome (Result (TokenError Error) (List ℕ))
  public_key dt = public_of dt.priv_key

  abbrev words : Result Error (List ℕ) → Result (TokenError Error) (List (List ℕ))
  words (err e) = err (library e)
  words (ok text) = ok (split text)

  abbrev mnemonic_secret :
      Result (TokenError Error) (List ℕ) → Result (TokenError Error) (List (List ℕ))
  mnemonic_secret (err e) = err e
  mnemonic_secret (ok secret) = words (new_mnemonic secret)

  unfoldable pub mnemonic : DumbToken kc → Result (TokenError Error) (List (List ℕ))
  mnemonic dt = mnemonic_secret (derive_secret dt)

  abbrev pub supported_sign_algorithms : DumbToken kc → List ℕ
  supported_sign_algorithms dt = algo_secp256k1 ∷ []

  -- A copy of the struct; the key that it points to is never written.
  abbrev pub clone : DumbToken kc → DumbToken kc
  clone dt = record { priv_key = dt.priv_key }

  -- `*dumbToken` implements `Token`.
  abbrev pub dumb_token : Token (DumbToken kc) (TokenError Error)
  dumb_token = record {
    random_bytes = random_bytes;
    derive_secret = derive_secret;
    initialize = initialize;
    sign = sign;
    public_key = public_key;
    mnemonic = λ dt. returns (mnemonic dt);
    clone = clone;
    supported_sign_algorithms = supported_sign_algorithms;
  }
