-- ===== src/Crypto.antt =====
-- crypto/crypto.go: the `Token` interface, derivation paths, and key derivation along a path.
pub mod Derivation
pub mod DumbToken
mod Examples
pub mod Toy
use mathlib.Core.Option
use wall_era.Common.{
  ℕ, ◌+◌, ◌*◌, List, [], ◌∷◌, Option, none, some, leb, if◌then◌else◌, take, bit_xor,
}
use wall_era.Common.Go.{Outcome, returns, panics, ◌>>=◌, Result, ok, err}
use wall_era.Common.Bytes.{uint32}

abbrev pub algo_secp256k1 : ℕ
algo_secp256k1 = 0

abbrev pub diversifier : List ℕ
diversifier =
    116 ∷ 101 ∷ 110 ∷ 103 ∷ 32 ∷ 101 ∷ 32 ∷ 115 ∷ 111 ∷ 114 ∷ 100 ∷ 10 ∷ 116 ∷ 101 ∷ 110 ∷ 103 ∷ 32
    ∷ 101 ∷ 32 ∷ 115 ∷ 111 ∷ 114 ∷ 100 ∷ 10 ∷ 116 ∷ 101 ∷ 110 ∷ 103 ∷ 32 ∷ 101 ∷ 32 ∷ 115 ∷ 111
    ∷ 114 ∷ 100 ∷ 32 ∷ 111 ∷ 32 ∷ 118 ∷ 101 ∷ 114 ∷ 10 ∷ 102 ∷ 97 ∷ 99 ∷ 105 ∷ 116 ∷ 109 ∷ 32 ∷ 115
    ∷ 116 ∷ 97 ∷ 32 ∷ 113 ∷ 117 ∷ 105 ∷ 101 ∷ 116 ∷ 10 ∷ 109 ∷ 32 ∷ 109 ∷ 97 ∷ 103 ∷ 110 ∷ 32 ∷ 109
    ∷ 105 ∷ 108 ∷ 108 ∷ 39 ∷ 101 ∷ 117 ∷ 114 ∷ 32 ∷ 111 ∷ 32 ∷ 106 ∷ 117 ∷ 111 ∷ 114 ∷ 110 ∷ []

pub record DerivationPath : Type 0 where
  pub purpose : ℕ  -- uint32
  pub coin_type : ℕ  -- uint32
  pub account : ℕ  -- uint32
  pub change : ℕ  -- uint32
  pub address_index : ℕ  -- uint32

-- The path of a zero `DerivationPath{}`.
abbrev pub zero_path : DerivationPath
zero_path = record { purpose = 0; coin_type = 0; account = 0; change = 0; address_index = 0 }

-- The interface `Token`, over the state of the token and the errors of its libraries. A text is
-- the list of its bytes.
pub record Token (T E : Type 0) : Type 0 where
  pub random_bytes : T → ℕ → Outcome (Result E (List ℕ))
  pub derive_secret : T → Result E (List ℕ)
  pub initialize : T → DerivationPath → T × Option E
  pub sign : T → List ℕ → ℕ → Outcome (Result E (List ℕ))
  pub public_key : T → Outcome (Result E (List ℕ))
  pub mnemonic : T → Outcome (Result E (List (List ℕ)))
  pub clone : T → T
  pub supported_sign_algorithms : T → List ℕ

-- `binary.LittleEndian.Uint32`, which panics on fewer than four bytes.
unfoldable pub uint32_le : List ℕ → Outcome ℕ
uint32_le (b0 ∷ b1 ∷ b2 ∷ b3 ∷ rest) = returns (b0 + b1 * 256 + b2 * 65536 + b3 * 16777216)
uint32_le _ = panics

unfoldable pub new_derivation_path_from_bytes :
    List ℕ → List ℕ → List ℕ → List ℕ → List ℕ → Outcome DerivationPath
unfolding uint32_le
new_derivation_path_from_bytes purpose coin_type account change address_index = do
  p ← uint32_le purpose
  c ← uint32_le coin_type
  a ← uint32_le account
  h ← uint32_le change
  i ← uint32_le address_index
  returns (record {
    purpose = bit_xor 0x80000000 p;
    coin_type = bit_xor 0x80000000 c;
    account = bit_xor 0x80000000 a;
    change = h;
    address_index = i;
  })

abbrev pub in_order : DerivationPath → List ℕ
in_order d = d.purpose ∷ d.coin_type ∷ d.account ∷ d.change ∷ d.address_index ∷ []

-- What `make` and `rand.Read` do with a number of bytes: from the limit on, which depends on the
-- platform, a slice cannot be made, and below it the slice is filled or the reading fails.
pub record Random (E : Type 0) : Type 0 where
  pub slice_limit : ℕ
  pub read : ℕ → Result E (List ℕ)

-- What the sources use of hdkeychain, btcec and bip39, with the errors of all of these.
pub record Keychain : Type 1 where
  pub Key : Type 0
  pub PrivKey : Type 0
  pub PubKey : Type 0
  pub Signature : Type 0
  pub Error : Type 0
  pub hardened_key_start : ℕ
  -- `NewMaster` of a seed, for the coin type in the parameters.
  pub new_master : List ℕ → ℕ → Result Error Key
  pub child : Key → ℕ → Result Error Key
  pub ec_priv_key : Key → Result Error PrivKey
  pub pk_sign : PrivKey → List ℕ → Result Error Signature
  pub serialize : Signature → List ℕ
  pub neuter : Key → Result Error Key
  pub ec_pub_key : Key → Result Error PubKey
  pub serialize_compressed : PubKey → List ℕ
  pub new_mnemonic : List ℕ → Result Error (List ℕ)

-- The errors that a token returns.
pub data TokenError (E : Type 0) : Type 0 where
  zero_amount : TokenError E
  library : E → TokenError E
  -- "cannot generate child key for path", with the components before the failing one
  no_child : List ℕ → TokenError E

module _ (kc : Keychain) where
  open kc use {Key, hardened_key_start, child}

  abbrev parent : Key → Option Key → Key
  parent private_key none = private_key
  parent private_key (some k) = k

  -- `component` at position `idx` as it is handed to `Child`.
  abbrev hardened : ℕ → ℕ → ℕ
  hardened idx component = if leb idx 2 then uint32 (component + hardened_key_start) else component

  -- The loop of `KeyFromPath` from position `idx` on; `done` are the components before it.
  pub key_loop : Key → List ℕ → Option Key → ℕ → List ℕ → Result (TokenError kc.Error) (Option Key)
  key_loop private_key components current idx [] = ok current
  key_loop private_key components current idx (component ∷ rest) =
      elim (child (parent private_key current) (hardened idx component)) [
        | ok k ↦ key_loop private_key components (some k) (idx + 1) rest
        | err e ↦ err (no_child (take idx components))
      ]

  unfoldable pub key_from_path : Key → DerivationPath → Result (TokenError kc.Error) (Option Key)
  unfolding key_loop
  key_from_path private_key path = key_loop private_key (in_order path) none 0 (in_order path)
