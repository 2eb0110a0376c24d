-- ===== src/Crypto/Toy.antt =====
-- Small stand-ins for the keychain, the random source and HMAC.
use wall_era.Common.{ℕ, List, [], ◌∷◌, ◌++◌, ◌==◌, if◌then◌else◌, replicate}
use wall_era.Common.Go.{err, ok}
use wall_era.Crypto.{Keychain, Random}

-- A key is the list of the steps that led to it, and no key has a child 13.
abbrev pub toy_keychain : Keychain
toy_keychain = record {
  Key = List ℕ;
  PrivKey = List ℕ;
  PubKey = List ℕ;
  Signature = List ℕ;
  Error = ℕ;
  hardened_key_start = 0x80000000;
  new_master = λ seed coin. ok [];
  child = λ k i. if i == 13 then err 4 else ok (i ∷ k);
  ec_priv_key = λ k. ok k;
  pk_sign = λ k bs. ok (k ++ bs);
  serialize = λ s. s;
  neuter = λ k. ok k;
  ec_pub_key = λ k. ok k;
  serialize_compressed = λ k. k;
  new_mnemonic = λ bs. ok bs;
}

abbrev pub toy_random : Random ℕ
toy_random = record { slice_limit = 2147483648; read = λ n. err 0 }

abbrev pub toy_hmac : List ℕ → List ℕ → List ℕ
toy_hmac k m = replicate 32 7
