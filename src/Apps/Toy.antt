-- ===== src/Apps/Toy.antt =====
-- Small stand-ins for the third-party code that apps/ calls, for the tests.
use wall_era.Common.{ℕ, List, [], ◌∷◌, ◌++◌, Option, none, some, true}
use wall_era.Common.Go.{returns, ok, err}
use wall_era.Crypto.{DerivationPath, Token, zero_path}
use wall_era.Apps.{Capdu, App, Handler, new_handler, register}
use wall_era.Apps.Cosmos.{Cosmos, Libraries, Error, cosmos_app}

-- The first two bytes of a packet.
abbrev pub toy_unmarshal : List ℕ → Option Capdu
toy_unmarshal (c ∷ i ∷ rest) = some (record { cla = c; ins = i })
toy_unmarshal _ = none

-- A token that signs with the account of its path in front of the data.
abbrev pub toy_token : Token DerivationPath ℕ
toy_token = record {
  random_bytes = λ t n. returns (err 1);
  derive_secret = λ t. err 2;
  initialize = λ t path. (path, none);
  sign = λ t bs a. returns (ok (t.change ∷ bs));
  public_key = λ t. returns (ok (t.change ∷ 7 ∷ []));
  mnemonic = λ t. returns (err 3);
  clone = λ t. t;
  supported_sign_algorithms = λ t. 0 ∷ [];
}

abbrev pub toy_libraries : Libraries ℕ
toy_libraries = record {
  sha256 = λ bs. 32 ∷ bs;
  ripemd160 = λ bs. 20 ∷ bs;
  convert_bits = λ bs. ok bs;
  bech32_encode = λ hrp bs. ok (hrp ++ bs);
  json_valid = λ bs. true;
}

abbrev pub toy_cosmos : Cosmos DerivationPath
toy_cosmos = record { token = zero_path; current_signature_session = none }

abbrev pub toy_app : App (Cosmos DerivationPath) (Error ℕ ℕ)
toy_app = cosmos_app toy_token toy_libraries toy_cosmos

abbrev pub toy_handler : Handler (Cosmos DerivationPath) (Error ℕ ℕ)
toy_handler = (register new_handler (toy_app ∷ [])).0

-- Five words that a path is read from.
abbrev pub path_bytes : List ℕ
path_bytes =
    44 ∷ 0 ∷ 0 ∷ 128 ∷ 118 ∷ 0 ∷ 0 ∷ 128 ∷ 0 ∷ 0 ∷ 0 ∷ 128 ∷ 5 ∷ 0 ∷ 0 ∷ 0 ∷ 9 ∷ 0 ∷ 0 ∷ 0 ∷ []

abbrev pub toy_path : DerivationPath
toy_path = record { purpose = 44; coin_type = 118; account = 0; change = 5; address_index = 9 }
