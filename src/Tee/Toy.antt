-- ===== src/Tee/Toy.antt =====
-- Small stand-ins for JSON and for a token, for the tests.
use wall_era.Common.{ℕ, List, [], ◌∷◌, concat, none, some, ◌==◌, if◌then◌else◌}
use wall_era.Common.Go.{returns, Result, ok, err}
use wall_era.Crypto.{DerivationPath, Token, zero_path}
use wall_era.Tee.{
  Json, Fields, Struct, a_request, a_random_bytes_request, a_sign_request, a_sign_request_internal,
  a_public_key_request, a_mnemonic_request, a_supported_request, a_random_bytes_response,
  a_sign_response, a_public_key_response, a_mnemonic_response, a_supported_response,
}

-- JSON that writes the number in front, and for some of the structs their other fields.
abbrev pub write_struct : (s : Struct) → Fields s → Result ℕ (List ℕ)
write_struct a_sign_request v =
    ok (v.id ∷ v.derivation_path.purpose ∷ v.derivation_path.change ∷ v.algorithm ∷ v.data_bytes)
write_struct a_public_key_request v =
    ok (v.id ∷ v.derivation_path.purpose ∷ v.derivation_path.change ∷ [])
write_struct a_sign_response v = ok (v.id ∷ v.data_bytes)
write_struct a_public_key_response v = ok (v.id ∷ v.data_bytes)
write_struct a_mnemonic_request v =
    ok (v.id ∷ v.derivation_path.purpose ∷ v.derivation_path.change ∷ [])
write_struct a_mnemonic_response v = ok (v.id ∷ concat v.words)
write_struct a_random_bytes_request v = ok (v.id ∷ v.amount ∷ [])
write_struct a_random_bytes_response v = ok (v.id ∷ v.data_bytes)
write_struct a_supported_request v = ok (v.id ∷ [])
write_struct a_supported_response v = ok (v.id ∷ v.algorithms)
write_struct _ v = err 0

abbrev pub short_path : ℕ → ℕ → DerivationPath
short_path p h = record zero_path { purpose = p; coin_type = 118; change = h }

abbrev pub read_struct : (s : Struct) → List ℕ → Result ℕ (Fields s)
read_struct a_request (i ∷ rest) = ok (record { id = i })
read_struct a_sign_request (i ∷ p ∷ h ∷ a ∷ bs) =
    ok (record { id = i; data_bytes = bs; derivation_path = short_path p h; algorithm = a })
read_struct a_sign_request_internal (i ∷ p ∷ h ∷ a ∷ bs) =
    ok (record { data_text = bs; derivation_path = short_path p h; algorithm = a })
read_struct a_public_key_request (i ∷ p ∷ h ∷ rest) =
    ok (record { id = i; derivation_path = short_path p h })
read_struct a_sign_response (i ∷ bs) = ok (record { id = i; data_bytes = bs })
read_struct a_public_key_response (i ∷ bs) = ok (record { id = i; data_bytes = bs })
read_struct a_mnemonic_request (i ∷ p ∷ h ∷ rest) =
    ok (record { id = i; derivation_path = short_path p h })
read_struct a_mnemonic_response (i ∷ bs) = ok (record { id = i; words = bs ∷ [] })
read_struct a_random_bytes_request (i ∷ n ∷ rest) = ok (record { id = i; amount = n })
read_struct a_random_bytes_response (i ∷ bs) = ok (record { id = i; data_bytes = bs })
read_struct a_supported_request (i ∷ rest) = ok (record { id = i })
read_struct a_supported_response (i ∷ bs) = ok (record { id = i; algorithms = bs })
read_struct _ _ = err 0

abbrev pub toy_json : Json ℕ
toy_json = record {
  marshal = write_struct;
  unmarshal = read_struct;
  base64_decode = λ text. ok text;
}

-- A token that refuses the purpose 13 and signs with the change in front.
abbrev pub toy_applet_token : Token DerivationPath ℕ
toy_applet_token = record {
  random_bytes = λ t n. returns (ok (n ∷ []));
  derive_secret = λ t. err 2;
  initialize = λ t path. if path.purpose == 13 then (t, some 5) else (path, none);
  sign = λ t bs a. returns (ok (t.change ∷ bs));
  public_key = λ t. returns (ok (t.change ∷ 7 ∷ []));
  mnemonic = λ t. returns (ok ((9 ∷ t.purpose ∷ []) ∷ []));
  clone = λ t. t;
  supported_sign_algorithms = λ t. 0 ∷ [];
}
