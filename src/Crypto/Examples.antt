-- ===== src/Crypto/Examples.antt =====
-- The theorems on crypto/ for a small keychain.
use wall_era.Common.{◌≡◌, refl, arith, [], ◌∷◌, some, replicate}
use wall_era.Common.Go.{panics, returns, ok}
use wall_era.Crypto.{DerivationPath, uint32_le, new_derivation_path_from_bytes, key_from_path}
use wall_era.Crypto.{no_child}
use wall_era.Crypto.Toy.{toy_keychain, toy_random, toy_hmac}
use wall_era.Crypto.DumbToken.{DumbToken, derive_secret, initialize, sign, public_key}
use wall_era.Crypto.DumbToken.Keys.{failed_initialize_panics}
use wall_era.Crypto.Derivation.{derive_from_wire}

abbrev a_path : DerivationPath
a_path = record { purpose = 44; coin_type = 118; account = 0; change = 5; address_index = 9 }

derive_from_wire_example :
    (path : DerivationPath) × (new_derivation_path_from_bytes
        (44 ∷ 0 ∷ 0 ∷ 128 ∷ [])
        (118 ∷ 0 ∷ 0 ∷ 128 ∷ [])
        (0 ∷ 0 ∷ 0 ∷ 0 ∷ [])
        (5 ∷ 0 ∷ 0 ∷ 0 ∷ [])
        (9 ∷ 0 ∷ 0 ∷ 0 ∷ [])
      ≡ returns path)
    × (key_from_path toy_keychain [] path ≡ ok (some (9 ∷ 5 ∷ 0 ∷ 0x80000076 ∷ 0x8000002C ∷ [])))
unfolding uint32_le
derive_from_wire_example =
    derive_from_wire toy_keychain [] (44 ∷ 0 ∷ 0 ∷ 128 ∷ []) (118 ∷ 0 ∷ 0 ∷ 128 ∷ [])
      (0 ∷ 0 ∷ 0 ∷ 0 ∷ []) (5 ∷ 0 ∷ 0 ∷ 0 ∷ []) (9 ∷ 0 ∷ 0 ∷ 0 ∷ []) 0x8000002C 0x80000076 0 5 9
      refl refl refl refl refl refl (omega arith, omega arith, omega arith)

abbrev old_token : DumbToken toy_keychain
old_token = record { priv_key = some (77 ∷ []) }

abbrev bad_path : DerivationPath
bad_path = record a_path { change = 13 }

failed_initialize_panics_example :
    (dt : DumbToken toy_keychain) × (initialize toy_keychain toy_random toy_hmac old_token bad_path
      ≡ (dt, some (no_child (44 ∷ 118 ∷ 0 ∷ []))))
    × (sign toy_keychain toy_random toy_hmac dt (1 ∷ []) 0 ≡ panics)
    × (public_key toy_keychain toy_random toy_hmac dt ≡ panics)
unfolding derive_secret
failed_initialize_panics_example =
    failed_initialize_panics toy_keychain toy_random toy_hmac old_token bad_path (replicate 32 7)
      (1 ∷ []) 0 3 [] refl refl refl
