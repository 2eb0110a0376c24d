-- ===== src/Device/Firmware/Wallet/Examples.antt =====
-- The firmware with the Cosmos application at concrete requests.
use wall_era.Device.Toy.{no_growth, on_channel}
use wall_era.Common.{
  false, ℕ, ◌≡◌, refl, arith, List, [], ◌∷◌, none, some, length, replicate, ◌++◌, ◌<◌,
}
use mathlib.Core.List.{Memᴰ}
use wall_era.Common.Go.{returns, slice}
use wall_era.Usb.Format.{format_response}
use wall_era.Apps.Cosmos.{Cosmos, path_from}
use wall_era.Apps.Cosmos.Signing.{sign_bytes}
use wall_era.Apps.Toy.{toy_unmarshal, toy_libraries, path_bytes, toy_path}
use wall_era.Crypto.{uint32_le, key_from_path, new_derivation_path_from_bytes}
use wall_era.Crypto.DumbToken.{
  DumbToken, new_dumb_token, dumb_token, derive_secret, initialize, sign, public_key,
}
use wall_era.Crypto.Toy.{toy_keychain, toy_random, toy_hmac}
use wall_era.Device.Firmware.{rx_all, converse}
use wall_era.Device.Firmware.Conversation.{AreRead}
use wall_era.Device.Firmware.Wallet.{wallet, host_gets_signature}
use wall_era.Apps.Cosmos.{GetAddressRequest}
use wall_era.Apps.Cosmos.Request.{address_bytes}
use wall_era.Device.Firmware.Conversation.{IsRead}
use wall_era.Device.Firmware.Wallet.Address.{host_gets_address}
use wall_era.Apps.Cosmos.Path.{wire_bytes}
use wall_era.Device.Firmware.Wallet.Software.{host_signs_along_words}
use wall_era.Apps.Cosmos.{Libraries}
use wall_era.Device.Firmware.Wallet.Refusals.{no_json, host_gets_refusal}

abbrev a_wallet : Cosmos (DumbToken toy_keychain)
a_wallet = record { token = new_dumb_token toy_keychain; current_signature_session = none }

abbrev a_key : List ℕ
a_key = 9 ∷ 5 ∷ 0x80000000 ∷ 0x80000076 ∷ 0x8000002C ∷ []

abbrev a_signature : List ℕ
a_signature = a_key ++ (32 ∷ 1 ∷ 2 ∷ 3 ∷ [])

short_body : (body : List ℕ) → Memᴰ body ((1 ∷ 2 ∷ []) ∷ []) → length body < 256
short_body body (Memᴰ.head e) = rw e (omega arith)
short_body body (Memᴰ.tail m) = elim m [ ]

host_gets_signature_example :
    (frames : List (List (List ℕ))) × (converse no_growth toy_unmarshal on_channel
        (record {
          ah = wallet (dumb_token toy_keychain toy_random toy_hmac) toy_libraries a_wallet;
          session = none;
        })
        (sign_bytes 0 path_bytes ∷ sign_bytes 1 (1 ∷ 2 ∷ []) ∷ sign_bytes 2 (3 ∷ []) ∷ [])
      ≡ returns (
        record {
          ah = wallet (dumb_token toy_keychain toy_random toy_hmac) toy_libraries a_wallet;
          session = none;
        },
        frames,
      ))
    × AreRead no_growth 0x101 frames
        ((0x90 ∷ 0x00 ∷ []) ∷ (0x90 ∷ 0x00 ∷ []) ∷ (a_signature ++ (0x90 ∷ 0x00 ∷ [])) ∷ [])
unfolding path_from new_derivation_path_from_bytes uint32_le derive_secret initialize key_from_path
    sign slice
host_gets_signature_example =
    host_gets_signature (dumb_token toy_keychain toy_random toy_hmac) toy_libraries toy_unmarshal
      (λ descr body small. refl) no_growth on_channel a_wallet path_bytes (3 ∷ [])
      ((1 ∷ 2 ∷ []) ∷ []) toy_path (record { priv_key = some a_key }) a_signature (omega arith)
      (omega arith) (omega arith) (omega arith) refl (λ body m. short_body body m) (omega arith)
      (omega arith) refl refl refl

abbrev WalletSends : List (List (List ℕ)) → Type 0
WalletSends frames =
    converse no_growth toy_unmarshal on_channel
      (record {
        ah = wallet (dumb_token toy_keychain toy_random toy_hmac) toy_libraries a_wallet;
        session = none;
      })
      (sign_bytes 0 (
          wire_bytes (44 ∷ 0 ∷ 0 ∷ 128 ∷ []) (118 ∷ 0 ∷ 0 ∷ 128 ∷ []) (0 ∷ 0 ∷ 0 ∷ 128 ∷ [])
            (5 ∷ 0 ∷ 0 ∷ 0 ∷ []) (9 ∷ 0 ∷ 0 ∷ 0 ∷ []))
        ∷ sign_bytes 1 (1 ∷ 2 ∷ [])
        ∷ sign_bytes 2 (3 ∷ [])
        ∷ [])
    ≡ returns (
      record {
        ah = wallet (dumb_token toy_keychain toy_random toy_hmac) toy_libraries a_wallet;
        session = none;
      },
      frames,
    )

host_signs_along_words_example :
    (frames : List (List (List ℕ))) × WalletSends frames
    × AreRead no_growth 0x101 frames
        ((0x90 ∷ 0x00 ∷ []) ∷ (0x90 ∷ 0x00 ∷ []) ∷ (a_signature ++ (0x90 ∷ 0x00 ∷ [])) ∷ [])
unfolding uint32_le derive_secret
host_signs_along_words_example =
    host_signs_along_words toy_keychain toy_random toy_hmac toy_libraries toy_unmarshal
      (λ descr body small. refl) no_growth on_channel a_wallet (44 ∷ 0 ∷ 0 ∷ 128 ∷ [])
      (118 ∷ 0 ∷ 0 ∷ 128 ∷ []) (0 ∷ 0 ∷ 0 ∷ 128 ∷ []) (5 ∷ 0 ∷ 0 ∷ 0 ∷ []) (9 ∷ 0 ∷ 0 ∷ 0 ∷ [])
      0x8000002C 0x80000076 0x80000000 5 9 (3 ∷ []) (replicate 32 7) ((1 ∷ 2 ∷ []) ∷ []) [] a_key
      a_key a_signature (omega arith) (omega arith) refl
      (record {
        four_p = refl;
        four_c = refl;
        four_a = refl;
        four_h = refl;
        four_i = refl;
        word_p = refl;
        word_c = refl;
        word_a = refl;
        word_h = refl;
        word_i = refl;
        fit = (omega arith, omega arith, omega arith);
      })
      short_body (omega arith) (omega arith) refl refl refl refl refl refl

abbrev address_request : GetAddressRequest
address_request = record { p1 = 0; p2 = 0; payload_length = 22; hrp_length = 2 }

-- The stand-ins hash by a byte in front, and make an address of the prefix and the hash.
host_gets_address_example :
    (sent : List (List ℕ)) × (rx_all no_growth toy_unmarshal
        (record {
          ah = wallet (dumb_token toy_keychain toy_random toy_hmac) toy_libraries a_wallet;
          session = none;
        })
        (format_response on_channel (address_bytes address_request (99 ∷ 111 ∷ []) path_bytes))
      ≡ returns (
        record {
          ah = wallet (dumb_token toy_keychain toy_random toy_hmac) toy_libraries a_wallet;
          session = none;
        },
        sent,
      ))
    × IsRead no_growth 0x101 sent ((a_key ++ (99 ∷ 111 ∷ 20 ∷ 32 ∷ a_key)) ++ (0x90 ∷ 0x00 ∷ []))
unfolding path_from new_derivation_path_from_bytes uint32_le derive_secret initialize key_from_path
    public_key slice
host_gets_address_example =
    host_gets_address (dumb_token toy_keychain toy_random toy_hmac) toy_libraries no_growth
      toy_unmarshal on_channel a_wallet address_request (99 ∷ 111 ∷ []) path_bytes a_key
      (99 ∷ 111 ∷ 20 ∷ 32 ∷ a_key) toy_path (record { priv_key = some a_key }) (omega arith)
      (omega arith) refl
      (record {
        parameter = omega arith;
        payload_some = omega arith;
        payload_byte = omega arith;
        hrp_some = omega arith;
        hrp_short = omega arith;
      })
      refl refl refl refl refl refl (omega arith)

-- A check that takes nothing for JSON.
abbrev strict_libraries : Libraries ℕ
strict_libraries = record toy_libraries { json_valid = λ bs. false }

host_gets_refusal_example :
    (frames : List (List (List ℕ))) × (converse no_growth toy_unmarshal on_channel
        (record {
          ah = wallet (dumb_token toy_keychain toy_random toy_hmac) strict_libraries a_wallet;
          session = none;
        })
        (sign_bytes 0 path_bytes ∷ sign_bytes 1 (1 ∷ 2 ∷ []) ∷ sign_bytes 2 (3 ∷ []) ∷ [])
      ≡ returns (
        record {
          ah = wallet (dumb_token toy_keychain toy_random toy_hmac) strict_libraries a_wallet;
          session = none;
        },
        frames,
      ))
    × AreRead no_growth 0x101 frames
        ((0x90 ∷ 0x00 ∷ []) ∷ (0x90 ∷ 0x00 ∷ []) ∷ (0x69 ∷ 0x84 ∷ []) ∷ [])
unfolding path_from new_derivation_path_from_bytes uint32_le derive_secret initialize key_from_path
    slice
host_gets_refusal_example =
    host_gets_refusal (dumb_token toy_keychain toy_random toy_hmac) strict_libraries toy_unmarshal
      (λ descr body small. refl) no_growth on_channel a_wallet path_bytes (3 ∷ [])
      ((1 ∷ 2 ∷ []) ∷ []) toy_path 0x6984 (omega arith) (omega arith) (omega arith) (omega arith)
      refl (λ body m. short_body body m) (omega arith)
      (no_json (record { priv_key = some a_key }) refl refl)
