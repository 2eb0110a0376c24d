-- ===== src/Device/Firmware/Wallet/SecureExamples.antt =====
-- The firmware of the build with the trusted environment at concrete requests.
use wall_era.Device.Toy.{no_growth, on_channel}
use wall_era.Common.{ℕ, ◌≡◌, refl, arith, List, [], ◌∷◌, none, length, replicate, ◌++◌, ◌<◌}
use mathlib.Core.List.{Memᴰ}
use wall_era.Common.Go.{returns, panics, slice}
use wall_era.Apps.Cosmos.{Cosmos, path_from}
use wall_era.Apps.Cosmos.Signing.{sign_bytes}
use wall_era.Apps.Toy.{toy_unmarshal, toy_libraries}
use wall_era.Crypto.{uint32_le, key_from_path, new_derivation_path_from_bytes}
use wall_era.Crypto.DumbToken.{derive_secret, initialize}
use wall_era.Crypto.Toy.{toy_keychain, toy_random, toy_hmac}
use wall_era.Device.Firmware.{converse}
use wall_era.Device.Firmware.Conversation.{AreRead}
use wall_era.Device.Firmware.Wallet.{wallet}
use wall_era.Apps.Cosmos.Path.{wire_bytes}
use wall_era.Device.Firmware.Wallet.Secure.{applet_token, host_signs_in_applet}
use wall_era.Tee.Client.{TeeToken, ClientError}
use wall_era.Tee.TeeToken.{new_tee_token}
use wall_era.Tee.Toy.{toy_json, short_path}
use wall_era.Device.Firmware.Wallet.SecureRefused.{applet_refuses_path}
use wall_era.Crypto.{no_child}
use wall_era.Crypto.{Token}

short_body : (body : List ℕ) → Memᴰ body ((1 ∷ 2 ∷ []) ∷ []) → length body < 256
short_body body (Memᴰ.head e) = rw e (omega arith)
short_body body (Memᴰ.tail m) = elim m [ ]

abbrev a_tee_wallet : Cosmos TeeToken
a_tee_wallet = record { token = new_tee_token; current_signature_session = none }

abbrev toy_applet : Token TeeToken (ClientError ℕ)
toy_applet =
    applet_token toy_keychain toy_random toy_hmac toy_json (λ c. returns c) (λ k c. panics)
      (42 ∷ []) refl toy_libraries

-- The stand-in for JSON carries purpose and change of a path.
abbrev short_words : List ℕ
short_words =
    wire_bytes (44 ∷ 0 ∷ 0 ∷ 128 ∷ []) (118 ∷ 0 ∷ 0 ∷ 128 ∷ []) (0 ∷ 0 ∷ 0 ∷ 128 ∷ [])
      (5 ∷ 0 ∷ 0 ∷ 0 ∷ []) (0 ∷ 0 ∷ 0 ∷ 0 ∷ [])

abbrev applet_signature : List ℕ
applet_signature = 0 ∷ 5 ∷ 0x80000000 ∷ 0x80000076 ∷ 0x8000002C ∷ 32 ∷ 32 ∷ 1 ∷ 2 ∷ 3 ∷ []

abbrev AppletSends : List (List (List ℕ)) → Type 0
AppletSends frames =
    converse no_growth toy_unmarshal on_channel
      (record { ah = wallet toy_applet toy_libraries a_tee_wallet; session = none })
      (sign_bytes 0 short_words ∷ sign_bytes 1 (1 ∷ 2 ∷ []) ∷ sign_bytes 2 (3 ∷ []) ∷ [])
    ≡ returns (record { ah = wallet toy_applet toy_libraries a_tee_wallet; session = none }, frames)

host_signs_in_applet_example :
    (frames : List (List (List ℕ))) × AppletSends frames
    × AreRead no_growth 0x101 frames
        ((0x90 ∷ 0x00 ∷ []) ∷ (0x90 ∷ 0x00 ∷ []) ∷ (applet_signature ++ (0x90 ∷ 0x00 ∷ [])) ∷ [])
unfolding uint32_le derive_secret
host_signs_in_applet_example =
    host_signs_in_applet toy_keychain toy_random toy_hmac toy_json (λ c. returns c) (λ k c. panics)
      (42 ∷ []) refl toy_libraries toy_unmarshal (λ descr body small. refl) no_growth on_channel
      a_tee_wallet (44 ∷ 0 ∷ 0 ∷ 128 ∷ []) (118 ∷ 0 ∷ 0 ∷ 128 ∷ []) (0 ∷ 0 ∷ 0 ∷ 128 ∷ [])
      (5 ∷ 0 ∷ 0 ∷ 0 ∷ []) (0 ∷ 0 ∷ 0 ∷ 0 ∷ []) 0x8000002C 0x80000076 0x80000000 5 0 (3 ∷ [])
      (replicate 32 7) ((1 ∷ 2 ∷ []) ∷ []) [] (0 ∷ 5 ∷ 0x80000000 ∷ 0x80000076 ∷ 0x8000002C ∷ [])
      (0 ∷ 5 ∷ 0x80000000 ∷ 0x80000076 ∷ 0x8000002C ∷ []) applet_signature (omega arith)
      (omega arith) refl
      (record {
        four_p = refl;
        four_c = refl;
        four_a = refl;
        four_h = refl;
        four_i = refl;
        word_p = refl;
        word_c = refl;
        word_a = refl;
        word_h = refl;
        word_i = refl;
        fit = (omega arith, omega arith, omega arith);
      })
      short_body (omega arith) (omega arith) refl
      (record {
        carried = record {
          written_as = 1 ∷ 44 ∷ 5 ∷ 0 ∷ 32 ∷ 32 ∷ 1 ∷ 2 ∷ 3 ∷ [];
          writes = refl;
          reads = refl;
        };
        reads_op = refl;
        text = 32 ∷ 32 ∷ 1 ∷ 2 ∷ 3 ∷ [];
        reads_text = refl;
        decodes = refl;
      })
      (record { written_as = 1 ∷ applet_signature; writes = refl; reads = refl }) refl refl refl
      refl refl

-- The keychain has no child 13.
abbrev refused_words : List ℕ
refused_words =
    wire_bytes (44 ∷ 0 ∷ 0 ∷ 128 ∷ []) (118 ∷ 0 ∷ 0 ∷ 128 ∷ []) (0 ∷ 0 ∷ 0 ∷ 128 ∷ [])
      (13 ∷ 0 ∷ 0 ∷ 0 ∷ []) (0 ∷ 0 ∷ 0 ∷ 0 ∷ [])

applet_refuses_path_example :
    (frames : List (List (List ℕ))) × (converse no_growth toy_unmarshal on_channel
        (record { ah = wallet toy_applet toy_libraries a_tee_wallet; session = none })
        (sign_bytes 0 refused_words ∷ sign_bytes 1 (1 ∷ 2 ∷ []) ∷ sign_bytes 2 (3 ∷ []) ∷ [])
      ≡ returns
          (record { ah = wallet toy_applet toy_libraries a_tee_wallet; session = none }, frames))
    × AreRead no_growth 0x101 frames
        ((0x90 ∷ 0x00 ∷ []) ∷ (0x90 ∷ 0x00 ∷ []) ∷ (0x64 ∷ 0x00 ∷ []) ∷ [])
unfolding path_from new_derivation_path_from_bytes uint32_le derive_secret initialize key_from_path
    slice
applet_refuses_path_example =
    applet_refuses_path toy_keychain toy_random toy_hmac toy_json (λ c. returns c) (λ k c. panics)
      (42 ∷ []) refl toy_libraries toy_unmarshal (λ descr body small. refl) no_growth on_channel
      a_tee_wallet refused_words (3 ∷ []) ((1 ∷ 2 ∷ []) ∷ []) (short_path 44 13)
      (record { priv_key = none }) (no_child (44 ∷ 118 ∷ 0 ∷ [])) (omega arith) (omega arith)
      (omega arith) (omega arith) refl short_body (omega arith) refl
      (record {
        carried = record {
          written_as = 1 ∷ 44 ∷ 13 ∷ 0 ∷ 32 ∷ 32 ∷ 1 ∷ 2 ∷ 3 ∷ [];
          writes = refl;
          reads = refl;
        };
        reads_op = refl;
        text = 32 ∷ 32 ∷ 1 ∷ 2 ∷ 3 ∷ [];
        reads_text = refl;
        decodes = refl;
      })
      refl refl
