-- ===== src/Tee/Examples.antt =====
-- The way of a request to the applet, for small stand-ins of JSON and of a token.
use wall_era.Common.{ℕ, ◌≡◌, refl, ap, ◌∙◌, List, [], ◌∷◌, none, some}
use wall_era.Common.Go.{Outcome, returns, panics, ok, err}
use wall_era.Crypto.DumbToken.{
  DumbToken, derive_secret, initialize, sign, public_key, random_bytes, mnemonic, clone,
  supported_sign_algorithms,
}
use wall_era.Crypto.Toy.{toy_keychain, toy_random, toy_hmac}
use wall_era.Crypto.{DerivationPath, Token, zero_path}
use wall_era.Tz.{Context, no_result}
use wall_era.Tee.Client.{TeeToken, mailbox_error, run_applet, do_request}
use wall_era.Tee.{
  a_sign_request, a_sign_response, a_mnemonic_request, a_mnemonic_response, dispatch,
}
use wall_era.Tee.Direct.{do_request-direct}
use wall_era.Tee.CutShort.{cut_short_request_fails}
use wall_era.Tee.OverRpc.{call_error, rpc_json, over_rpc, rpc_do_request, rpc_do_request-IsFaithful}
use wall_era.Tz.Rpc.{zero_mail, Transport, server_error, unexpected_eof}
use wall_era.Tz.Rpc.Calls.{mail_brought, error_brought}
use wall_era.Tee.Trip.{idle}
use wall_era.Tee.Toy.{toy_json, toy_applet_token, short_path}
use wall_era.Tee.Demo.{
  demo_path, words_shown, pubkey_shown, signature_shown, data_shown, algorithms_shown, demo_main,
}
use wall_era.Tee.Demo.Shows.{demo_main-shows}
use wall_era.Tee.SecureToken.{
  SecureToken, secure_algorithms, secure_clone, secure_random_bytes, secure_derive_secret,
  secure_initialize, secure_sign, secure_public_key, secure_mnemonic,
}
use wall_era.Tee.SecureToken.Agreement.{as_dumb, secure_token-dumb_token}
use wall_era.Tee.SecureToken.Refines.{secure_world}

abbrev toy_run : ℕ → Context → Outcome Context
toy_run = run_applet toy_json toy_applet_token zero_path (λ c. returns c) (λ k c. panics)

abbrev tee_token_at : ℕ → TeeToken
tee_token_at p = record { path = short_path p 5 }

abbrev derived_key : List ℕ
derived_key = 0 ∷ 5 ∷ 0x80000000 ∷ 0x80000076 ∷ 0x8000002C ∷ []

abbrev derived_token : DumbToken toy_keychain
derived_token = record { priv_key = some derived_key }

abbrev secure_world_at_rest : ℕ → Context → Outcome Context
secure_world_at_rest =
    secure_world toy_keychain toy_random toy_hmac toy_json (λ c. returns c) (λ k c. panics)
      (42 ∷ []) refl

abbrev applet_token : SecureToken toy_keychain
applet_token = record { secure_key = some (77 ∷ []) }

secure_token-dumb_token_example :
    (secure_random_bytes toy_keychain toy_random toy_hmac applet_token 3
      ≡ random_bytes toy_keychain toy_random toy_hmac (as_dumb applet_token) 3)
    × (secure_derive_secret toy_keychain toy_random toy_hmac applet_token
        ≡ derive_secret toy_keychain toy_random toy_hmac (as_dumb applet_token))
    × (initialize toy_keychain toy_random toy_hmac (as_dumb applet_token) (short_path 44 5) ≡ (
      as_dumb (secure_initialize toy_keychain toy_random toy_hmac applet_token (short_path 44 5)).0,
      (secure_initialize toy_keychain toy_random toy_hmac applet_token (short_path 44 5)).1,
    ))
    × (secure_sign toy_keychain toy_random toy_hmac applet_token (4 ∷ []) 0
        ≡ sign toy_keychain toy_random toy_hmac (as_dumb applet_token) (4 ∷ []) 0)
    × (secure_public_key toy_keychain toy_random toy_hmac applet_token
        ≡ public_key toy_keychain toy_random toy_hmac (as_dumb applet_token))
    × (secure_mnemonic toy_keychain toy_random toy_hmac applet_token
        ≡ mnemonic toy_keychain toy_random toy_hmac (as_dumb applet_token))
    × (as_dumb (secure_clone toy_keychain toy_random toy_hmac applet_token)
        ≡ clone toy_keychain toy_random toy_hmac (as_dumb applet_token))
    × (secure_algorithms toy_keychain toy_random toy_hmac applet_token
        ≡ supported_sign_algorithms toy_keychain toy_random toy_hmac (as_dumb applet_token))
secure_token-dumb_token_example =
    secure_token-dumb_token toy_keychain toy_random toy_hmac applet_token (short_path 44 5) (4 ∷ [])
      3 0

do_request-direct_example :
    do_request toy_json toy_run a_mnemonic_request a_mnemonic_response
      (idle (42 ∷ []))
      (record { id = 3; derivation_path = short_path 13 0 })
    ≡ returns (idle (42 ∷ []), err (mailbox_error no_result))
unfolding dispatch
do_request-direct_example =
    do_request-direct toy_json toy_applet_token zero_path (λ c. returns c) (λ k c. panics) (42 ∷ [])
      refl refl a_mnemonic_request a_mnemonic_response
      (record { id = 3; derivation_path = short_path 13 0 })

-- The request arrives, the applet refuses the path, and the answer of the mailboxes comes back.
abbrev working_calls : Transport ℕ
working_calls = record {
  call_mail = λ m c. mail_brought (m c zero_mail);
  call_plain = λ m c. error_brought (m c);
}

rpc_do_request-IsFaithful_example :
    rpc_do_request toy_json toy_run working_calls a_mnemonic_request a_mnemonic_response
      (idle (42 ∷ []))
      (record { id = 3; derivation_path = short_path 13 0 })
    ≡ returns (idle (42 ∷ []), err (call_error (server_error no_result)))
unfolding dispatch
rpc_do_request-IsFaithful_example =
    rpc_do_request-IsFaithful toy_json toy_run working_calls a_mnemonic_request a_mnemonic_response
      (idle (42 ∷ [])) (record { id = 3; derivation_path = short_path 13 0 })
      (record { brings_mail = λ m c. refl; brings_error = λ m c. refl })
    ∙ ap (over_rpc toy_json toy_run working_calls) (
        do_request-direct toy_json toy_applet_token zero_path (λ c. returns c) (λ k c. panics)
          (42 ∷ []) refl refl a_mnemonic_request a_mnemonic_response
          (record { id = 3; derivation_path = short_path 13 0 }))

-- The applet signs, and nobody gets the signature.
abbrev short_calls : Transport ℕ
short_calls = record {
  call_mail = λ m c. ((m c zero_mail).0, zero_mail, some unexpected_eof);
  call_plain = λ m c. ((m c).0, some unexpected_eof);
}

cut_short_request_fails_example :
    rpc_do_request toy_json toy_run short_calls a_sign_request a_sign_response
      (idle (42 ∷ []))
      (record { id = 1; derivation_path = short_path 44 5; algorithm = 0; data_bytes = 7 ∷ [] })
    ≡ returns (idle (42 ∷ []), err (rpc_json 0))
unfolding dispatch
cut_short_request_fails_example =
    cut_short_request_fails toy_json toy_applet_token zero_path (λ c. returns c) (λ k c. panics)
      (42 ∷ []) refl short_calls (record { loses_mail = λ m c. refl; loses_error = λ m c. refl })
      a_sign_request a_sign_response
      (record { id = 1; derivation_path = short_path 44 5; algorithm = 0; data_bytes = 7 ∷ [] })
      (1 ∷ 44 ∷ 5 ∷ 0 ∷ 7 ∷ []) (ok (1 ∷ 5 ∷ 7 ∷ [])) 0 refl refl refl refl

abbrev demo_hash : List ℕ → List ℕ
demo_hash bs = 32 ∷ []

-- The stand-in for JSON carries purpose and change of a path with the coin type 118.
demo_main-shows_example :
    demo_main toy_json toy_run demo_hash (idle (42 ∷ []))
    ≡ returns (
      idle (42 ∷ []),
      words_shown ((9 ∷ 44 ∷ []) ∷ [])
          ∷ pubkey_shown (0 ∷ 7 ∷ [])
          ∷ signature_shown (0 ∷ 32 ∷ [])
          ∷ data_shown (42 ∷ [])
          ∷ algorithms_shown (0 ∷ [])
          ∷ [],
      none,
    )
demo_main-shows_example =
    demo_main-shows toy_json toy_applet_token zero_path (λ c. returns c) (λ k c. panics) (42 ∷ [])
      refl demo_hash ((9 ∷ 44 ∷ []) ∷ []) (0 ∷ 7 ∷ []) (0 ∷ 32 ∷ []) (42 ∷ []) demo_path
      (record {
        asks_words = record {
          numbered = record { written_as = 3 ∷ 44 ∷ 0 ∷ []; writes = refl; reads = refl };
          reads_number = refl;
        };
        asks_key = record {
          carried = record { written_as = 2 ∷ 44 ∷ 0 ∷ []; writes = refl; reads = refl };
          reads_op = refl;
        };
        asks_signature = record {
          carried = record { written_as = 1 ∷ 44 ∷ 0 ∷ 0 ∷ 32 ∷ []; writes = refl; reads = refl };
          reads_op = refl;
          text = 32 ∷ [];
          reads_text = refl;
          decodes = refl;
        };
        asks_random = record {
          numbered = record { written_as = 0 ∷ 42 ∷ []; writes = refl; reads = refl };
          reads_number = refl;
        };
        asks_algorithms = record {
          numbered = record { written_as = 4 ∷ []; writes = refl; reads = refl };
          reads_number = refl;
        };
        gives_words = record { written_as = 3 ∷ 9 ∷ 44 ∷ []; writes = refl; reads = refl };
        gives_key = record { written_as = 2 ∷ 0 ∷ 7 ∷ []; writes = refl; reads = refl };
        gives_signature = record { written_as = 1 ∷ 0 ∷ 32 ∷ []; writes = refl; reads = refl };
        gives_random = record { written_as = 0 ∷ 42 ∷ []; writes = refl; reads = refl };
        gives_algorithms = record { written_as = 4 ∷ 0 ∷ []; writes = refl; reads = refl };
      })
      refl refl refl refl refl

-- A token that refuses every path.
abbrev refusing_token : Token DerivationPath ℕ
refusing_token = record toy_applet_token { initialize = λ t path. (t, some 5) }
