-- ===== src/Tee/Demo.antt =====
-- tee/nonsecure_demo_os/main.go: a non-secure world that makes one request of every kind, and logs
-- the answers.
pub mod Shows
use wall_era.Common.{ℕ, List, [], ◌∷◌, Option, none, some, replicate}
use wall_era.Common.Go.{Outcome, returns, panics, ◌>>=◌, Result, ok, err}
use wall_era.Crypto.{DerivationPath, algo_secp256k1}
use wall_era.Tz.{Context}
use wall_era.Tee.{
  Json, Fields, Struct, RandomBytesResponse, SignResponse, PublicKeyResponse, MnemonicResponse,
  SupportedSignAlgorithmsResponse, RandomBytesRequest, SignRequest, PublicKeyRequest,
  MnemonicRequest, SupportedSignAlgorithmsRequest, request_random_bytes, request_sign,
  request_public_key, request_mnemonic, request_supported_sign_algorithms, a_random_bytes_request,
  a_sign_request, a_public_key_request, a_mnemonic_request, a_supported_request,
  a_random_bytes_response, a_sign_response, a_public_key_response, a_mnemonic_response,
  a_supported_response,
}
use wall_era.Tee.Client.{ClientError, ClientResult, packaged, fetched}

abbrev pub demo_path : DerivationPath
demo_path = record { purpose = 44; coin_type = 118; account = 0; change = 0; address_index = 0 }

-- What is logged of an answer.
pub data Shown : Type 0 where
  words_shown : List (List ℕ) → Shown
  pubkey_shown : List ℕ → Shown
  signature_shown : List ℕ → Shown
  data_shown : List ℕ → Shown
  algorithms_shown : List ℕ → Shown

abbrev pub demo_mnemonic_request : MnemonicRequest
demo_mnemonic_request = record { id = request_mnemonic; derivation_path = demo_path }

abbrev pub demo_public_key_request : PublicKeyRequest
demo_public_key_request = record { id = request_public_key; derivation_path = demo_path }

abbrev pub demo_random_bytes_request : RandomBytesRequest
demo_random_bytes_request = record { id = request_random_bytes; amount = 42 }

abbrev pub demo_sign_request : (List ℕ → List ℕ) → SignRequest
demo_sign_request sha256 = record {
  id = request_sign;
  data_bytes = sha256 (replicate 42 42);
  derivation_path = demo_path;
  algorithm = algo_secp256k1;
}

abbrev pub demo_supported_request : SupportedSignAlgorithmsRequest
demo_supported_request = record { id = request_supported_sign_algorithms }

module _ {J : Type 0} (json : Json J) (run_ta : ℕ → Context → Outcome Context) where
  unfoldable pub demo_do_request :
      (q s : Struct) → Context → Fields q → ClientResult json run_ta (Fields s)
  demo_do_request q s c req = packaged json run_ta s c (json.marshal q req)

  abbrev pub Demo : Type 0
  Demo = Context → ClientResult json run_ta Shown

  unfoldable pub demo_mnemonic : Demo
  demo_mnemonic c =
      fetched json run_ta (λ (resp : MnemonicResponse). words_shown resp.words)
        (demo_do_request a_mnemonic_request a_mnemonic_response c demo_mnemonic_request)

  unfoldable pub demo_pubkey : Demo
  demo_pubkey c =
      fetched json run_ta (λ (resp : PublicKeyResponse). pubkey_shown resp.data_bytes)
        (demo_do_request a_public_key_request a_public_key_response c demo_public_key_request)

  unfoldable pub demo_random_bytes : Demo
  demo_random_bytes c =
      fetched json run_ta (λ (resp : RandomBytesResponse). data_shown resp.data_bytes)
        (demo_do_request a_random_bytes_request a_random_bytes_response c demo_random_bytes_request)

  unfoldable pub demo_sign : (List ℕ → List ℕ) → Demo
  demo_sign sha256 c =
      fetched json run_ta (λ (resp : SignResponse). signature_shown resp.data_bytes)
        (demo_do_request a_sign_request a_sign_response c (demo_sign_request sha256))

  unfoldable pub demo_supported_algorithms : Demo
  demo_supported_algorithms c =
      fetched json run_ta
        (λ (resp : SupportedSignAlgorithmsResponse). algorithms_shown resp.algorithms)
        (demo_do_request a_supported_request a_supported_response c demo_supported_request)

  -- The context, what was shown, and the error that broke the loop.
  abbrev pub DemoResult : Type 0
  DemoResult = Outcome (Context × List Shown × Option (ClientError J))

  abbrev pub shown_before : Shown → DemoResult → DemoResult
  shown_before v r = do (c, more, e) ← r; returns (c, v ∷ more, e)

  abbrev pub went_on : (Context → DemoResult) → Context × Result (ClientError J) Shown → DemoResult
  went_on later (c, err e) = returns (c, [], some e)
  went_on later (c, ok v) = shown_before v (later c)

  unfoldable pub demo_loop : List Demo → Context → DemoResult
  demo_loop [] c = returns (c, [], none)
  demo_loop (f ∷ fs) c = do answer ← f c; went_on (demo_loop fs) answer

  unfoldable pub demo_main : (List ℕ → List ℕ) → Context → DemoResult
  demo_main sha256 c =
      demo_loop
        (demo_mnemonic
          ∷ demo_pubkey
          ∷ demo_sign sha256
          ∷ demo_random_bytes
          ∷ demo_supported_algorithms
          ∷ [])
        c
