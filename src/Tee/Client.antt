-- ===== src/Tee/Client.antt =====
-- tee/cryptography_applet/main.go and token/client/tee_token.go: the applet that serves one
-- request, and the token that sends requests to it through the mailboxes.
use wall_era.Common.{ℕ, List, [], ◌∷◌, Option, none, some, ◌==◌, if◌then◌else◌, replicate}
use wall_era.Common.Go.{Outcome, returns, panics, ◌>>=◌, Result, ok, err}
use wall_era.Crypto.{DerivationPath, Token, algo_secp256k1}
use wall_era.Tz
use wall_era.Tz.{
  Context, Mail, retrieve_mail, write_response, read_response, send_mail, dispatch_apps_calls,
}
use wall_era.Tee.{
  Json, Fields, Struct, DispatchError, RandomBytesResponse, SignResponse, PublicKeyResponse,
  MnemonicResponse, package_request, unpack_response, dispatch, request_random_bytes, request_sign,
  request_public_key, request_mnemonic, a_random_bytes_request, a_sign_request,
  a_public_key_request, a_mnemonic_request, a_random_bytes_response, a_sign_response,
  a_public_key_response, a_mnemonic_response,
}

abbrev pub applet_id : ℕ
applet_id = 42

-- `new_token` is a new token of the applet, `fatal` what the logger's `Fatalw` does to the applet.
module _ {T E J : Type 0} (json : Json J) (ops : Token T E) (new_token : T)
    (fatal : Context → Outcome Context) where
  abbrev pub written : Context × Option Tz.Error → Outcome Context
  written (c, some e) = panics
  written (c, none) = returns c

  abbrev answer_mail : Context → Mail → Result (DispatchError E J) (List ℕ) → Outcome Context
  answer_mail c mail (err e) = fatal c
  answer_mail c mail (ok resp) = written (write_response c (record mail { payload = resp }))

  abbrev pub serve_mail : Context × Result Tz.Error Mail → Outcome Context
  serve_mail (c, err e) = panics
  serve_mail (c, ok mail) = do
    resp ← dispatch json ops mail.payload new_token
    answer_mail c mail resp

  -- `main` of the applet. A panic of the applet becomes one of the secure world.
  unfoldable pub applet_main : Context → Outcome Context
  applet_main c = serve_mail (retrieve_mail c applet_id)

  -- The applets by their IDs; `others` are those that are not this one.
  abbrev pub run_applet : (ℕ → Context → Outcome Context) → ℕ → Context → Outcome Context
  run_applet others k c = if k == applet_id then applet_main c else others k c

pub record TeeToken : Type 0 where
  pub path : DerivationPath

pub data ClientError (J : Type 0) : Type 0 where
  client_json : J → ClientError J
  mailbox_error : Tz.Error → ClientError J

abbrev pub tee_initialize : TeeToken → DerivationPath → TeeToken
tee_initialize tok path = record { path = path }

abbrev pub tee_derive_secret : TeeToken → List ℕ
tee_derive_secret tok = replicate 32 0

abbrev pub tee_supported_sign_algorithms : TeeToken → List ℕ
tee_supported_sign_algorithms tok = algo_secp256k1 ∷ []

abbrev pub tee_clone : TeeToken → TeeToken
tee_clone tok = record { path = tok.path }

-- A call from the non-secure world is answered from the context, and then the applets that have
-- mail run. Tee/OverRpc has the transport of the calls.
module _ {J : Type 0} (json : Json J) (run_ta : ℕ → Context → Outcome Context) where
  abbrev pub ClientResult : Type 0 → Type 0
  ClientResult A = Outcome (Context × Result (ClientError J) A)

  abbrev pub unpacked : {A : Type 0} → Result J A → Result (ClientError J) A
  unpacked (ok a) = ok a
  unpacked (err e) = err (client_json e)

  abbrev pub read_reply :
      (s : Struct) → Context × Result Tz.Error Mail → Context × Result (ClientError J) (Fields s)
  read_reply s (c, err e) = (c, err (mailbox_error e))
  read_reply s (c, ok res) = (c, unpacked (unpack_response json s res.payload))

  abbrev pub retrieve : (s : Struct) → Context → ClientResult (Fields s)
  retrieve s c =
      let (c', reply) = read_reply s (read_response c applet_id) in
      (do c'' ← dispatch_apps_calls run_ta c'; returns (c'', reply))

  abbrev pub sent : (s : Struct) → Context × Option Tz.Error → ClientResult (Fields s)
  sent s (c, some e) = do c' ← dispatch_apps_calls run_ta c; returns (c', err (mailbox_error e))
  sent s (c, none) = do c' ← dispatch_apps_calls run_ta c; retrieve s c'

  abbrev pub packaged : (s : Struct) → Context → Result J (List ℕ) → ClientResult (Fields s)
  packaged s c (err e) = returns (c, err (client_json e))
  packaged s c (ok bs) = sent s (send_mail c (record { app_id = applet_id; payload = bs }))

  unfoldable pub do_request : (q s : Struct) → Context → Fields q → ClientResult (Fields s)
  do_request q s c req = packaged s c (package_request json q req)

  abbrev pub fetched : {A B : Type 0} → (A → B) → ClientResult A → ClientResult B
  fetched f panics = panics
  fetched f (returns (c, ok a)) = returns (c, ok (f a))
  fetched f (returns (c, err e)) = returns (c, err e)

  unfoldable pub tee_random_bytes : TeeToken → Context → ℕ → ClientResult (List ℕ)
  tee_random_bytes tok c amount =
      fetched (λ (resp : RandomBytesResponse). resp.data_bytes)
        (do_request a_random_bytes_request a_random_bytes_response c
          (record { id = request_random_bytes; amount = amount }))

  -- `sha256` is the library's hash.
  unfoldable pub tee_sign :
      (List ℕ → List ℕ) → TeeToken → Context → List ℕ → ℕ → ClientResult (List ℕ)
  tee_sign sha256 tok c bs algorithm =
      fetched (λ (resp : SignResponse). resp.data_bytes)
        (do_request a_sign_request a_sign_response c (record {
          id = request_sign;
          data_bytes = sha256 bs;
          derivation_path = tok.path;
          algorithm = algo_secp256k1;
        }))

  unfoldable pub tee_public_key : TeeToken → Context → ClientResult (List ℕ)
  tee_public_key tok c =
      fetched (λ (resp : PublicKeyResponse). resp.data_bytes)
        (do_request a_public_key_request a_public_key_response c
          (record { id = request_public_key; derivation_path = tok.path }))

  unfoldable pub tee_mnemonic : TeeToken → Context → ClientResult (List (List ℕ))
  tee_mnemonic tok c =
      fetched (λ (resp : MnemonicResponse). resp.words)
        (do_request a_mnemonic_request a_mnemonic_response c
          (record { id = request_mnemonic; derivation_path = tok.path }))
