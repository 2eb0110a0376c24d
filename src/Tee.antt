-- ===== src/Tee.antt =====
-- tee/cryptography_applet/token/request.go: the requests to the cryptography applet and their
-- dispatch. The structs that pass through JSON are named by `Struct`.
pub mod Client
pub mod Trip
pub mod Direct
pub mod CutShort
pub mod OverRpc
pub mod Spares
pub mod TeeToken
pub mod SecureToken
pub mod Demo
pub mod Toy
mod Examples
use wall_era.Common.{ℕ, List, Option, none, some, ◌==◌, if◌then◌else◌}
use wall_era.Common.Go.{Outcome, returns, panics, ◌>>=◌, Result, ok, err}
use wall_era.Crypto.{DerivationPath, Token}

abbrev pub request_random_bytes : ℕ
request_random_bytes = 0

abbrev pub request_sign : ℕ
request_sign = 1

abbrev pub request_public_key : ℕ
request_public_key = 2

abbrev pub request_mnemonic : ℕ
request_mnemonic = 3

abbrev pub request_supported_sign_algorithms : ℕ
request_supported_sign_algorithms = 4

pub record Request : Type 0 where
  pub id : ℕ

pub record RandomBytesRequest : Type 0 where
  pub id : ℕ
  pub amount : ℕ  -- uint64

pub record SignRequest : Type 0 where
  pub id : ℕ
  pub data_bytes : List ℕ
  pub derivation_path : DerivationPath
  pub algorithm : ℕ

-- As it is read: the data are a base64 text.
pub record SignRequestInternal : Type 0 where
  pub data_text : List ℕ
  pub derivation_path : DerivationPath
  pub algorithm : ℕ

pub record PublicKeyRequest : Type 0 where
  pub id : ℕ
  pub derivation_path : DerivationPath

pub record MnemonicRequest : Type 0 where
  pub id : ℕ
  pub derivation_path : DerivationPath

pub record SupportedSignAlgorithmsRequest : Type 0 where
  pub id : ℕ

pub record RandomBytesResponse : Type 0 where
  pub id : ℕ
  pub data_bytes : List ℕ

pub record SignResponse : Type 0 where
  pub id : ℕ
  pub data_bytes : List ℕ

pub record PublicKeyResponse : Type 0 where
  pub id : ℕ
  pub data_bytes : List ℕ

pub record MnemonicResponse : Type 0 where
  pub id : ℕ
  pub words : List (List ℕ)

pub record SupportedSignAlgorithmsResponse : Type 0 where
  pub id : ℕ
  pub algorithms : List ℕ

pub data Struct : Type 0 where
  a_request a_random_bytes_request a_sign_request a_sign_request_internal : Struct
  a_public_key_request a_mnemonic_request a_random_bytes_response a_sign_response : Struct
  a_public_key_response a_mnemonic_response a_supported_response a_supported_request : Struct

abbrev pub Fields : Struct → Type 0
Fields a_request = Request
Fields a_random_bytes_request = RandomBytesRequest
Fields a_sign_request = SignRequest
Fields a_sign_request_internal = SignRequestInternal
Fields a_public_key_request = PublicKeyRequest
Fields a_mnemonic_request = MnemonicRequest
Fields a_random_bytes_response = RandomBytesResponse
Fields a_sign_response = SignResponse
Fields a_public_key_response = PublicKeyResponse
Fields a_mnemonic_response = MnemonicResponse
Fields a_supported_response = SupportedSignAlgorithmsResponse
Fields a_supported_request = SupportedSignAlgorithmsRequest

-- What the sources use of encoding/json and encoding/base64, with the errors of both.
pub record Json (J : Type 0) : Type 0 where
  pub marshal : (s : Struct) → Fields s → Result J (List ℕ)
  pub unmarshal : (s : Struct) → List ℕ → Result J (Fields s)
  pub base64_decode : List ℕ → Result J (List ℕ)

pub data DispatchError (E J : Type 0) : Type 0 where
  cannot_read_op : J → DispatchError E J
  json_error : J → DispatchError E J
  token_failed : E → DispatchError E J
  cannot_handle : DispatchError E J

module _ {J : Type 0} (json : Json J) where
  abbrev pub package_request : (s : Struct) → Fields s → Result J (List ℕ)
  package_request s req = json.marshal s req

  abbrev pub unpack_response : (s : Struct) → List ℕ → Result J (Fields s)
  unpack_response s resp = json.unmarshal s resp

  abbrev pub read_request : List ℕ → Result J Request
  read_request bs = json.unmarshal a_request bs

  abbrev op_of : Result J Request → Result J ℕ
  op_of (err e) = err e
  op_of (ok req) = ok req.id

  abbrev pub requested_op : List ℕ → Result J ℕ
  requested_op bs = op_of (json.unmarshal a_request bs)

-- The method `Bytes`, which panics on a text that is not base64.
abbrev pub sign_bytes : {J : Type 0} → Json J → SignRequestInternal → Outcome (List ℕ)
sign_bytes json r = elim (json.base64_decode r.data_text) [ ok bs ↦ returns bs | err e ↦ panics ]

module _ {T E J : Type 0} (json : Json J) (ops : Token T E) where
  abbrev Dispatched : Type 0
  Dispatched = Result (DispatchError E J) (List ℕ)

  abbrev lift : Result J (List ℕ) → Dispatched
  lift (ok bs) = ok bs
  lift (err e) = err (json_error e)

  abbrev random_bytes_answer : ℕ → Result E (List ℕ) → Dispatched
  random_bytes_answer req_id (err e) = err (token_failed e)
  random_bytes_answer req_id (ok bs) =
      lift (json.marshal a_random_bytes_response (record { id = req_id; data_bytes = bs }))

  abbrev dispatch_random_bytes : T → ℕ → Result J RandomBytesRequest → Outcome Dispatched
  dispatch_random_bytes t req_id (err e) = returns (err (json_error e))
  dispatch_random_bytes t req_id (ok r) = do
    random ← ops.random_bytes t r.amount
    returns (random_bytes_answer req_id random)

  abbrev sign_answer : ℕ → Result E (List ℕ) → Dispatched
  sign_answer req_id (err e) = err (token_failed e)
  sign_answer req_id (ok bs) =
      lift (json.marshal a_sign_response (record { id = req_id; data_bytes = bs }))

  abbrev pub sign_initialized : ℕ → SignRequestInternal → T × Option E → Outcome Dispatched
  sign_initialized req_id r (t, some e) = returns (err (token_failed e))
  sign_initialized req_id r (t, none) = do
    bs ← sign_bytes json r
    signature ← ops.sign t bs r.algorithm
    returns (sign_answer req_id signature)

  abbrev dispatch_sign : T → ℕ → Result J SignRequestInternal → Outcome Dispatched
  dispatch_sign t req_id (err e) = returns (err (json_error e))
  dispatch_sign t req_id (ok r) =
      sign_initialized req_id r (ops.initialize (ops.clone t) r.derivation_path)

  abbrev public_key_answer : ℕ → Result E (List ℕ) → Dispatched
  public_key_answer req_id (err e) = err (token_failed e)
  public_key_answer req_id (ok bs) =
      lift (json.marshal a_public_key_response (record { id = req_id; data_bytes = bs }))

  abbrev public_key_initialized : ℕ → T × Option E → Outcome Dispatched
  public_key_initialized req_id (t, some e) = returns (err (token_failed e))
  public_key_initialized req_id (t, none) = do
    key ← ops.public_key t
    returns (public_key_answer req_id key)

  abbrev dispatch_public_key : T → ℕ → Result J PublicKeyRequest → Outcome Dispatched
  dispatch_public_key t req_id (err e) = returns (err (json_error e))
  dispatch_public_key t req_id (ok r) =
      public_key_initialized req_id (ops.initialize (ops.clone t) r.derivation_path)

  abbrev mnemonic_answer : ℕ → Result E (List (List ℕ)) → Dispatched
  mnemonic_answer req_id (err e) = err (token_failed e)
  mnemonic_answer req_id (ok words) =
      lift (json.marshal a_mnemonic_response (record { id = req_id; words = words }))

  abbrev mnemonic_initialized : ℕ → T × Option E → Outcome Dispatched
  mnemonic_initialized req_id (t, some e) = returns (err (token_failed e))
  mnemonic_initialized req_id (t, none) = do
    words ← ops.mnemonic t
    returns (mnemonic_answer req_id words)

  abbrev dispatch_mnemonic : T → ℕ → Result J MnemonicRequest → Outcome Dispatched
  dispatch_mnemonic t req_id (err e) = returns (err (json_error e))
  dispatch_mnemonic t req_id (ok r) =
      mnemonic_initialized req_id (ops.initialize (ops.clone t) r.derivation_path)

  abbrev dispatch_op : List ℕ → T → ℕ → Outcome Dispatched
  dispatch_op bs t req_id =
      if req_id == request_random_bytes
      then dispatch_random_bytes t req_id (json.unmarshal a_random_bytes_request bs)
      else if req_id == request_sign
      then dispatch_sign t req_id (json.unmarshal a_sign_request_internal bs)
      else if req_id == request_public_key
      then dispatch_public_key t req_id (json.unmarshal a_public_key_request bs)
      else if req_id == request_mnemonic
      then dispatch_mnemonic t req_id (json.unmarshal a_mnemonic_request bs)
      else if req_id == request_supported_sign_algorithms
      then returns (
          lift (
            json.marshal a_supported_response
              (record { id = req_id; algorithms = ops.supported_sign_algorithms t })))
      else returns (err cannot_handle)

  abbrev dispatch_request : List ℕ → T → Result J ℕ → Outcome Dispatched
  dispatch_request bs t (err e) = returns (err (cannot_read_op e))
  dispatch_request bs t (ok req_id) = dispatch_op bs t req_id

  unfoldable pub dispatch : List ℕ → T → Outcome Dispatched
  dispatch bs t = dispatch_request bs t (requested_op json bs)
