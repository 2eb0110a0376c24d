-- ===== src/Apps/Cosmos.antt =====
-- apps/cosmos/cosmos.go: the Cosmos application.
pub mod Signing
pub mod State
pub mod Path
pub mod Request
pub mod Address
use wall_era.Common.{
  ℕ, ◌+◌, ◌<◌, Bool, true, false, not, ◌&&◌, ◌||◌, List, [], ◌∷◌, ◌++◌, Option, none, some, ltb,
  ◌==◌, if◌then◌else◌,
}
use wall_era.Common.Go.{
  Outcome, returns, panics, ◌>>=◌, Result, ok, err, Slice, len, index, slice, slice_from,
}
use wall_era.Common.Bytes.{uint8}
use wall_era.Crypto.{
  DerivationPath, Token, algo_secp256k1, zero_path, new_derivation_path_from_bytes,
}
use wall_era.Apps.{
  App, Reply, apdu_execution_error, apdu_ins_not_supported, apdu_success, apdu_wrong_length,
  apdu_data_invalid,
}

abbrev pub app_id : ℕ
app_id = 85

abbrev pub min_data_len : ℕ
min_data_len = 5

abbrev pub cla_get_version : ℕ
cla_get_version = 0x00

abbrev pub cla_sign_secp256k1 : ℕ
cla_sign_secp256k1 = 0x02

abbrev pub cla_get_addr_secp256k1 : ℕ
cla_get_addr_secp256k1 = 0x04

abbrev pub sign_init : ℕ
sign_init = 0

abbrev pub sign_add : ℕ
sign_add = 1

abbrev pub sign_last : ℕ
sign_last = 2

-- The errors of the application, over those of the token and of the bech32 library.
pub data Error (E B : Type 0) : Type 0 where
  data_too_small : Error E B
  command_not_found : Error E B
  wrong_description : ℕ → Error E B
  not_json : Error E B
  token_error : E → Error E B
  short_request : Error E B
  bad_first_parameter : Error E B
  payload_too_long : Error E B
  no_payload : Error E B
  bad_hrp_length : ℕ → Error E B
  bech32_error : B → Error E B

-- What the application calls of SHA-256, RIPEMD-160, bech32 and the JSON syntax check.
pub record Libraries (B : Type 0) : Type 0 where
  pub sha256 : List ℕ → List ℕ
  pub ripemd160 : List ℕ → List ℕ
  -- `ConvertBits(_, 8, 5, true)`
  pub convert_bits : List ℕ → Result B (List ℕ)
  pub bech32_encode : List ℕ → List ℕ → Result B (List ℕ)
  pub json_valid : List ℕ → Bool

pub record SignatureSession : Type 0 where
  pub derivation_path : DerivationPath
  pub payload : List ℕ

pub record Cosmos (T : Type 0) : Type 0 where
  pub token : T
  pub current_signature_session : Option SignatureSession

pub record GetAddressRequest : Type 0 where
  pub p1 : ℕ  -- uint8
  pub p2 : ℕ  -- uint8
  pub payload_length : ℕ  -- uint8
  pub hrp_length : ℕ  -- uint8

abbrev pub commands : List ℕ
commands = cla_get_version ∷ cla_sign_secp256k1 ∷ cla_get_addr_secp256k1 ∷ []

-- `binary.Read` of the request; the blank field is skipped.
abbrev pub decode_request : List ℕ → Option GetAddressRequest
decode_request (c ∷ i ∷ a ∷ b ∷ l ∷ h ∷ rest) =
    some (record { p1 = a; p2 = b; payload_length = l; hrp_length = h })
decode_request _ = none

-- The path in 20 bytes that stand at the front of a slice.
unfoldable pub path_from : Slice → Outcome DerivationPath
path_from base = do
  purpose ← slice base 0 4
  coin_type ← slice base 4 8
  account ← slice base 8 12
  change ← slice base 12 16
  address_index ← slice base 16 20
  new_derivation_path_from_bytes purpose.elems coin_type.elems account.elems change.elems
      address_index.elems

unfoldable pub hrp_from_get_address_request : GetAddressRequest → Slice → Outcome Slice
hrp_from_get_address_request r bs = slice bs 6 (uint8 (6 + r.hrp_length))

unfoldable pub derivation_path_from_get_address_request :
    GetAddressRequest → Slice → Outcome DerivationPath
derivation_path_from_get_address_request r bs = do
  base ← slice bs (uint8 (6 + r.hrp_length)) (uint8 (uint8 (6 + r.hrp_length) + 20))
  path_from base

abbrev pub fresh_session : SignatureSession
fresh_session = record { derivation_path = zero_path; payload = [] }

abbrev pub is_nil : Option SignatureSession → Bool
is_nil none = true
is_nil (some s) = false

-- `signInit` replaces the session by an empty one.
abbrev pub begin_session : ℕ → Option SignatureSession → Option SignatureSession
begin_session descr current = if descr == sign_init then some fresh_session else current

-- The `switch` over the description, on the payload behind the header.
abbrev pub update_session : ℕ → Slice → SignatureSession → Outcome SignatureSession
update_session descr payload s =
    if descr == sign_init
    then (do path ← path_from payload; returns (record s { derivation_path = path }))
    else if descr == sign_add || descr == sign_last
    then returns (record s { payload = s.payload ++ payload.elems })
    else returns s

-- The two tokens of a request, which are objects that `Initialize` writes to: the one of the
-- application, and its clone. The variable `sessionToken` points to one of them.
pub data TokenRef : Type 0 where
  application_token session_token : TokenRef

pub record Tokens (T : Type 0) : Type 0 where
  pub of_application : T
  pub of_session : T

abbrev pub token_at : {T : Type 0} → Tokens T → TokenRef → T
token_at ts application_token = ts.of_application
token_at ts session_token = ts.of_session

abbrev pub put_token : {T : Type 0} → Tokens T → TokenRef → T → Tokens T
put_token ts application_token t = record ts { of_application = t }
put_token ts session_token t = record ts { of_session = t }

module _ {T E B : Type 0} (ops : Token T E) (libs : Libraries B) where
  -- `sessionToken := c.Token.Clone()`
  abbrev pub clone_token : T → Tokens T × TokenRef
  clone_token t = (record { of_application = t; of_session = ops.clone t }, session_token)

  -- `sessionToken.Initialize(path)`, and what the handler does with the token and the error after
  -- it; the application's token is given back with the reply.
  abbrev pub with_session_token :
      Tokens T × TokenRef
      → DerivationPath
      → (T × Option E → Outcome (Reply (Error E B)))
      → Outcome (T × Reply (Error E B))
  with_session_token (ts, p) path use_token =
      let (t, e) = ops.initialize (token_at ts p) path in
      let ts' = put_token ts p t in
      (do answer ← use_token (token_at ts' p, e); returns (ts'.of_application, answer))

  abbrev pub reply : List ℕ → ℕ → Reply (Error E B)
  reply bs code = record { response = bs; code = code; error = none }

  abbrev pub failure : ℕ → Error E B → Reply (Error E B)
  failure code e = record { response = []; code = code; error = some e }

  -- `getVersionResponse.Marshal` of version 2.0.0.
  abbrev pub handle_get_version : Cosmos T → Outcome (Cosmos T × Reply (Error E B))
  handle_get_version c = returns (c, reply (0 ∷ 2 ∷ 0 ∷ 0 ∷ 0 ∷ []) apdu_success)

  abbrev pub signed : Result E (List ℕ) → Reply (Error E B)
  signed (ok signature) = reply signature apdu_success
  signed (err e) = failure apdu_execution_error (token_error e)

  abbrev pub sign_initialized : SignatureSession → T × Option E → Outcome (Reply (Error E B))
  sign_initialized s (t, some e) = returns (failure apdu_execution_error (token_error e))
  sign_initialized s (t, none) =
      if not (libs.json_valid s.payload) then returns (failure apdu_data_invalid not_json) else (do
        signature ← ops.sign t (libs.sha256 s.payload) algo_secp256k1
        returns (signed signature))

  -- What follows `signLast`, with the application's token after it.
  abbrev pub sign_session : T → SignatureSession → Outcome (T × Reply (Error E B))
  sign_session t s = with_session_token (clone_token t) s.derivation_path (sign_initialized s)

  -- The deferred function drops the session however the signature ends.
  abbrev pub conclude : Cosmos T → ℕ → SignatureSession → Outcome (Cosmos T × Reply (Error E B))
  conclude c descr s =
      if not (descr == sign_last)
      then returns (record c { current_signature_session = some s }, reply [] apdu_success)
      else (do
        done ← sign_session c.token s
        returns (record c { token = done.0; current_signature_session = none }, done.1))

  abbrev pub in_session :
      Cosmos T → ℕ → Slice → Option SignatureSession → Outcome (Cosmos T × Reply (Error E B))
  in_session c descr payload none = panics
  in_session c descr payload (some s) = do s' ← update_session descr payload s; conclude c descr s'

  unfoldable pub handle_sign_secp256k1 : Cosmos T → Slice → Outcome (Cosmos T × Reply (Error E B))
  handle_sign_secp256k1 c bs = do
    descr ← index bs 2
    if is_nil c.current_signature_session && not (descr == sign_init)
        then returns (c, failure apdu_execution_error (wrong_description descr))
        else (do
          payload ← slice_from bs 5
          in_session c descr payload (begin_session descr c.current_signature_session))

  abbrev pub validate : GetAddressRequest → Option (Error E B)
  validate g =
      if ltb 1 g.p1
      then some bad_first_parameter
      else if ltb 255 g.payload_length
      then some payload_too_long
      else if g.payload_length == 0
      then some no_payload
      else if ltb g.hrp_length 1 || ltb 83 g.hrp_length
      then some (bad_hrp_length g.hrp_length)
      else none

  abbrev pub encoded : List ℕ → Result B (List ℕ) → Result B (List ℕ)
  encoded hrp (err e) = err e
  encoded hrp (ok converted) = libs.bech32_encode hrp converted

  -- Writing to a RIPEMD-160 hash does not fail.
  abbrev pub address_from_pubkey : List ℕ → List ℕ → Result B (List ℕ)
  address_from_pubkey pubkey hrp =
      encoded hrp (libs.convert_bits (libs.ripemd160 (libs.sha256 pubkey)))

  abbrev pub address_reply : List ℕ → Result B (List ℕ) → Reply (Error E B)
  address_reply pubkey (ok address) = reply (pubkey ++ address) apdu_success
  address_reply pubkey (err e) = failure apdu_execution_error (bech32_error e)

  abbrev pub pubkey_reply : List ℕ → Result E (List ℕ) → Reply (Error E B)
  pubkey_reply hrp (ok pubkey) = address_reply pubkey (address_from_pubkey pubkey hrp)
  pubkey_reply hrp (err e) = failure apdu_execution_error (token_error e)

  abbrev pub address_initialized : List ℕ → T × Option E → Outcome (Reply (Error E B))
  address_initialized hrp (t, some e) = returns (failure apdu_execution_error (token_error e))
  address_initialized hrp (t, none) = do
    pubkey ← ops.public_key t
    returns (pubkey_reply hrp pubkey)

  -- The part of `handleGetAddrSecp256K1` behind the validation, with the application's token after it.
  unfoldable pub valid_request : T → GetAddressRequest → Slice → Outcome (T × Reply (Error E B))
  valid_request t req bs = do
    hrp ← hrp_from_get_address_request req bs
    path ← derivation_path_from_get_address_request req bs
    with_session_token (clone_token t) path (address_initialized hrp.elems)

  abbrev pub validated :
      T → GetAddressRequest → Slice → Option (Error E B) → Outcome (T × Reply (Error E B))
  validated t req bs (some e) = returns (t, failure apdu_execution_error e)
  validated t req bs none = valid_request t req bs

  abbrev pub decoded : T → Slice → Option GetAddressRequest → Outcome (T × Reply (Error E B))
  decoded t bs none = returns (t, failure apdu_execution_error short_request)
  decoded t bs (some req) = validated t req bs (validate req)

  unfoldable pub handle_get_addr_secp256k1 :
      Cosmos T → Slice → Outcome (Cosmos T × Reply (Error E B))
  handle_get_addr_secp256k1 c bs = do
    done ← decoded c.token bs (decode_request bs.elems)
    returns (record c { token = done.0 }, done.1)

  unfoldable pub handle : Cosmos T → ℕ → Slice → Outcome (Cosmos T × Reply (Error E B))
  handle c cmd bs =
      if ltb (len bs) min_data_len
      then returns (c, failure apdu_wrong_length data_too_small)
      else if cmd == cla_get_version
      then handle_get_version c
      else if cmd == cla_sign_secp256k1
      then handle_sign_secp256k1 c bs
      else if cmd == cla_get_addr_secp256k1
      then handle_get_addr_secp256k1 c bs
      else returns (c, failure apdu_ins_not_supported command_not_found)

  -- `*Cosmos` implements `App`.
  abbrev pub cosmos_app : Cosmos T → App (Cosmos T) (Error E B)
  cosmos_app c = record {
    name = "COSMOS";
    id = app_id;
    commands = commands;
    state = c;
    handle = handle;
  }
