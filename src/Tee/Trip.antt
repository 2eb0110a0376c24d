-- ===== src/Tee/Trip.antt =====
-- The way of a request of tee_token.go through the mailboxes, the applet and back.
use wall_era.Common.{ℕ, ◌≡◌, refl, ap, true, List, [], ◌∷◌, Option, none, some}
use wall_era.Common.Go.{Outcome, returns, ◌>>=◌, ok, err}
use wall_era.Crypto.{Token, algo_secp256k1}
use wall_era.Tz.{
  Context, no_result, contains, retrieve_mail, write_response, read_response, send_mail, visit_all,
  dispatch_apps_calls,
}
use wall_era.Tee.{
  sign_initialized, sign_bytes, Json, Fields, Struct, DispatchError, SignRequest, PublicKeyRequest,
  dispatch, request_sign, request_public_key, a_request, a_sign_request, a_sign_request_internal,
  a_public_key_request, a_sign_response, a_public_key_response, token_failed,
}
use wall_era.Tee.Client.{
  TeeToken, mailbox_error, applet_main, run_applet, do_request, tee_sign, tee_public_key,
}

-- A context in which no mail and no result waits.
abbrev pub idle : List ℕ → Context
idle apps = record { apps = apps; mailbox = []; result_box = [] }

-- JSON writes a value, and reads it back.
pub record Carries {J : Type 0} (json : Json J) (s : Struct) (v : Fields s) : Type 0 where
  pub written_as : List ℕ
  pub writes : json.marshal s v ≡ ok written_as
  pub reads : json.unmarshal s written_as ≡ ok v

-- From a written request its number can be read alone.
pub record CarriesPublicKey {J : Type 0} (json : Json J) (v : PublicKeyRequest) : Type 0 where
  pub carried : Carries json a_public_key_request v
  pub reads_op : json.unmarshal a_request carried.written_as ≡ ok (record { id = v.id })

-- A written request to sign is read with its bytes as a base64 text.
pub record CarriesSign {J : Type 0} (json : Json J) (v : SignRequest) : Type 0 where
  pub carried : Carries json a_sign_request v
  pub reads_op : json.unmarshal a_request carried.written_as ≡ ok (record { id = v.id })
  pub text : List ℕ
  pub reads_text :
      json.unmarshal a_sign_request_internal carried.written_as
      ≡ ok (record {
        data_text = text;
        derivation_path = v.derivation_path;
        algorithm = v.algorithm;
      })
  pub decodes : json.base64_decode text ≡ ok v.data_bytes

-- What `Sign` and `PublicKey` send.
abbrev pub sign_request : (List ℕ → List ℕ) → TeeToken → List ℕ → SignRequest
sign_request sha256 tok bs = record {
  id = request_sign;
  data_bytes = sha256 bs;
  derivation_path = tok.path;
  algorithm = algo_secp256k1;
}

abbrev pub public_key_request : TeeToken → PublicKeyRequest
public_key_request tok = record { id = request_public_key; derivation_path = tok.path }

module _ {T E J : Type 0} (json : Json J) (ops : Token T E) (new_token : T)
    (fatal : Context → Outcome Context) (others : ℕ → Context → Outcome Context) (apps : List ℕ)
    (registered : contains apps 42 ≡ true) where
  abbrev pub run_ta : ℕ → Context → Outcome Context
  run_ta = run_applet json ops new_token fatal others

  abbrev pub with_mail : List ℕ → Context
  with_mail bs = record (idle apps) { mailbox = (42, bs) ∷ [] }

  pub applet_answers :
      (bs resp : List ℕ)
      → dispatch json ops bs new_token ≡ returns (ok resp)
      → dispatch_apps_calls run_ta (with_mail bs)
        ≡ returns (record (idle apps) { result_box = (42, resp) ∷ [] })
  unfolding dispatch_apps_calls visit_all applet_main retrieve_mail write_response
  applet_answers bs resp run = rw (registered, run)

  pub applet_fails :
      (bs : List ℕ) (e : DispatchError E J)
      → dispatch json ops bs new_token ≡ returns (err e)
      → fatal (idle apps) ≡ returns (idle apps)
      → dispatch_apps_calls run_ta (with_mail bs) ≡ returns (idle apps)
  unfolding dispatch_apps_calls visit_all applet_main retrieve_mail write_response
  applet_fails bs e run quits = rw (registered, run, quits)

  pub applets_rest : dispatch_apps_calls run_ta (idle apps) ≡ returns (idle apps)
  unfolding dispatch_apps_calls visit_all
  applets_rest = refl

  pub do_request-answered :
      (q s : Struct) (req : Fields q) (v : Fields s) (bs resp : List ℕ)
      → json.marshal q req ≡ ok bs
      → dispatch json ops bs new_token ≡ returns (ok resp)
      → json.unmarshal s resp ≡ ok v
      → do_request json run_ta q s (idle apps) req ≡ returns (idle apps, ok v)
  unfolding do_request send_mail read_response
  do_request-answered q s req v bs resp packs run unpacks =
      rw (packs, applet_answers bs resp run, unpacks)
        (ap (λ (o : Outcome Context). o >>= λ c. returns (c, ok v)) applets_rest)

  pub do_request-failed :
      (q s : Struct) (req : Fields q) (bs : List ℕ) (e : DispatchError E J)
      → json.marshal q req ≡ ok bs
      → dispatch json ops bs new_token ≡ returns (err e)
      → fatal (idle apps) ≡ returns (idle apps)
      → do_request json run_ta q s (idle apps) req
        ≡ returns (idle apps, err (mailbox_error no_result))
  unfolding do_request send_mail read_response
  do_request-failed q s req bs e packs run quits =
      rw (packs, applet_fails bs e run quits)
        (ap (λ (o : Outcome Context). o >>= λ c. returns (c, err (mailbox_error no_result)))
          applets_rest)

  pub dispatch-sign :
      (req : SignRequest) (signature : List ℕ) (t : T)
      → req.id ≡ request_sign
      → (out : CarriesSign json req)
        (back : Carries json a_sign_response (record { id = request_sign; data_bytes = signature }))
      → ops.initialize (ops.clone new_token) req.derivation_path ≡ (t, none)
      → ops.sign t req.data_bytes req.algorithm ≡ returns (ok signature)
      → dispatch json ops out.carried.written_as new_token ≡ returns (ok back.written_as)
  unfolding dispatch
  dispatch-sign req signature t is_sign out back init sign =
      rw
        (
          out.reads_op,
          is_sign,
          out.reads_text,
          init,
          sign_initialized,
          sign_bytes,
          out.decodes,
          ap (λ (r : T × Option E). r.0) init,
          sign,
          back.writes,
        )
        refl

  pub dispatch-public_key :
      (req : PublicKeyRequest) (key : List ℕ) (t : T)
      → req.id ≡ request_public_key
      → (out : CarriesPublicKey json req)
        (back : Carries json a_public_key_response
          (record { id = request_public_key; data_bytes = key }))
      → ops.initialize (ops.clone new_token) req.derivation_path ≡ (t, none)
      → ops.public_key t ≡ returns (ok key)
      → dispatch json ops out.carried.written_as new_token ≡ returns (ok back.written_as)
  unfolding dispatch
  dispatch-public_key req key t is_public_key out back init public =
      rw (out.reads_op, is_public_key, out.carried.reads, init, public, back.writes) refl

  -- `Sign` of the token of the non-secure world, with no mail waiting and with the applet
  -- registered, gives what a clone of the applet's new token signs after it took the path: the
  -- hash of the data, where the software token signs the data themselves. The mailboxes are empty
  -- again after that. JSON has to carry the request and the response.
  pub tee_sign_lem :
      (sha256 : List ℕ → List ℕ) (tok : TeeToken) (bs signature : List ℕ) (algorithm : ℕ) (t : T)
      → CarriesSign json (sign_request sha256 tok bs)
      → Carries json a_sign_response (record { id = request_sign; data_bytes = signature })
      → ops.initialize (ops.clone new_token) tok.path ≡ (t, none)
      → ops.sign t (sha256 bs) algo_secp256k1 ≡ returns (ok signature)
      → tee_sign json run_ta sha256 tok (idle apps) bs algorithm ≡ returns (idle apps, ok signature)
  unfolding tee_sign
  tee_sign_lem sha256 tok bs signature algorithm t out back init sign =
      rw
        (do_request-answered a_sign_request a_sign_response (sign_request sha256 tok bs)
          (record { id = request_sign; data_bytes = signature }) out.carried.written_as
          back.written_as out.carried.writes
          (dispatch-sign (sign_request sha256 tok bs) signature t refl out back init sign)
          back.reads)
        refl

  -- `PublicKey` of the token of the non-secure world, with no mail waiting and with the applet
  -- registered, gives the public key of a clone of the applet's new token that took the path, and
  -- leaves the mailboxes empty. JSON has to carry the request and the response.
  pub tee_public_key_lem :
      (tok : TeeToken) (key : List ℕ) (t : T)
      → CarriesPublicKey json (public_key_request tok)
      → Carries json a_public_key_response (record { id = request_public_key; data_bytes = key })
      → ops.initialize (ops.clone new_token) tok.path ≡ (t, none)
      → ops.public_key t ≡ returns (ok key)
      → tee_public_key json run_ta tok (idle apps) ≡ returns (idle apps, ok key)
  unfolding tee_public_key
  tee_public_key_lem tok key t out back init public =
      rw
        (do_request-answered a_public_key_request a_public_key_response (public_key_request tok)
          (record { id = request_public_key; data_bytes = key }) out.carried.written_as
          back.written_as out.carried.writes
          (dispatch-public_key (public_key_request tok) key t refl out back init public) back.reads)
        refl

  -- Where the applet's token refuses the path and the applet ends on that without a change of the
  -- mailboxes, `PublicKey` returns the error that there is no result, and no mail is left over.
  pub tee_public_key_fails :
      (tok : TeeToken) (t : T) (e : E)
      → CarriesPublicKey json (public_key_request tok)
      → ops.initialize (ops.clone new_token) tok.path ≡ (t, some e)
      → fatal (idle apps) ≡ returns (idle apps)
      → tee_public_key json run_ta tok (idle apps)
        ≡ returns (idle apps, err (mailbox_error no_result))
  unfolding tee_public_key dispatch
  tee_public_key_fails tok t e out init quits =
      let run : dispatch json ops out.carried.written_as new_token
          ≡ returns (err (token_failed e)) =
        rw (out.reads_op, out.carried.reads, init) refl in
      rw
        (do_request-failed a_public_key_request a_public_key_response (public_key_request tok)
          out.carried.written_as (token_failed e) out.carried.writes run quits)
        refl

  -- Where the applet's token refuses the path, `Sign` returns the error that there is no result,
  -- and no mail is left over; `Initialize` of the token of the non-secure world had not failed.
  pub tee_sign_fails :
      (sha256 : List ℕ → List ℕ) (tok : TeeToken) (bs : List ℕ) (algorithm : ℕ) (t : T) (e : E)
      → CarriesSign json (sign_request sha256 tok bs)
      → ops.initialize (ops.clone new_token) tok.path ≡ (t, some e)
      → fatal (idle apps) ≡ returns (idle apps)
      → tee_sign json run_ta sha256 tok (idle apps) bs algorithm
        ≡ returns (idle apps, err (mailbox_error no_result))
  unfolding tee_sign dispatch
  tee_sign_fails sha256 tok bs algorithm t e out init quits =
      let run : dispatch json ops out.carried.written_as new_token
          ≡ returns (err (token_failed e)) =
        rw (out.reads_op, out.reads_text, init, sign_initialized) refl in
      rw
        (do_request-failed a_sign_request a_sign_response (sign_request sha256 tok bs)
          out.carried.written_as (token_failed e) out.carried.writes run quits)
        refl
