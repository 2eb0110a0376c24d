-- ===== src/Tee/OverRpc.antt =====
-- tee/cryptography_applet/token/client/tee_token.go: doRequest with the calls of
-- tee/trusted_os/tz/client/client.go that it makes, over their transport.
use wall_era.Common.{ℕ, ◌≡◌, refl, ap, ◌∙◌, List, Option, none, some}
use wall_era.Common.Go.{Outcome, returns, panics, ◌>>=◌, Result, ok, err}
use wall_era.Tz
use wall_era.Tz.{Context, Mail, send_mail, read_response, dispatch_apps_calls}
use wall_era.Tz.Rpc.{CallError, server_error, Transport, rpc_send_mail, rpc_retrieve_result}
use wall_era.Tz.Rpc.Calls.{IsFaithful, rpc-IsFaithful, error_brought, mail_result}
use wall_era.Tee.{Json, Fields, Struct, package_request, unpack_response}
use wall_era.Tee.Client.{
  ClientError, client_json, mailbox_error, applet_id, do_request, packaged, sent, retrieve,
  read_reply, unpacked,
}

pub data RpcClientError (J X : Type 0) : Type 0 where
  rpc_json : J → RpcClientError J X
  call_error : CallError X → RpcClientError J X

-- A call is answered from the context, and then the applets that have mail run.
module _ {J X : Type 0} (json : Json J) (run_ta : ℕ → Context → Outcome Context)
    (t : Transport X) where
  abbrev pub RpcResult : Type 0 → Type 0
  RpcResult A = Outcome (Context × Result (RpcClientError J X) A)

  abbrev rpc_unpacked : {A : Type 0} → Result J A → Result (RpcClientError J X) A
  rpc_unpacked (ok a) = ok a
  rpc_unpacked (err e) = err (rpc_json e)

  abbrev rpc_reply :
      (s : Struct) → Mail → Option (CallError X) → Result (RpcClientError J X) (Fields s)
  rpc_reply s mail (some e) = err (call_error e)
  rpc_reply s mail none = rpc_unpacked (unpack_response json s mail.payload)

  abbrev pub rpc_retrieved :
      (s : Struct) → Context × Mail × Option (CallError X) → RpcResult (Fields s)
  rpc_retrieved s (c, mail, e) = do
    c' ← dispatch_apps_calls run_ta c
    returns (c', rpc_reply s mail e)

  abbrev rpc_sent : (s : Struct) → Context × Option (CallError X) → RpcResult (Fields s)
  rpc_sent s (c, some e) = do c' ← dispatch_apps_calls run_ta c; returns (c', err (call_error e))
  rpc_sent s (c, none) = do
    c' ← dispatch_apps_calls run_ta c
    rpc_retrieved s (rpc_retrieve_result t c' applet_id)

  abbrev rpc_packaged : (s : Struct) → Context → Result J (List ℕ) → RpcResult (Fields s)
  rpc_packaged s c (err e) = returns (c, err (rpc_json e))
  rpc_packaged s c (ok bs) =
      rpc_sent s (rpc_send_mail t c (record { app_id = applet_id; payload = bs }))

  unfoldable pub rpc_do_request : (q s : Struct) → Context → Fields q → RpcResult (Fields s)
  rpc_do_request q s c req = rpc_packaged s c (package_request json q req)

  -- The outcome of a request whose calls need no transport, as one over a transport.
  abbrev as_called : {A : Type 0} → Result (ClientError J) A → Result (RpcClientError J X) A
  as_called (ok a) = ok a
  as_called (err (client_json e)) = err (rpc_json e)
  as_called (err (mailbox_error e)) = err (call_error (server_error e))

  abbrev pub over_rpc : {A : Type 0} → Outcome (Context × Result (ClientError J) A) → RpcResult A
  over_rpc panics = panics
  over_rpc (returns (c, r)) = returns (c, as_called r)

  over_rpc-dispatched :
      {A : Type 0} (o : Outcome Context) (r : Result (ClientError J) A)
      → (do c ← o; returns (c, as_called r)) ≡ over_rpc (do c ← o; returns (c, r))
  over_rpc-dispatched panics r = refl
  over_rpc-dispatched (returns c) r = refl

  over_rpc-bind :
      {A : Type 0} (o : Outcome Context)
      (f : Context → Outcome (Context × Result (ClientError J) A)) (g : Context → RpcResult A)
      → ((c : Context) → g c ≡ over_rpc (f c))
      → (o >>= g) ≡ over_rpc (o >>= f)
  over_rpc-bind panics f g same = refl
  over_rpc-bind (returns c) f g same = same c

  unpacked-called :
      {A : Type 0} (r : Result J A) → rpc_unpacked r ≡ as_called (unpacked json run_ta r)
  unpacked-called (ok a) = refl
  unpacked-called (err e) = refl

  retrieved-same :
      (s : Struct) (r : Context × Result Tz.Error Mail)
      → rpc_retrieved s (mail_result r)
        ≡ over_rpc (do
          c ← dispatch_apps_calls run_ta (read_reply json run_ta s r).0
          returns (c, (read_reply json run_ta s r).1))
  retrieved-same s (c, err e) =
      over_rpc-dispatched (dispatch_apps_calls run_ta c) (err (mailbox_error e))
  retrieved-same s (c, ok mail) =
      ap (λ r. do c' ← dispatch_apps_calls run_ta c; returns (c', r))
        (unpacked-called (unpack_response json s mail.payload))
      ∙ over_rpc-dispatched (dispatch_apps_calls run_ta c)
          (unpacked json run_ta (unpack_response json s mail.payload))

  retrieve-same :
      (s : Struct) (c : Context)
      → IsFaithful t
      → rpc_retrieved s (rpc_retrieve_result t c applet_id) ≡ over_rpc (retrieve json run_ta s c)
  retrieve-same s c works =
      ap (rpc_retrieved s) (rpc-IsFaithful t c applet_id Tz.Rpc.zero_mail works).1
      ∙ retrieved-same s (read_response c applet_id)

  sent-same :
      (s : Struct) (r : Context × Option Tz.Error)
      → IsFaithful t
      → rpc_sent s (error_brought r) ≡ over_rpc (sent json run_ta s r)
  sent-same s (c, some e) works =
      over_rpc-dispatched (dispatch_apps_calls run_ta c) (err (mailbox_error e))
  sent-same s (c, none) works =
      over_rpc-bind (dispatch_apps_calls run_ta c) (retrieve json run_ta s)
        (λ c'. rpc_retrieved s (rpc_retrieve_result t c' applet_id))
        (λ c'. retrieve-same s c' works)

  packaged-same :
      (s : Struct) (c : Context) (r : Result J (List ℕ))
      → IsFaithful t
      → rpc_packaged s c r ≡ over_rpc (packaged json run_ta s c r)
  packaged-same s c (err e) works = refl
  packaged-same s c (ok bs) works =
      ap (rpc_sent s)
        (rpc-IsFaithful t c applet_id (record { app_id = applet_id; payload = bs }) works).3
      ∙ sent-same s (send_mail c (record { app_id = applet_id; payload = bs })) works

  -- Over a transport that brings results and errors back, a request of the token does to the
  -- context, returns and fails as the request made without a transport does: it panics when that
  -- one does, and an error of the mailboxes comes back as one of the server.
  pub rpc_do_request-IsFaithful :
      (q s : Struct) (c : Context) (req : Fields q)
      → IsFaithful t
      → rpc_do_request q s c req ≡ over_rpc (do_request json run_ta q s c req)
  unfolding rpc_do_request do_request
  rpc_do_request-IsFaithful q s c req works = packaged-same s c (package_request json q req) works
