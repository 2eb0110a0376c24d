-- ===== src/Tee/CutShort.antt =====
-- A request of tee_token.go over a transport that ends before every reply, with callRPC of
-- tee/trusted_os/tz/client/client.go.
use wall_era.Common.{ℕ, ◌≡◌, refl, ap, true, List, [], ◌∷◌}
use wall_era.Common.Go.{Outcome, returns, ◌>>=◌, Result, ok, err}
use wall_era.Crypto.{Token}
use wall_era.Tz.{Context, contains, read_response, send_mail}
use wall_era.Tz.Rpc.{zero_mail, Transport, serve_retrieve_result, rpc_retrieve_result}
use wall_era.Tz.Rpc.Calls.{IsCutShort, rpc_send_mail-IsCutShort, rpc_retrieve_result-IsCutShort}
use wall_era.Tee.{Json, Fields, Struct, DispatchError, dispatch}
use wall_era.Tee.Client.{applet_id}
use wall_era.Tee.OverRpc.{rpc_json, rpc_retrieved, rpc_do_request}
use wall_era.Tee.Trip.{idle, run_ta, applet_answers, applet_fails, applets_rest}

module _ {T E J X : Type 0} (json : Json J) (ops : Token T E) (new_token : T)
    (fatal : Context → Outcome Context) (others : ℕ → Context → Outcome Context) (apps : List ℕ)
    (registered : contains apps 42 ≡ true) (t : Transport X) (cut : IsCutShort t) where
  abbrev run : ℕ → Context → Outcome Context
  run = run_ta json ops new_token fatal others apps registered

  reply_unseen :
      (s : Struct) (c : Context) (e : J)
      → json.unmarshal s [] ≡ err e
      → (serve_retrieve_result applet_id c zero_mail).0 ≡ idle apps
      → rpc_retrieved json run t s (rpc_retrieve_result t c applet_id)
        ≡ returns (idle apps, err (rpc_json e))
  reply_unseen s c e empty taken =
      rw (rpc_retrieve_result-IsCutShort t c applet_id cut, taken, empty)
        (ap (λ (o : Outcome Context). o >>= λ c'. returns (c', err (rpc_json e)))
          (applets_rest json ops new_token fatal others apps registered))

  -- Where every call of a request ends before its reply, the request fails with the error of JSON
  -- for an empty text, whatever the applet answered or refused: the answer is lost, and no mail and
  -- no result waits after it. The request is sent while none waits, the applet has to be registered
  -- and to return, its logger's `Fatalw` to end it without a change of the mailboxes, the request
  -- to be written, and an empty text not to be JSON.
  pub cut_short_request_fails :
      (q s : Struct) (req : Fields q) (bs : List ℕ) (answer : Result (DispatchError E J) (List ℕ))
      (e : J)
      → fatal (idle apps) ≡ returns (idle apps)
      → json.marshal q req ≡ ok bs
      → dispatch json ops bs new_token ≡ returns answer
      → json.unmarshal s [] ≡ err e
      → rpc_do_request json run t q s (idle apps) req ≡ returns (idle apps, err (rpc_json e))
  unfolding rpc_do_request read_response send_mail
  cut_short_request_fails q s req bs (ok resp) e quits packs answers empty =
      rw
        (
          packs,
          rpc_send_mail-IsCutShort t (idle apps) (record { app_id = applet_id; payload = bs }) cut,
          applet_answers json ops new_token fatal others apps registered bs resp answers,
        )
        (reply_unseen s (record (idle apps) { result_box = (42, resp) ∷ [] }) e empty refl)
  cut_short_request_fails q s req bs (err d) e quits packs answers empty =
      rw
        (
          packs,
          rpc_send_mail-IsCutShort t (idle apps) (record { app_id = applet_id; payload = bs }) cut,
          applet_fails json ops new_token fatal others apps registered bs d answers quits,
        )
        (reply_unseen s (idle apps) e empty refl)
