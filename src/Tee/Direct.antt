-- ===== src/Tee/Direct.antt =====
-- The requests of tee_token.go beside direct calls of the applet's `Dispatch`, and the token of the
-- non-secure world as a token.
use mathlib.Core.Logic.{inl, inr}
use wall_era.Common.{ℕ, ◌≡◌, refl, ap, true, List}
use wall_era.Common.Go.{
  Outcome, returns, panics, ◌>>=◌, Outcome-cases, Result, Result-cases, ok, err,
}
use wall_era.Crypto.{Token}
use wall_era.Tz.{
  Context, no_result, contains, retrieve_mail, write_response, read_response, send_mail, visit_all,
  dispatch_apps_calls,
}
use wall_era.Tee.{Json, Fields, Struct, DispatchError, dispatch}
use wall_era.Tee.Client.{ClientError, client_json, mailbox_error, applet_main, do_request}
use wall_era.Tee.Trip.{idle, run_ta, applet_answers, applet_fails, applets_rest, with_mail}

module _ {T E J : Type 0} (json : Json J) (ops : Token T E) (new_token : T) where
  abbrev Replied : Struct → Type 0
  Replied s = Result (ClientError J) (Fields s)

  abbrev unpacks : (s : Struct) → Result J (Fields s) → Replied s
  unpacks s (ok v) = ok v
  unpacks s (err e) = err (client_json e)

  -- What is left of an outcome of `Dispatch`: any error becomes the one that there is no result.
  abbrev left_of : (s : Struct) → Result (DispatchError E J) (List ℕ) → Replied s
  left_of s (ok resp) = unpacks s (json.unmarshal s resp)
  left_of s (err e) = err (mailbox_error no_result)

  abbrev asked : (s : Struct) → Result J (List ℕ) → Outcome (Replied s)
  asked s (err e) = returns (err (client_json e))
  asked s (ok bs) = do resp ← dispatch json ops bs new_token; returns (left_of s resp)

  -- A request without mailboxes: it is written and handed to `Dispatch` with a new token. A response
  -- is read; an error of `Dispatch` is replaced by the one that there is no result.
  abbrev pub without_mailboxes : (q s : Struct) → Fields q → Outcome (Replied s)
  without_mailboxes q s req = asked s (json.marshal q req)

  module _ (fatal : Context → Outcome Context) (others : ℕ → Context → Outcome Context)
      (apps : List ℕ) (registered : contains apps 42 ≡ true)
      (quits : fatal (idle apps) ≡ returns (idle apps)) where
    abbrev run : ℕ → Context → Outcome Context
    run = run_ta json ops new_token fatal others apps registered

    abbrev at_rest : {A : Type 0} → Outcome A → Outcome (Context × A)
    at_rest o = do a ← o; returns (idle apps, a)

    applet_panics :
        (bs : List ℕ)
        → dispatch json ops bs new_token ≡ panics
        → dispatch_apps_calls run (with_mail json ops new_token fatal others apps registered bs)
          ≡ panics
    unfolding dispatch_apps_calls visit_all applet_main retrieve_mail write_response
    applet_panics bs fails = rw (registered, fails)

    packed-direct :
        (q s : Struct) (req : Fields q) (bs : List ℕ)
        → json.marshal q req ≡ ok bs
        → do_request json run q s (idle apps) req ≡ at_rest (without_mailboxes q s req)
    unfolding do_request send_mail read_response
    packed-direct q s req bs packs = elim (Outcome-cases (dispatch json ops bs new_token)) [
      | inr fails ↦ rw (packs, applet_panics bs fails, fails) refl
      | inl (err e, runs) ↦
          rw
            (
              packs,
              runs,
              applet_fails json ops new_token fatal others apps registered bs e runs quits,
            )
            (ap (λ (o : Outcome Context). o >>= λ c. returns (c, err (mailbox_error no_result)))
              (applets_rest json ops new_token fatal others apps registered))
      | inl (ok resp, runs) ↦
          rw
            (
              packs,
              runs,
              applet_answers json ops new_token fatal others apps registered bs resp runs,
            )
            (ap (λ (o : Outcome Context). o >>= λ c. returns (c, unpacks s (json.unmarshal s resp)))
              (applets_rest json ops new_token fatal others apps registered))
    ]

    -- A request that is sent while no mail and no result waits, whatever JSON, the token and the kinds
    -- of request and response are, ends as `Dispatch` with a new token decides on the written request:
    -- it panics where `Dispatch` panics, it returns the value that is read from the response of
    -- `Dispatch` or the error of JSON in reading it, and where `Dispatch` returns an error, whichever
    -- that is, it returns only the error that there is no result. A request that JSON does not write
    -- returns the error of JSON. Where it returns, no mail and no result waits again.
    -- The applet has to be registered, and its logger's `Fatalw` to end it without a change of the
    -- mailboxes.
    pub do_request-direct :
        (q s : Struct) (req : Fields q)
        → do_request json run q s (idle apps) req ≡ at_rest (without_mailboxes q s req)
    unfolding do_request
    do_request-direct q s req = elim (Result-cases (json.marshal q req)) [
      | inr (e, fails) ↦ rw fails refl
      | inl (bs, packs) ↦ packed-direct q s req bs packs
    ]
