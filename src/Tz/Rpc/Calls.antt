-- ===== src/Tz/Rpc/Calls.antt =====
-- What a call from another world gives, over a transport that works and over one that ends early.
use wall_era.Common.{ℕ, ◌≡◌, refl, ap, ◌∙◌, List, Option, none, some}
use wall_era.Common.Go.{Result, ok, err}
use wall_era.Tz.{
  Context, Error, Mail, load, retrieve_mail, write_response, read_response, send_mail,
}
use wall_era.Tz.Mailbox.{load-delete_same}
use wall_era.Tz.Rpc.{
  zero_mail, copied, MailMethod, PlainMethod, CallError, unexpected_eof, server_error, Transport,
  call_rpc, replied, plain_replied, serve_retrieve_result, rpc_retrieve_mail, rpc_write_response,
  rpc_send_mail, rpc_retrieve_result,
}

module _ {X : Type 0} where
  abbrev pub mail_brought : Context × Mail × Option Error → Context × Mail × Option (CallError X)
  mail_brought (c, out, none) = (c, out, none)
  mail_brought (c, out, some e) = (c, zero_mail, some (server_error e))

  abbrev pub error_brought : Context × Option Error → Context × Option (CallError X)
  error_brought (c, none) = (c, none)
  error_brought (c, some e) = (c, some (server_error e))

  -- The method runs once, and its result or its error is brought back.
  pub record IsFaithful (t : Transport X) : Type 0 where
    pub brings_mail :
        (m : MailMethod) (c : Context) → t.call_mail m c ≡ mail_brought (m c zero_mail)
    pub brings_error : (m : PlainMethod) (c : Context) → t.call_plain m c ≡ error_brought (m c)

  -- The method runs, and the stream ends before its reply is read.
  pub record IsCutShort (t : Transport X) : Type 0 where
    pub loses_mail :
        (m : MailMethod) (c : Context)
        → t.call_mail m c ≡ ((m c zero_mail).0, zero_mail, some unexpected_eof)
    pub loses_error :
        (m : PlainMethod) (c : Context) → t.call_plain m c ≡ ((m c).0, some unexpected_eof)

  -- What a caller in the same world would get, as the value and the error of a call.
  abbrev pub mail_result : Context × Result Error Mail → Context × Mail × Option (CallError X)
  mail_result (c, ok mail) = (c, mail, none)
  mail_result (c, err e) = (c, zero_mail, some (server_error e))

  replied-copied :
      (r : Context × Result Error Mail)
      → replied (mail_brought (copied zero_mail r)) ≡ mail_result r
  unfolding call_rpc
  replied-copied (c, ok mail) = refl
  replied-copied (c, err e) = refl

  plain_replied-error :
      (r : Context × Option Error) → plain_replied (error_brought r) ≡ error_brought r
  unfolding call_rpc
  plain_replied-error (c, none) = refl
  plain_replied-error (c, some e) = refl

  -- Over a transport that brings results and errors back, the four calls of the client do to the
  -- context, return and fail as RetrieveMail, ReadResponse, WriteResponse and SendMail do.
  pub rpc-IsFaithful :
      (t : Transport X) (c : Context) (app_id : ℕ) (mail : Mail)
      → IsFaithful t
      → (rpc_retrieve_mail t c app_id ≡ mail_result (retrieve_mail c app_id))
        × (rpc_retrieve_result t c app_id ≡ mail_result (read_response c app_id))
        × (rpc_write_response t c mail ≡ error_brought (write_response c mail))
        × (rpc_send_mail t c mail ≡ error_brought (send_mail c mail))
  unfolding rpc_retrieve_mail rpc_retrieve_result rpc_write_response rpc_send_mail
  rpc-IsFaithful t c app_id mail works = (
    ap replied (works.brings_mail _ c) ∙ replied-copied (retrieve_mail c app_id),
    ap replied (works.brings_mail _ c) ∙ replied-copied (read_response c app_id),
    ap plain_replied (works.brings_error _ c) ∙ plain_replied-error (write_response c mail),
    ap plain_replied (works.brings_error _ c) ∙ plain_replied-error (send_mail c mail),
  )

  pub rpc_send_mail-IsCutShort :
      (t : Transport X) (c : Context) (mail : Mail)
      → IsCutShort t
      → rpc_send_mail t c mail ≡ ((send_mail c mail).0, none)
  unfolding rpc_send_mail call_rpc
  rpc_send_mail-IsCutShort t c mail cut = ap plain_replied (cut.loses_error _ c)

  pub rpc_retrieve_result-IsCutShort :
      (t : Transport X) (c : Context) (app_id : ℕ)
      → IsCutShort t
      → rpc_retrieve_result t c app_id
        ≡ ((serve_retrieve_result app_id c zero_mail).0, zero_mail, none)
  unfolding rpc_retrieve_result call_rpc
  rpc_retrieve_result-IsCutShort t c app_id cut = ap replied (cut.loses_mail _ c)

  -- Over a transport that ends before the reply, a call for a result that is there returns no error
  -- and an empty mail for application 0, and the result is lost: it is no longer in its box.
  pub cut_short_loses_result :
      (t : Transport X) (c : Context) (app_id : ℕ) (v : List ℕ)
      → IsCutShort t
      → load c.result_box app_id ≡ some v
      → (c' : Context) × (rpc_retrieve_result t c app_id ≡ (c', zero_mail, none))
        × (load c'.result_box app_id ≡ none)
  unfolding read_response
  cut_short_loses_result t c app_id v cut there = (
    (serve_retrieve_result app_id c zero_mail).0,
    rpc_retrieve_result-IsCutShort t c app_id cut,
    rw there (load-delete_same c.result_box app_id),
  )
