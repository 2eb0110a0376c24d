-- ===== src/Tz/Rpc.antt =====
-- The calls between the worlds: SecureRPC and NonsecureRPC of tee/trusted_os/tz/tz.go, which
-- answer them, and tee/trusted_os/tz/client/client.go, which makes them.
pub mod Calls
use wall_era.Common.{ℕ, [], Option, none, some}
use wall_era.Common.Go.{Result, ok, err}
use wall_era.Tz.{Context, Error, Mail, retrieve_mail, write_response, read_response, send_mail}

abbrev pub zero_mail : Mail
zero_mail = record { app_id = 0; payload = [] }

abbrev pub copy_from : Mail → Mail → Mail
copy_from m o = record { app_id = o.app_id; payload = o.payload }

-- A method with a result that is returned through a pointer to a mail.
abbrev pub MailMethod : Type 0
MailMethod = Context → Mail → Context × Mail × Option Error

-- A method without a result.
abbrev pub PlainMethod : Type 0
PlainMethod = Context → Context × Option Error

abbrev pub copied : Mail → Context × Result Error Mail → Context × Mail × Option Error
copied out (c, err e) = (c, out, some e)
copied out (c, ok mail) = (c, copy_from out mail, none)

abbrev pub serve_retrieve_mail : ℕ → MailMethod
serve_retrieve_mail app_id c out = copied out (retrieve_mail c app_id)

abbrev pub serve_write_response : Mail → PlainMethod
serve_write_response response c = write_response c response

abbrev pub serve_send_mail : Mail → PlainMethod
serve_send_mail mail c = send_mail c mail

abbrev pub serve_retrieve_result : ℕ → MailMethod
serve_retrieve_result app_id c out = copied out (read_response c app_id)

-- The errors of a call: `io.ErrUnexpectedEOF`, the text of the method's error, and others.
pub data CallError (X : Type 0) : Type 0 where
  unexpected_eof : CallError X
  server_error : Error → CallError X
  other_error : X → CallError X

-- The function `Call` of the packages syscall and nonsecuresyscall, with the method that it
-- reaches: it returns what the reply holds after it.
pub record Transport (X : Type 0) : Type 0 where
  pub call_mail : MailMethod → Context → Context × Mail × Option (CallError X)
  pub call_plain : PlainMethod → Context → Context × Option (CallError X)

module _ {X : Type 0} where
  -- The error of `callRPC`, from that of the call.
  unfoldable pub call_rpc : Option (CallError X) → Option (CallError X)
  call_rpc (some unexpected_eof) = none
  call_rpc e = e

  abbrev replied : Context × Mail × Option (CallError X) → Context × Mail × Option (CallError X)
  replied (c, mail, e) = (c, mail, call_rpc e)

  abbrev plain_replied : Context × Option (CallError X) → Context × Option (CallError X)
  plain_replied (c, e) = (c, call_rpc e)

  -- The mail is returned as it is after the call.
  unfoldable pub rpc_retrieve_mail :
      Transport X → Context → ℕ → Context × Mail × Option (CallError X)
  rpc_retrieve_mail t c app_id = replied (t.call_mail (serve_retrieve_mail app_id) c)

  unfoldable pub rpc_write_response : Transport X → Context → Mail → Context × Option (CallError X)
  rpc_write_response t c mail = plain_replied (t.call_plain (serve_write_response mail) c)

  unfoldable pub rpc_send_mail : Transport X → Context → Mail → Context × Option (CallError X)
  rpc_send_mail t c mail = plain_replied (t.call_plain (serve_send_mail mail) c)

  unfoldable pub rpc_retrieve_result :
      Transport X → Context → ℕ → Context × Mail × Option (CallError X)
  rpc_retrieve_result t c app_id = replied (t.call_mail (serve_retrieve_result app_id) c)
