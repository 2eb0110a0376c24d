-- ===== src/Tee/Spares.antt =====
-- What the applet leaves of the mail of others.
use wall_era.Common.{
  ℕ, ◌≡◌, ◌≢◌, refl, sym, ap, ◌∙◌, List, ◌==◌, Bool-cases, ==_ne, Option-cases, inl, inr,
}
use wall_era.Common.Go.{Outcome, returns, Outcome-cases, ok, err}
use wall_era.Crypto.{Token}
use wall_era.Tz.{Context, Mail, load, delete, store, retrieve_mail, write_response}
use wall_era.Tz.Mailbox.{load-delete}
use wall_era.Tz.Mailbox.Stray.{Spares}
use wall_era.Tee.{Json, dispatch}
use wall_era.Tee.Client.{applet_main, run_applet, written, serve_mail}

module _ {T E J : Type 0} (json : Json J) (ops : Token T E) (new_token : T)
    (fatal : Context → Outcome Context) (j : ℕ) (other : 42 ≢ j) where
  -- The mail of `j` and the registered applications are the same.
  abbrev Same : Context → Context → Type 0
  Same c c' = (c'.apps ≡ c.apps) × (load c'.mailbox j ≡ load c.mailbox j)

  abbrev taken : Context → Context
  taken c = record c { mailbox = delete c.mailbox 42 }

  taken-Same : (c : Context) → Same c (taken c)
  taken-Same c = (refl, load-delete c.mailbox 42 j ∙ rw (==_ne j 42 (λ e. other (sym e))))

  Same-trans : (a b c : Context) → Same a b → Same b c → Same a c
  Same-trans a b c (e, f) (g, h) = (g ∙ e, h ∙ f)

  written-Same :
      (c c' : Context) (mail : Mail)
      → written json ops new_token fatal (write_response c mail) ≡ returns c'
      → Same c c'
  unfolding write_response
  written-Same c c' mail ran = elim (Option-cases (load c.result_box mail.app_id)) [
    | inr (old, full) ↦ cc (rw full at ran)
    | inl free ↦
        let same : record c { result_box = store c.result_box mail.app_id mail.payload } ≡ c' =
          cc (rw free at ran) in
        (ap (λ (t : Context). t.apps) (sym same), ap (λ (t : Context). load t.mailbox j) (sym same))
  ]

  served-Same :
      (c c' : Context) (bs : List ℕ)
      → ((d d' : Context) → fatal d ≡ returns d' → Same d d')
      → serve_mail json ops new_token fatal (taken c, ok (record { app_id = 42; payload = bs }))
        ≡ returns c'
      → Same c c'
  served-Same c c' bs spares ran = elim (Outcome-cases (dispatch json ops bs new_token)) [
    | inr fails ↦ cc (rw fails at ran)
    | inl (err e, answers) ↦
        Same-trans c (taken c) c' (taken-Same c) (spares (taken c) c' (rw answers at ran))
    | inl (ok resp, answers) ↦
        Same-trans c (taken c) c' (taken-Same c)
          (written-Same (taken c) c' (record { app_id = 42; payload = resp }) (rw answers at ran))
  ]

  applet_main-Same :
      (c c' : Context)
      → ((d d' : Context) → fatal d ≡ returns d' → Same d d')
      → applet_main json ops new_token fatal c ≡ returns c'
      → Same c c'
  unfolding applet_main retrieve_mail
  applet_main-Same c c' spares ran = elim (Option-cases (load c.mailbox 42)) [
    | inl empty ↦ cc (rw empty at ran)
    | inr (bs, has) ↦ served-Same c c' bs spares (rw has at ran)
  ]

  -- The applet leaves the mail of every other application and the registered applications as they
  -- are, if its logger's `Fatalw` does and the other applets do.
  pub run_applet-Spares :
      (others : ℕ → Context → Outcome Context)
      → Spares others j
      → ((d d' : Context) → fatal d ≡ returns d' → Same d d')
      → Spares (run_applet json ops new_token fatal others) j
  run_applet-Spares others spares_others spares k c c' apart ran = elim (Bool-cases (k == 42)) [
    | inl this ↦ applet_main-Same c c' spares (rw this at ran)
    | inr not_this ↦ spares_others k c c' apart (rw not_this at ran)
  ]
