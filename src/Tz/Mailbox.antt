-- ===== src/Tz/Mailbox.antt =====
-- What the mailboxes of tee/trusted_os/tz/tz.go do with mail and results.
pub mod Stray
use wall_era.Common.{
  ℕ, ◌≡◌, refl, ap, subst, ◌∙◌, arith, false, List, [], ◌∷◌, Option, none, some, ◌==◌,
  if◌then◌else◌, Option-cases, inl, inr, ==_refl,
}
use wall_era.Common.Go.{Outcome, panics, ok, err}
use wall_era.Tz.{
  Mail, Error, no_result, result_box_full, Box, load, delete, store, Context, retrieve_mail,
  taken_mail, write_response, read_response, send_mail, contains, visit_all, dispatch_apps_calls,
}

pub load-delete :
    (box : Box) (k j : ℕ) → load (delete box k) j ≡ (if j == k then none else load box j)
load-delete [] k j = ground arith
load-delete ((i, v) ∷ box) k j = ground (arith, load-delete box k j)

pub load-delete_same : (box : Box) (k : ℕ) → load (delete box k) k ≡ none
load-delete_same box k = load-delete box k k ∙ rw (==_refl k)

load-store_same : (box : Box) (k : ℕ) (v : List ℕ) → load (store box k v) k ≡ some v
load-store_same box k v = rw (==_refl k)

load-delete-store :
    (box : Box) (k j : ℕ) (v : List ℕ)
    → load box k ≡ none
    → load (delete (store box k v) k) j ≡ load box j
load-delete-store box k j v free =
    ground (arith, load-delete (store box k v) k j, load-delete box k j)

abbrev Retrieved : Context → Context → Mail → Type 0
Retrieved c c' mail =
    (c'' : Context) × (retrieve_mail c' mail.app_id ≡ (c'', ok mail))
    × ((j : ℕ) → load c''.mailbox j ≡ load c.mailbox j)
    × (c''.result_box ≡ c.result_box)

retrieve_stored :
    (c : Context) (mail : Mail)
    → load c.mailbox mail.app_id ≡ none
    → Retrieved c (record c { mailbox = store c.mailbox mail.app_id mail.payload }) mail
unfolding retrieve_mail
retrieve_stored c mail free = (
  record c { mailbox = delete (store c.mailbox mail.app_id mail.payload) mail.app_id },
  ap (taken_mail (record c { mailbox = store c.mailbox mail.app_id mail.payload }) mail.app_id)
      (load-store_same c.mailbox mail.app_id mail.payload),
  λ j. load-delete-store c.mailbox mail.app_id j mail.payload free,
  refl,
)

-- Mail that was taken for delivery is what the applet retrieves, once: after that the mailbox of
-- every applet is as it was before, and so are the results.
pub send-retrieve :
    (c c' : Context) (mail : Mail)
    → send_mail c mail ≡ (c', none)
    → (c'' : Context) × (retrieve_mail c' mail.app_id ≡ (c'', ok mail))
      × ((j : ℕ) → load c''.mailbox j ≡ load c.mailbox j)
      × (c''.result_box ≡ c.result_box)
unfolding send_mail
send-retrieve c c' mail sent = elim (Option-cases (load c.mailbox mail.app_id)) [
  | inr (old, full) ↦ cc (rw full at sent)
  | inl free ↦
      subst (λ (t : Context). Retrieved c t mail)
        (ap (λ (r : Context × Option Error). r.0) (rw free at sent)) (retrieve_stored c mail free)
]

-- A second result for an applet whose result was not read yet is refused, and the first one is
-- lost with it: what the non-secure world then reads is that there is no result.
pub full_box_loses_result :
    (c : Context) (result : Mail) (old : List ℕ)
    → load c.result_box result.app_id ≡ some old
    → (c' : Context) × (write_response c result ≡ (c', some result_box_full))
      × (read_response c' result.app_id ≡ (c', err no_result))
unfolding write_response read_response
full_box_loses_result c result old full = (
  record c { result_box = delete c.result_box result.app_id },
  rw full,
  rw (load-delete_same c.result_box result.app_id),
)

-- Mail from the non-secure world for an applet that is not registered is taken for delivery, and
-- the secure world panics when it then runs the applets that have mail.
pub stray_mail_panics :
    (run_ta : ℕ → Context → Outcome Context) (c : Context) (mail : Mail)
    → c.mailbox ≡ []
    → contains c.apps mail.app_id ≡ false
    → (c' : Context) × (send_mail c mail ≡ (c', none)) × (dispatch_apps_calls run_ta c' ≡ panics)
unfolding send_mail dispatch_apps_calls visit_all
stray_mail_panics run_ta c mail empty unknown = (
  record c { mailbox = store c.mailbox mail.app_id mail.payload },
  rw empty,
  rw empty (rw (==_refl mail.app_id, unknown)),
)
