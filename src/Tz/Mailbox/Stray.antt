-- ===== src/Tz/Mailbox/Stray.antt =====
-- Mail for an applet that does not exist, among other mail. `Range` of a `sync.Map` visits the keys
-- in an order of its own.
use mathlib.Core.List.{Memᴰ}
use wall_era.Common.{
  ℕ, ◌≡◌, ◌≢◌, refl, sym, ap, ◌∙◌, false, List, [], ◌∷◌, none, some, ◌==◌, if◌then◌else◌,
  Bool-cases, inl, inr, ==_refl, ==_iff,
}
use wall_era.Common.Go.{Outcome, returns, panics, Outcome-cases}
use wall_era.Tz.{
  Mail, load, store, Context, send_mail, contains, is_some, visit, visit_all, dispatch_apps_calls,
}

-- A run of another applet leaves this mail, and the applications that are registered.
abbrev pub Spares : (ℕ → Context → Outcome Context) → ℕ → Type 0
Spares run_ta j =
    (k : ℕ) (c c' : Context)
    → k ≢ j
    → run_ta k c ≡ returns c'
    → (c'.apps ≡ c.apps) × (load c'.mailbox j ≡ load c.mailbox j)

module _ (run_ta : ℕ → Context → Outcome Context) (j : ℕ) (spares : Spares run_ta j) where
  abbrev turn : ℕ → Context → Outcome Context
  turn k c = if is_some (load c.mailbox k) then visit run_ta k c else returns c

  turn-spares :
      (k : ℕ) (c c' : Context)
      → k ≢ j
      → turn k c ≡ returns c'
      → (c'.apps ≡ c.apps) × (load c'.mailbox j ≡ load c.mailbox j)
  turn-spares k c c' other ran = elim (Bool-cases (is_some (load c.mailbox k))) [
    | inr free ↦
        let same : c ≡ c' = cc (rw free at ran) in
        (ap (λ (t : Context). t.apps) (sym same), ap (λ (t : Context). load t.mailbox j) (sym same))
    | inl has ↦ elim (Bool-cases (contains c.apps k)) [
      | inl known ↦ spares k c c' other (rw (has, known) at ran)
      | inr unknown ↦ cc (rw (has, unknown) at ran)
    ]
  ]

  turn-panics :
      (c : Context) (v : List ℕ)
      → load c.mailbox j ≡ some v
      → contains c.apps j ≡ false
      → turn j c ≡ panics
  turn-panics c v has unknown = rw (has, unknown)

  -- Whatever is visited before it, the visit of this key panics, or one before it does.
  pub visit_all-stray :
      (ks : List ℕ) (c : Context) (v : List ℕ)
      → Memᴰ j ks
      → load c.mailbox j ≡ some v
      → contains c.apps j ≡ false
      → visit_all run_ta ks c ≡ panics
  unfolding visit_all
  visit_all-stray [] c v m has unknown = elim m [ ]
  visit_all-stray (k ∷ ks) c v (Memᴰ.head e) has unknown =
      rw (sym e, turn-panics c v has unknown) refl
  visit_all-stray (k ∷ ks) c v (Memᴰ.tail m) has unknown = elim (Bool-cases (k == j)) [
    | inl same ↦ rw ((==_iff k j).0 same, turn-panics c v has unknown) refl
    | inr other ↦ elim (Outcome-cases (turn k c)) [
      | inr fails ↦ rw fails refl
      | inl (c', ran) ↦
          let (apps, mail) = turn-spares k c c' (λ e. cc ((==_iff k j).1 e, other)) ran in
          rw ran (
            visit_all-stray ks c' v m (mail ∙ has)
              (ap (λ (l : List ℕ). contains l j) apps ∙ unknown))
    ]
  ]

-- Mail from the non-secure world for an applet that is not registered, and for which no mail waits, is
-- taken for delivery without an error, whatever other mail and results wait. After that every
-- dispatch of mail panics the secure system: with the keys of the mailbox in the order in which they
-- are kept here, and with any list of keys that has the ID. A run of another applet is taken to
-- leave this mail and the registered applications as they are.
pub stray_mail_stops :
    (run_ta : ℕ → Context → Outcome Context) (c : Context) (mail : Mail) (ks : List ℕ)
    → load c.mailbox mail.app_id ≡ none
    → contains c.apps mail.app_id ≡ false
    → Spares run_ta mail.app_id
    → Memᴰ mail.app_id ks
    → (c' : Context) × (send_mail c mail ≡ (c', none))
      × (visit_all run_ta ks c' ≡ panics)
      × (dispatch_apps_calls run_ta c' ≡ panics)
unfolding send_mail dispatch_apps_calls
stray_mail_stops run_ta c mail ks free unknown spares among =
    let c' : Context = record c { mailbox = store c.mailbox mail.app_id mail.payload } in
    let has : load c'.mailbox mail.app_id ≡ some mail.payload = rw (==_refl mail.app_id) in
    (
      c',
      rw free refl,
      visit_all-stray run_ta mail.app_id spares ks c' mail.payload among has unknown,
      visit_all-stray run_ta mail.app_id spares _ c' mail.payload (Memᴰ.head refl) has unknown,
    )
