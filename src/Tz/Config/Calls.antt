-- ===== src/Tz/Config/Calls.antt =====
-- Which calls the configuration of TrustZone has made when it returns no error.
use wall_era.Common.{
  ℕ, zero, suc, ◌+◌, ◌-◌, ◌^◌, ◌≡◌, refl, sym, ap, subst, ◌∙◌, true, false, List, [], ◌∷◌, ◌++◌,
  Option, none, some, append_assoc, Option-cases, inl, inr,
}
use Prim.Native.Nat.{bit_or}
use wall_era.Tz.Config.{
  Soc, Call, non_secure_access_control, csu_init, set_security_level, enable_region, set_access,
  Setup, succeed, infallible, attempt, go_on, ◌then_do◌, for_each, open_peripheral,
  configure_trust_zone, non_secure_world, secure_world, secure_start, secure_size, secure_dma_size,
  applet_start, applet_size,
}

-- Unless it fails, the code makes exactly these calls, newest first.
pub record Makes {E : Type 0} (m : Setup E) (calls : List Call) : Type 0 where
  pub made : (done : List Call) → (m done).1 ≡ none → (m done).0 ≡ calls ++ done

-- The calls of a loop, newest first.
abbrev pub loop_calls : ℕ → ℕ → (ℕ → List Call) → List Call
loop_calls zero i body = []
loop_calls (suc rounds) i body = loop_calls rounds (i + 1) body ++ body i

module _ (soc : Soc) where
  abbrev pub peripheral_calls : ℕ → List Call
  peripheral_calls i =
      set_security_level i 1 soc.sec_level_0 false
      ∷ set_security_level i 0 soc.sec_level_0 false
      ∷ []

  abbrev pub master_calls : ℕ → List Call
  master_calls i = set_access i false false ∷ []

  -- What is called after the last region was enabled, newest first.
  abbrev pub last_calls : List Call
  last_calls =
      set_access 14 true false
      ∷ set_security_level 34 0 soc.sec_level_4 false
      ∷ set_security_level 16 1 soc.sec_level_4 false
      ∷ set_security_level 13 0 soc.sec_level_4 false
      ∷ set_access 4 false false
      ∷ set_security_level 8 0 soc.sec_level_0 false
      ∷ set_security_level 6 1 soc.sec_level_4 false
      ∷ set_security_level 2 1 soc.sec_level_4 false
      ∷ []

  abbrev pub region_calls : List Call
  region_calls =
      enable_region 2 applet_start applet_size (secure_world soc)
      ∷ enable_region 1 secure_start (secure_size + secure_dma_size) (secure_world soc)
      ∷ enable_region 0 0 0 (non_secure_world soc)
      ∷ []

  abbrev pub first_calls : List Call
  first_calls = csu_init ∷ non_secure_access_control (bit_or (2 ^ 11) (2 ^ 10)) ∷ []

  -- All of them, with the memory locked.
  abbrev pub locked_calls : List Call
  locked_calls =
      last_calls
      ++ (loop_calls (soc.sa_max - soc.sa_min) soc.sa_min master_calls
          ++ (region_calls
              ++ (loop_calls (soc.csl_max - soc.csl_min) soc.csl_min peripheral_calls
                  ++ first_calls)))

module _ {E : Type 0} (fails : List Call → Call → Option E) where
  succeed-Makes : Makes (succeed fails) []
  succeed-Makes = record { made = λ done e. refl }

  infallible-Makes : (call : Call) → Makes (infallible fails call) (call ∷ [])
  infallible-Makes call = record { made = λ done e. refl }

  attempt-made :
      (call : Call) (done : List Call)
      → (attempt fails call done).1 ≡ none
      → (attempt fails call done).0 ≡ call ∷ done
  unfolding attempt
  attempt-made call done e = elim (Option-cases (fails done call)) [
    | inl fine ↦ rw fine
    | inr (x, failed) ↦ cc (rw failed at e)
  ]

  attempt-Makes : (call : Call) → Makes (attempt fails call) (call ∷ [])
  attempt-Makes call = record { made = attempt-made call }

  go_on-made :
      (k : Setup E) (r : List Call × Option E) (first second done : List Call)
      → (r.1 ≡ none → r.0 ≡ first ++ done)
      → Makes k second
      → (go_on fails k r).1 ≡ none
      → (go_on fails k r).0 ≡ (second ++ first) ++ done
  go_on-made k (made, some x) first second done h hk e = cc
  go_on-made k (made, none) first second done h hk e =
      hk.made made e
      ∙ ap (λ (t : List Call). second ++ t) (h refl)
      ∙ sym (append_assoc second first done)

  then_do-Makes :
      {m k : Setup E} {first second : List Call}
      → Makes m first
      → Makes k second
      → Makes (◌then_do◌ fails m k) (second ++ first)
  then_do-Makes {m} {k} {first} {second} hm hk = record {
    made = λ done e. go_on-made k (m done) first second done (hm.made done) hk e;
  }

  for_each-Makes :
      (rounds i : ℕ) {body : ℕ → Setup E} {calls : ℕ → List Call}
      → ((j : ℕ) → Makes (body j) (calls j))
      → Makes (for_each fails rounds i body) (loop_calls rounds i calls)
  unfolding for_each
  for_each-Makes zero i h = succeed-Makes
  for_each-Makes (suc rounds) i h = then_do-Makes (h i) (for_each-Makes rounds (i + 1) h)

  after_call :
      (call : Call) {k : Setup E} {second : List Call}
      → Makes k second
      → Makes (◌then_do◌ fails (attempt fails call) k) (second ++ (call ∷ []))
  after_call call hk = then_do-Makes (attempt-Makes call) hk

  module _ (soc : Soc) where
    last-Makes :
        Makes
          (◌then_do◌ fails (attempt fails (set_security_level 2 1 soc.sec_level_4 false)) (
            ◌then_do◌ fails (attempt fails (set_security_level 6 1 soc.sec_level_4 false)) (
              ◌then_do◌ fails (attempt fails (set_security_level 8 0 soc.sec_level_0 false)) (
                ◌then_do◌ fails (attempt fails (set_access 4 false false)) (
                  ◌then_do◌ fails (attempt fails (set_security_level 13 0 soc.sec_level_4 false)) (
                    ◌then_do◌ fails
                      (attempt fails (set_security_level 16 1 soc.sec_level_4 false))
                      (◌then_do◌ fails
                        (attempt fails (set_security_level 34 0 soc.sec_level_4 false))
                        (attempt fails (set_access 14 true false)))))))))
          (last_calls soc)
    last-Makes = after_call _ (
        after_call _ (
          after_call _
            (after_call _ (after_call _ (after_call _ (after_call _ (attempt-Makes _)))))))

    open_peripheral-Makes : (i : ℕ) → Makes (open_peripheral fails soc i) ((peripheral_calls soc) i)
    open_peripheral-Makes i = after_call _ (attempt-Makes _)

    in_groups :
        (((((((last_calls soc)
                      ++ loop_calls (soc.sa_max - soc.sa_min) soc.sa_min (master_calls soc))
                    ++ (enable_region 2 applet_start applet_size (secure_world soc) ∷ []))
                  ++ (enable_region 1 secure_start
                        (secure_size + secure_dma_size)
                        (secure_world soc)
                      ∷ []))
                ++ (enable_region 0 0 0 (non_secure_world soc) ∷ []))
              ++ loop_calls (soc.csl_max - soc.csl_min) soc.csl_min (peripheral_calls soc))
            ++ (csu_init ∷ []))
          ++ (non_secure_access_control (bit_or (2 ^ 11) (2 ^ 10)) ∷ [])
        ≡ (locked_calls soc)
    in_groups = simp append_assoc

    pub configure_trust_zone-Makes :
        Makes (configure_trust_zone fails soc true true) (locked_calls soc)
    unfolding configure_trust_zone
    configure_trust_zone-Makes =
        subst (Makes (configure_trust_zone fails soc true true)) in_groups (
          then_do-Makes (infallible-Makes (non_secure_access_control (bit_or (2 ^ 11) (2 ^ 10)))) (
            then_do-Makes (infallible-Makes csu_init) (
              then_do-Makes (for_each-Makes _ _ open_peripheral-Makes) (
                after_call _ (
                  after_call _ (
                    after_call _
                      (then_do-Makes (for_each-Makes _ _ (λ i. attempt-Makes _)) last-Makes)))))))
