-- ===== src/Tz/Config/Peripherals.antt =====
-- The security level of each peripheral and the access of each master after the configuration of
-- TrustZone.
use wall_era.Common.{
  ℕ, zero, suc, ◌+◌, ◌-◌, ◌≤◌, ◌<◌, ◌≡◌, refl, ap, ◌∙◌, arith, true, false, ◌&&◌, ◌||◌, Bool, List,
  [], ◌∷◌, ◌++◌, Option, none, some, leb, ltb, ◌==◌, if◌then◌else◌, append_assoc, append-nil,
}
use wall_era.Tz.Config.{Soc, Call, set_security_level, set_access, configure_trust_zone}
use wall_era.Tz.Config.Calls.{
  loop_calls, peripheral_calls, master_calls, last_calls, region_calls, first_calls, locked_calls,
  configure_trust_zone-Makes,
}

-- The level that was set last for a slave of a peripheral; the calls stand newest first.
abbrev pub level_after : List Call → ℕ → ℕ → Option ℕ
level_after [] p s = none
level_after (set_security_level i slave level lock ∷ calls) p s =
    if i == p && slave == s then some level else level_after calls p s
level_after (_ ∷ calls) p s = level_after calls p s

-- Whether a master was made secure last.
abbrev pub access_after : List Call → ℕ → Option Bool
access_after [] m = none
access_after (set_access i secure lock ∷ calls) m =
    if i == m then some secure else access_after calls m
access_after (_ ∷ calls) m = access_after calls m

-- GPIO4, IOMUXC, ROMCP, TZASC and DCP.
abbrev pub is_restricted : ℕ → ℕ → Bool
is_restricted p s =
    p == 2 && s == 1
    || p == 6 && s == 1
    || p == 13 && s == 0
    || p == 16 && s == 1
    || p == 34 && s == 0

level_after-masters :
    (soc : Soc) (rounds i : ℕ) (calls : List Call) (p s : ℕ)
    → level_after (loop_calls rounds i (master_calls soc) ++ calls) p s ≡ level_after calls p s
level_after-masters soc zero i calls p s = refl
level_after-masters soc (suc rounds) i calls p s =
    ap (λ (t : List Call). level_after t p s)
      (append_assoc (loop_calls rounds (i + 1) (master_calls soc)) (master_calls soc i) calls)
    ∙ level_after-masters soc rounds (i + 1) (master_calls soc i ++ calls) p s

level_after-peripherals :
    (soc : Soc) (rounds i : ℕ) (calls : List Call) (p s : ℕ)
    → s < 2
    → level_after (loop_calls rounds i (peripheral_calls soc) ++ calls) p s
      ≡ (if leb i p && ltb p (i + rounds) then some soc.sec_level_0 else level_after calls p s)
level_after-peripherals soc zero i calls p s small = ground arith
level_after-peripherals soc (suc rounds) i calls p s small =
    ap (λ (t : List Call). level_after t p s)
      (append_assoc (loop_calls rounds (i + 1) (peripheral_calls soc)) (peripheral_calls soc i)
        calls)
    ∙ level_after-peripherals soc rounds (i + 1) (peripheral_calls soc i ++ calls) p s small
    ∙ ground arith

access_after-masters :
    (soc : Soc) (rounds i : ℕ) (calls : List Call) (m : ℕ)
    → access_after (loop_calls rounds i (master_calls soc) ++ calls) m
      ≡ (if leb i m && ltb m (i + rounds) then some false else access_after calls m)
access_after-masters soc zero i calls m = ground arith
access_after-masters soc (suc rounds) i calls m =
    ap (λ (t : List Call). access_after t m)
      (append_assoc (loop_calls rounds (i + 1) (master_calls soc)) (master_calls soc i) calls)
    ∙ access_after-masters soc rounds (i + 1) (master_calls soc i ++ calls) m
    ∙ ground arith

-- The calls before the last ones.
abbrev loops : Soc → List Call
loops soc =
    loop_calls (soc.sa_max - soc.sa_min) soc.sa_min (master_calls soc)
    ++ (region_calls soc
        ++ (loop_calls (soc.csl_max - soc.csl_min) soc.csl_min (peripheral_calls soc)
            ++ first_calls soc))

level_after-loops :
    (soc : Soc) (p s : ℕ)
    → s < 2
    → soc.csl_min ≤ p
    → p < soc.csl_max
    → level_after (loops soc) p s ≡ some soc.sec_level_0
level_after-loops soc p s small lo hi =
    level_after-masters soc (soc.sa_max - soc.sa_min) soc.sa_min _ p s
    ∙ level_after-peripherals soc (soc.csl_max - soc.csl_min) soc.csl_min (first_calls soc) p s
        small
    ∙ ground arith

access_after-loops :
    (soc : Soc) (m : ℕ) → soc.sa_min ≤ m → m < soc.sa_max → access_after (loops soc) m ≡ some false
access_after-loops soc m lo hi =
    access_after-masters soc (soc.sa_max - soc.sa_min) soc.sa_min _ m ∙ ground arith

level_after-last :
    (soc : Soc) (calls : List Call) (p s : ℕ)
    → level_after calls p s ≡ some soc.sec_level_0
    → level_after (last_calls soc ++ calls) p s
      ≡ some (if is_restricted p s then soc.sec_level_4 else soc.sec_level_0)
level_after-last soc calls p s base = ground arith

access_after-last :
    (soc : Soc) (calls : List Call) (m : ℕ)
    → access_after calls m ≡ some false
    → access_after (last_calls soc ++ calls) m ≡ some (m == 14)
access_after-last soc calls m base = ground arith

-- If the configuration with locked memory returns no error, then of the peripherals exactly
-- GPIO4, IOMUXC, ROMCP, TZASC and DCP have the restricted level in the end, all others have the
-- open one, and of the masters only DCP is secure; the USB controller is not.
pub configure-restricts :
    {E : Type 0} (fails : List Call → Call → Option E) (soc : Soc) (p s m : ℕ)
    → s < 2
    → soc.csl_min ≤ p
    → p < soc.csl_max
    → soc.sa_min ≤ m
    → m < soc.sa_max
    → (configure_trust_zone fails soc true true []).1 ≡ none
    → (level_after (configure_trust_zone fails soc true true []).0 p s
        ≡ some (if is_restricted p s then soc.sec_level_4 else soc.sec_level_0))
      × (access_after (configure_trust_zone fails soc true true []).0 m ≡ some (m == 14))
configure-restricts fails soc p s m small lo hi lo' hi' fine =
    let made : (configure_trust_zone fails soc true true []).0 ≡ locked_calls soc =
      (configure_trust_zone-Makes fails soc).made [] fine ∙ append-nil (locked_calls soc) in
    (
      ap (λ (calls : List Call). level_after calls p s) made
          ∙ level_after-last soc (loops soc) p s (level_after-loops soc p s small lo hi),
      ap (λ (calls : List Call). access_after calls m) made
          ∙ access_after-last soc (loops soc) m (access_after-loops soc m lo' hi'),
    )
