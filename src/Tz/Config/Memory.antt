-- ===== src/Tz/Config/Memory.antt =====
-- Which world may use which memory after the configuration of TrustZone.
use wall_era.Common.{
  ℕ, zero, suc, ◌+◌, ◌-◌, ◌≡◌, refl, ap, ◌∙◌, arith, true, ◌&&◌, ◌||◌, Bool, List, [], ◌∷◌, ◌++◌,
  Option, none, some, leb, ltb, ◌==◌, if◌then◌else◌, append_assoc, append-nil,
}
use wall_era.Tz.Config.{
  Soc, Call, enable_region, configure_trust_zone, secure_world, non_secure_world, secure_start,
  secure_size, secure_dma_start, secure_dma_size, applet_start, applet_size,
}
use wall_era.Tz.Config.Calls.{
  loop_calls, peripheral_calls, master_calls, region_calls, first_calls, locked_calls,
  configure_trust_zone-Makes,
}

-- The number and the attributes of a region, where a call enables one that contains an address.
-- Region 0 is the whole memory.
abbrev pub region_at : Call → ℕ → Option (ℕ × ℕ)
region_at (enable_region n start size attributes) a =
    if n == 0 || (leb start a && ltb a (start + size)) then some (n, attributes) else none
region_at _ a = none

abbrev pub stronger : Option (ℕ × ℕ) → Option (ℕ × ℕ) → Option (ℕ × ℕ)
stronger none r = r
stronger (some r) none = some r
stronger (some (n, x)) (some (m, y)) = if ltb n m then some (m, y) else some (n, x)

-- Of the regions that contain an address, the one with the highest number, as it was enabled last.
abbrev pub strongest : List Call → ℕ → Option (ℕ × ℕ)
strongest [] a = none
strongest (call ∷ calls) a = stronger (region_at call a) (strongest calls a)

-- A loop whose bodies enable no region does not count.
strongest-loop :
    (body : ℕ → List Call)
    → ((i : ℕ) (calls : List Call) (a : ℕ) → strongest (body i ++ calls) a ≡ strongest calls a)
    → (rounds i : ℕ) (calls : List Call) (a : ℕ)
    → strongest (loop_calls rounds i body ++ calls) a ≡ strongest calls a
strongest-loop body skips zero i calls a = refl
strongest-loop body skips (suc rounds) i calls a =
    ap (λ (t : List Call). strongest t a)
      (append_assoc (loop_calls rounds (i + 1) body) (body i) calls)
    ∙ strongest-loop body skips rounds (i + 1) (body i ++ calls) a
    ∙ skips i calls a

-- With the memory locked, the regions decide.
strongest-locked :
    (soc : Soc) (a : ℕ) → strongest (locked_calls soc) a ≡ strongest (region_calls soc) a
strongest-locked soc a =
    strongest-loop (master_calls soc) (λ i calls b. refl) (soc.sa_max - soc.sa_min) soc.sa_min
      (region_calls soc ++ before_regions) a
    ∙ ap (λ (r : Option (ℕ × ℕ)). over_regions r)
        (strongest-loop (peripheral_calls soc) (λ i calls b. refl) (soc.csl_max - soc.csl_min)
          soc.csl_min (first_calls soc) a)
  where
    before_regions : List Call
    before_regions =
        loop_calls (soc.csl_max - soc.csl_min) soc.csl_min (peripheral_calls soc) ++ first_calls soc

    over_regions : Option (ℕ × ℕ) → Option (ℕ × ℕ)
    over_regions r =
        stronger (region_at (enable_region 2 applet_start applet_size (secure_world soc)) a) (
          stronger
            (region_at
              (enable_region 1 secure_start (secure_size + secure_dma_size) (secure_world soc)) a)
            (stronger (region_at (enable_region 0 0 0 (non_secure_world soc)) a) r))

abbrev pub within : ℕ → ℕ → ℕ → Bool
within start size a = leb start a && ltb a (start + size)

-- The memory of the secure system, its DMA memory, and that of the applet.
abbrev pub is_secure : ℕ → Bool
is_secure a =
    within secure_start secure_size a
    || within secure_dma_start secure_dma_size a
    || within applet_start applet_size a

strongest-regions :
    (soc : Soc) (a : ℕ)
    → (n : ℕ) × (strongest (region_calls soc) a
        ≡ some (n, if is_secure a then secure_world soc else non_secure_world soc))
strongest-regions soc a = (
  if within applet_start applet_size a
      then 2
      else if within secure_start (secure_size + secure_dma_size) a
      then 1
      else 0,
  ground arith,
)

-- `attributes calls a` is what the controller of the memory grants at an address after some calls;
-- by its documentation it follows, of the regions that contain the address, the one with the
-- highest number. If the configuration with locked memory returns no error, then exactly the
-- memory of the secure system, its DMA memory and the memory of the applet are left to the secure
-- world, and everything else is open to both.
pub configure-isolates :
    {E : Type 0} (fails : List Call → Call → Option E) (soc : Soc) (attributes : List Call → ℕ → ℕ)
    → ((calls : List Call) (b n x : ℕ) → strongest calls b ≡ some (n, x) → attributes calls b ≡ x)
    → (a : ℕ) → (configure_trust_zone fails soc true true []).1 ≡ none
    → attributes (configure_trust_zone fails soc true true []).0 a
      ≡ (if is_secure a then secure_world soc else non_secure_world soc)
configure-isolates fails soc attributes law a fine =
    let (n, decides) = strongest-regions soc a in
    law (configure_trust_zone fails soc true true []).0 a n _ (
      ap (λ (calls : List Call). strongest calls a)
        ((configure_trust_zone-Makes fails soc).made [] fine ∙ append-nil (locked_calls soc))
      ∙ strongest-locked soc a
      ∙ decides)
