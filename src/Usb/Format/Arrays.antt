-- ===== src/Usb/Format/Arrays.antt =====
-- `[n]byte{}` with data copied into it.
use wall_era.Common.{
  ℕ, ◌≤◌, ◌≡◌, refl, ap, ◌∙◌, arith, List, ◌++◌, length, take, drop, replicate, length-append,
  length-drop, length-replicate, take_all, drop_all, take-append, append-nil,
}
use wall_era.Usb.Format.{array_of}

-- What is copied stands in front of what the array held behind it.
pub array_of_fits :
    (n : ℕ) (part : List ℕ)
    → length part ≤ n
    → array_of n part ≡ part ++ drop (length part) (replicate n 0)
unfolding array_of
array_of_fits n part h =
    ap (λ (t : List ℕ). t ++ drop (length part) (replicate n 0))
      (take_all part _ (omega (arith, length-replicate {A = ℕ} n 0)))

pub length-array_of : (n : ℕ) (part : List ℕ) → length part ≤ n → length (array_of n part) ≡ n
length-array_of n part h =
    ap length (array_of_fits n part h)
    ∙ omega (
      arith,
      length-append part (drop (length part) (replicate n 0)),
      length-drop (length part) (replicate {A = ℕ} n 0),
      length-replicate {A = ℕ} n 0,
    )

-- An array that is filled exactly holds nothing but what was copied.
pub array_of_exact : (n : ℕ) (part : List ℕ) → length part ≡ n → array_of n part ≡ part
array_of_exact n part h =
    array_of_fits n part (omega arith)
    ∙ ap (λ (t : List ℕ). part ++ t)
        (drop_all (replicate n 0) _ (omega (arith, length-replicate {A = ℕ} n 0)))
    ∙ append-nil part

-- The first bytes of an array are what was copied.
pub take-array_of :
    (n : ℕ) (part : List ℕ) → length part ≤ n → take (length part) (array_of n part) ≡ part
take-array_of n part h =
    ap (take (length part)) (array_of_fits n part h) ∙ take-append part _ (length part) refl
