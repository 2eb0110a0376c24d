-- ===== src/Usb/Format/Chunking.antt =====
-- The chunks of `chunkFunc` are the data, cut at every `size` bytes.
use wall_era.Common.{
  ℕ, zero, suc, ◌+◌, ◌-◌, ◌*◌, ◌%◌, ◌≤◌, ◌<◌, ◌≡◌, refl, sym, ap, ◌∙◌, arith, List, [], ◌∷◌, ◌++◌,
  leb, length, drop, concat, length-take, length-drop, take-append-drop, drop-drop, take_all,
  append-nil, Bool-cases, leb→le, inl, inr, ==_ne, ==_iff,
}
use native.Mathlib.Nat.{div-add-mod, mod-lt}
use wall_era.Usb.Format.{sub, chunk_loop, ceil_div, chunk_func}

-- Every chunk but the last has exactly `size` bytes, the last has between 1 and `size`.
abbrev pub IsChunking : ℕ → List (List ℕ) → Type 0
IsChunking size [] = ⊥
IsChunking size (part ∷ []) = (0 < length part) × (length part ≤ size)
IsChunking size (part ∷ more ∷ parts) = (length part ≡ size) × IsChunking size (more ∷ parts)

IsChunking-cons :
    (size : ℕ) (part : List ℕ) (parts : List (List ℕ))
    → length part ≡ size
    → IsChunking size parts
    → IsChunking size (part ∷ parts)
IsChunking-cons size part [] e h = absurd h
IsChunking-cons size part (more ∷ parts) e h = (e, h)

module _ (bs : List ℕ) (size chunks idx start : ℕ) where
  chunk_loop_last :
      (finish : ℕ)
      → idx + 1 ≡ chunks
      → chunk_loop 1 bs size chunks idx start finish ≡ sub bs start (length bs) ∷ []
  unfolding chunk_loop
  chunk_loop_last finish e = rw ((==_iff _ _).1 e)

  chunk_loop_more :
      (rounds finish : ℕ)
      → idx + suc (suc rounds) ≡ chunks
      → chunk_loop (suc (suc rounds)) bs size chunks idx start finish
        ≡ sub bs start finish
          ∷ chunk_loop (suc rounds) bs size chunks (idx + 1) (start + size) (finish + size)
  unfolding chunk_loop
  chunk_loop_more rounds finish e = rw (==_ne (idx + 1) chunks (omega arith))

length-sub :
    (bs : List ℕ) (start finish : ℕ)
    → finish ≤ length bs
    → length (sub bs start finish) ≡ finish - start
length-sub bs start finish h =
    omega (arith, length-take (finish - start) (drop start bs), length-drop start bs)

sub_rest : (bs : List ℕ) (start : ℕ) → sub bs start (length bs) ≡ drop start bs
sub_rest bs start = take_all (drop start bs) _ (omega (arith, length-drop start bs))

sub-append-drop :
    (bs : List ℕ) (start size finish : ℕ)
    → finish ≡ start + size
    → sub bs start finish ++ drop (start + size) bs ≡ drop start bs
sub-append-drop bs start size finish f =
    ap (λ (t : List ℕ). sub bs start finish ++ t)
      (sym (drop-drop (finish - start) start _ bs (omega arith)))
    ∙ take-append-drop (finish - start) (drop start bs)

-- `rounds + 1` rounds are left, and what is not cut yet begins at `start`.
chunk_loop-IsChunking :
    (rounds : ℕ) (bs : List ℕ) (size chunks idx start finish : ℕ)
    → finish ≡ start + size
    → idx + suc rounds ≡ chunks
    → rounds * size + start < length bs
    → length bs ≤ rounds * size + size + start
    → IsChunking size (chunk_loop (suc rounds) bs size chunks idx start finish)
      × (concat (chunk_loop (suc rounds) bs size chunks idx start finish) ≡ drop start bs)
chunk_loop-IsChunking zero bs size chunks idx start finish f e lo hi =
    let long : length (sub bs start (length bs)) ≡ length bs - start =
      length-sub bs start _ (omega arith) in
    rw (chunk_loop_last bs size chunks idx start finish e)
      ((omega arith, omega arith), append-nil _ ∙ sub_rest bs start)
chunk_loop-IsChunking (suc rounds) bs size chunks idx start finish f e lo hi =
    let long : length (sub bs start finish) ≡ finish - start =
      length-sub bs start _ (omega arith) in
    let (shape, rest) =
      chunk_loop-IsChunking rounds bs size chunks (idx + 1) (start + size) (finish + size)
        (omega arith) (omega arith) (omega arith) (omega arith) in
    rw (chunk_loop_more bs size chunks idx start rounds finish e) (
      IsChunking-cons size _ _ (omega arith) shape,
      ap (λ (t : List ℕ). sub bs start finish ++ t) rest ∙ sub-append-drop bs start size finish f,
    )

-- `ceil_div` counts the rounds that the loop needs.
ceil_div_bounds :
    (n size : ℕ)
    → 0 < size
    → size < n
    → (r : ℕ) × (ceil_div n size ≡ suc r) × (r * size < n) × (n ≤ r * size + size)
ceil_div_bounds n size pos big =
    from_quotient (ceil_div n size) ((n + size - 1) % size) (div-add-mod (n + size - 1) size)
      (mod-lt _ pos)
  where
    from_quotient :
        (q m : ℕ)
        → size * q + m ≡ n + size - 1
        → m < size
        → (r : ℕ) × (q ≡ suc r) × (r * size < n) × (n ≤ r * size + size)
    from_quotient zero m e lt = absurd (omega arith)
    from_quotient (suc r) m e lt = (r, refl, omega arith, omega arith)

-- Non-empty data are cut, for a size above 0, into chunks that are in order the whole data, each
-- of exactly that size but the last, which has at least one byte and at most that many.
pub chunk_func-IsChunking :
    (bs : List ℕ) (size : ℕ)
    → 0 < size
    → 0 < length bs
    → IsChunking size (chunk_func bs size) × (concat (chunk_func bs size) ≡ bs)
unfolding chunk_func
chunk_func-IsChunking bs size pos some_bytes = elim (Bool-cases (leb (length bs) size)) [
  | inl small ↦ rw small ((some_bytes, leb→le _ _ small), append-nil bs)
  | inr big ↦
      let (r, count, lo, hi) = ceil_div_bounds (length bs) size pos (ground arith) in
      rw (big, count)
        (chunk_loop-IsChunking r bs size (suc r) 0 0 size (omega arith) (omega arith) (omega arith)
          (omega arith))
]
