-- ===== src/Apps/Cosmos/Path.antt =====
-- A path in front of a longer array.
use wall_era.Common.{
  ℕ, refl, ◌-◌, ◌≤◌, ◌≡◌, sym, ap, ◌∙◌, arith, List, [], ◌++◌, length, take, drop, take-append_le,
  take-append, drop-append, drop-drop, take_all, drop-append_le, length-append, length-drop,
}
use wall_era.Common.Go.{returns, Slice, slice, slice-returns, exact}
use wall_era.Crypto.{DerivationPath, new_derivation_path_from_bytes}
use wall_era.Apps.Cosmos.{path_from}

-- What a slice within the length of its base holds.
slice_within :
    (bs beyond : List ℕ) (lo hi : ℕ)
    → lo ≤ hi
    → hi ≤ length bs
    → (s : Slice) × (slice (record { elems = bs; beyond = beyond }) lo hi ≡ returns s)
      × (s.elems ≡ take (hi - lo) (drop lo bs))
slice_within bs beyond lo hi ordered inside = (
  record { elems = take (hi - lo) (drop lo (bs ++ beyond)); beyond = drop hi (bs ++ beyond) },
  slice-returns (record { elems = bs; beyond = beyond }) lo hi ordered
      (omega (arith, length-append bs beyond)),
  ap (take (hi - lo)) (drop-append_le bs beyond lo (omega arith))
      ∙ take-append_le (drop lo bs) beyond (hi - lo) (omega (arith, length-drop lo bs)),
)

-- Twenty bytes are read as the same path whatever lies behind them.
pub path_from-within :
    (bs beyond : List ℕ)
    → 20 ≤ length bs
    → path_from (record { elems = bs; beyond = beyond })
      ≡ new_derivation_path_from_bytes
          (take 4 (drop 0 bs))
          (take 4 (drop 4 bs))
          (take 4 (drop 8 bs))
          (take 4 (drop 12 bs))
          (take 4 (drop 16 bs))
unfolding path_from
path_from-within bs beyond long =
    let (s0, e0, f0) = slice_within bs beyond 0 4 (omega arith) (omega arith) in
    let (s1, e1, f1) = slice_within bs beyond 4 8 (omega arith) (omega arith) in
    let (s2, e2, f2) = slice_within bs beyond 8 12 (omega arith) (omega arith) in
    let (s3, e3, f3) = slice_within bs beyond 12 16 (omega arith) (omega arith) in
    let (s4, e4, f4) = slice_within bs beyond 16 20 (omega arith) (omega arith) in
    rw (e0, e1, e2, e3, e4, f0, f1, f2, f3, f4)

pub path_from-beyond :
    (bs beyond : List ℕ) (path : DerivationPath)
    → 20 ≤ length bs
    → path_from (exact bs) ≡ returns path
    → path_from (record { elems = bs; beyond = beyond }) ≡ returns path
path_from-beyond bs beyond path long e =
    path_from-within bs beyond long ∙ sym (path_from-within bs [] long) ∙ e

-- Five words, each in four bytes.
abbrev pub wire_bytes : List ℕ → List ℕ → List ℕ → List ℕ → List ℕ → List ℕ
wire_bytes p c a h i = p ++ (c ++ (a ++ (h ++ i)))

module _ (p c a h i : List ℕ) (lp : length p ≡ 4) (lc : length c ≡ 4) (la : length a ≡ 4)
    (lh : length h ≡ 4) (li : length i ≡ 4) where
  pub length-wire_bytes : length (wire_bytes p c a h i) ≡ 20
  length-wire_bytes = omega (
    arith,
    length-append p (c ++ (a ++ (h ++ i))),
    length-append c (a ++ (h ++ i)),
    length-append a (h ++ i),
    length-append h i,
    lp,
    lc,
    la,
    lh,
    li,
  )

  behind_first : drop 4 (wire_bytes p c a h i) ≡ c ++ (a ++ (h ++ i))
  behind_first = drop-append p (c ++ (a ++ (h ++ i))) 4 (sym lp)

  behind_second : drop 8 (wire_bytes p c a h i) ≡ a ++ (h ++ i)
  behind_second =
      sym (drop-drop 4 4 8 (wire_bytes p c a h i) refl)
      ∙ ap (drop 4) behind_first
      ∙ drop-append c (a ++ (h ++ i)) 4 (sym lc)

  behind_third : drop 12 (wire_bytes p c a h i) ≡ h ++ i
  behind_third =
      sym (drop-drop 4 8 12 (wire_bytes p c a h i) refl)
      ∙ ap (drop 4) behind_second
      ∙ drop-append a (h ++ i) 4 (sym la)

  behind_fourth : drop 16 (wire_bytes p c a h i) ≡ i
  behind_fourth =
      sym (drop-drop 4 12 16 (wire_bytes p c a h i) refl)
      ∙ ap (drop 4) behind_third
      ∙ drop-append h i 4 (sym lh)

  -- The five words are read from their own bytes.
  pub path_from-wire_bytes :
      path_from (exact (wire_bytes p c a h i)) ≡ new_derivation_path_from_bytes p c a h i
  path_from-wire_bytes =
      path_from-within (wire_bytes p c a h i) [] (omega (arith, length-wire_bytes))
      ∙ rw
          (
            take-append p (c ++ (a ++ (h ++ i))) 4 (sym lp),
            behind_first,
            take-append c (a ++ (h ++ i)) 4 (sym lc),
            behind_second,
            take-append a (h ++ i) 4 (sym la),
            behind_third,
            take-append h i 4 (sym lh),
            behind_fourth,
            take_all i 4 (omega (arith, li)),
          )
          refl
