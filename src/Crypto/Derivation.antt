-- ===== src/Crypto/Derivation.antt =====
-- What keys a derivation path leads to.
use wall_era.Common.{
  ℕ, ◌+◌, ◌^◌, ◌<◌, ◌≡◌, refl, ap, ◌∙◌, arith, inl, inr, List, [], ◌∷◌, Option, none, some, take,
  bit_xor,
}
use wall_era.Common.Go.{returns, Result, ok, err, Result-cases}
use wall_era.Common.Bytes.{uint32}
use wall_era.Common.Bits.{flip_then_add}
use wall_era.Crypto.{
  DerivationPath, Keychain, TokenError, no_child, uint32_le, new_derivation_path_from_bytes,
  in_order, hardened, parent, key_loop, key_from_path,
}

-- The path that is read from these words.
abbrev pub wire_path : ℕ → ℕ → ℕ → ℕ → ℕ → DerivationPath
wire_path w0 w1 w2 w3 w4 = record {
  purpose = bit_xor 0x80000000 w0;
  coin_type = bit_xor 0x80000000 w1;
  account = bit_xor 0x80000000 w2;
  change = w3;
  address_index = w4;
}

-- The child of a child, along a list of indices; on a failure, how many steps were made before.
module _ (kc : Keychain) where
  abbrev pub descend : kc.Key → List ℕ → ℕ → Result ℕ kc.Key
  descend k [] made = ok k
  descend k (i ∷ rest) made = elim (kc.child k i) [
    | ok k' ↦ descend k' rest (made + 1)
    | err e ↦ err made
  ]

  -- The result of `KeyFromPath` for a descent, its error naming the components that were done.
  abbrev pub path_result : List ℕ → Result ℕ kc.Key → Result (TokenError kc.Error) (Option kc.Key)
  path_result components (ok k) = ok (some k)
  path_result components (err made) = err (no_child (take made components))

  abbrev hardened_from : ℕ → List ℕ → List ℕ
  hardened_from idx [] = []
  hardened_from idx (c ∷ rest) = hardened kc idx c ∷ hardened_from (idx + 1) rest

  abbrev loop_result :
      kc.Key → List ℕ → Option kc.Key → ℕ → List ℕ → Result (TokenError kc.Error) (Option kc.Key)
  loop_result k components current idx [] = ok current
  loop_result k components current idx (c ∷ rest) =
      path_result components (descend (parent kc k current) (hardened_from idx (c ∷ rest)) idx)

  key_loop-descend :
      (k : kc.Key) (components : List ℕ) (current : Option kc.Key) (idx : ℕ) (rest : List ℕ)
      → key_loop kc k components current idx rest ≡ loop_result k components current idx rest
  unfolding key_loop
  key_loop-descend k components current idx [] = refl
  key_loop-descend k components current idx (c ∷ []) =
      elim (Result-cases (kc.child (parent kc k current) (hardened kc idx c))) [
        | inl (k', e) ↦ rw (e, key_loop)
        | inr (x, e) ↦ rw (e, key_loop)
      ]
  key_loop-descend k components current idx (c ∷ c' ∷ rest) =
      elim (Result-cases (kc.child (parent kc k current) (hardened kc idx c))) [
        | inl (k', e) ↦
            rw (e, key_loop) (key_loop-descend k components (some k') (idx + 1) (c' ∷ rest))
        | inr (x, e) ↦ rw (e, key_loop)
      ]

  -- `KeyFromPath` makes five steps down: by the first three components, each plus the offset of
  -- hardened indices in uint32, and then by the last two as they are.
  pub key_from_path_lem :
      (k : kc.Key) (path : DerivationPath)
      → key_from_path kc k path
        ≡ path_result (in_order path) (
            descend k
              (uint32 (path.purpose + kc.hardened_key_start)
                ∷ uint32 (path.coin_type + kc.hardened_key_start)
                ∷ uint32 (path.account + kc.hardened_key_start)
                ∷ path.change
                ∷ path.address_index
                ∷ [])
              0)
  unfolding key_from_path
  key_from_path_lem k path = key_loop-descend k (in_order path) none 0 (in_order path)

  step_from_wire :
      (w : ℕ)
      → kc.hardened_key_start ≡ 0x80000000
      → w < 2 ^ 32
      → uint32 (bit_xor 0x80000000 w + kc.hardened_key_start) ≡ w
  step_from_wire w start fits = omega (arith, start, flip_then_add w fits)

  pub steps-wire_path :
      (w0 w1 w2 w3 w4 : ℕ)
      → kc.hardened_key_start ≡ 0x80000000
      → (w0 < 2 ^ 32) × (w1 < 2 ^ 32) × (w2 < 2 ^ 32)
      → uint32 (bit_xor 0x80000000 w0 + kc.hardened_key_start)
          ∷ uint32 (bit_xor 0x80000000 w1 + kc.hardened_key_start)
          ∷ uint32 (bit_xor 0x80000000 w2 + kc.hardened_key_start)
          ∷ w3
          ∷ w4
          ∷ []
        ≡ w0 ∷ w1 ∷ w2 ∷ w3 ∷ w4 ∷ []
  steps-wire_path w0 w1 w2 w3 w4 start fit =
      cc (
        step_from_wire w0 start fit.0,
        step_from_wire w1 start fit.1,
        step_from_wire w2 start fit.2,
      )

  -- If hardened indices begin at 0x80000000, a path read from five words on the wire leads down by
  -- exactly these words, little-endian, the first three of them below 2 ^ 32: the
  -- flip of the top bit on reading and the hardening of the first three components undo one
  -- another. So a component is hardened exactly if the host sent it hardened.
  pub derive_from_wire :
      (k : kc.Key) (p c a h i : List ℕ) (w0 w1 w2 w3 w4 : ℕ)
      → kc.hardened_key_start ≡ 0x80000000
      → uint32_le p ≡ returns w0
      → uint32_le c ≡ returns w1
      → uint32_le a ≡ returns w2
      → uint32_le h ≡ returns w3
      → uint32_le i ≡ returns w4
      → (w0 < 2 ^ 32) × (w1 < 2 ^ 32) × (w2 < 2 ^ 32)
      → (path : DerivationPath) × (new_derivation_path_from_bytes p c a h i ≡ returns path)
        × (key_from_path kc k path
            ≡ path_result (in_order path) (descend k (w0 ∷ w1 ∷ w2 ∷ w3 ∷ w4 ∷ []) 0))
  unfolding new_derivation_path_from_bytes
  derive_from_wire k p c a h i w0 w1 w2 w3 w4 start e0 e1 e2 e3 e4 fit = (
    wire_path w0 w1 w2 w3 w4,
    rw (e0, e1, e2, e3, e4),
    key_from_path_lem k (wire_path w0 w1 w2 w3 w4)
        ∙ ap (λ (ws : List ℕ). path_result (in_order (wire_path w0 w1 w2 w3 w4)) (descend k ws 0))
            (steps-wire_path w0 w1 w2 w3 w4 start fit),
  )
