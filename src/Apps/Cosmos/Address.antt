-- ===== src/Apps/Cosmos/Address.antt =====
-- The address request of the Cosmos application, by how many bytes its slice can reach.
use wall_era.Common.{
  ℕ, ◌+◌, ◌-◌, ◌≤◌, ◌<◌, ◌≡◌, ◌≢◌, refl, ap, ◌∙◌, arith, none, some, List, [], ◌∷◌, length, drop,
  take, length-take, length-drop, length-append, bit_xor, ltb-false,
}
use native.Mathlib.Decide.{dec_lt}
use mathlib.Core.Path.{ap₂}
use wall_era.Apps.{Reply}
use wall_era.Common.Go.{
  Outcome, returns, panics, ◌>>=◌, Slice, len, slice, backing, slice-panics, slice-returns,
}
use wall_era.Common.Bytes.{uint8}
use wall_era.Crypto.{DerivationPath, Token, uint32_le, new_derivation_path_from_bytes}
use wall_era.Apps.Cosmos.{
  Error, Libraries, GetAddressRequest, Cosmos, cla_get_addr_secp256k1, path_from, handle,
  handle_get_addr_secp256k1, validate, valid_request, hrp_from_get_address_request,
  derivation_path_from_get_address_request, address_initialized, decode_request,
}

-- The requests that `validate` lets through.
pub record IsRequest (r : GetAddressRequest) : Type 0 where
  pub parameter : r.p1 ≤ 1
  pub payload_some : r.payload_length ≢ 0
  pub payload_byte : r.payload_length < 256
  pub hrp_some : 1 ≤ r.hrp_length
  pub hrp_short : r.hrp_length ≤ 83

-- A message whose first six bytes are a request.
pub record HasRequest (bs : Slice) (r : GetAddressRequest) : Type 0 where
  pub decodes : decode_request bs.elems ≡ some r
  pub valid : IsRequest r

decode_request-length :
    (xs : List ℕ) (r : GetAddressRequest) → decode_request xs ≡ some r → 6 ≤ length xs
decode_request-length (a ∷ b ∷ c ∷ d ∷ e ∷ f ∷ rest) r h = omega arith
decode_request-length _ r h = cc

uint32_le_four : (xs : List ℕ) → length xs ≡ 4 → (w : ℕ) × (uint32_le xs ≡ returns w)
unfolding uint32_le
uint32_le_four (a ∷ b ∷ c ∷ d ∷ []) h = (_, refl)
uint32_le_four (a ∷ b ∷ c ∷ d ∷ e ∷ xs) h = absurd (omega arith)
uint32_le_four _ h = absurd (omega arith)

slice_four :
    (base : Slice) (lo : ℕ)
    → lo + 4 ≤ length (backing base)
    → (part : Slice) × (slice base lo (lo + 4) ≡ returns part) × (length part.elems ≡ 4)
slice_four base lo h = (
  record {
    elems = take (lo + 4 - lo) (drop lo (backing base));
    beyond = drop (lo + 4) (backing base);
  },
  slice-returns base lo (lo + 4) (omega arith) h,
  omega (arith, length-take (lo + 4 - lo) (drop lo (backing base)), length-drop lo (backing base)),
)

-- Twenty bytes hold a path.
pub path_from-returns :
    (base : Slice)
    → 20 ≤ length (backing base)
    → (path : DerivationPath) × (path_from base ≡ returns path)
unfolding path_from new_derivation_path_from_bytes
path_from-returns base h =
    let (s0, e0, l0) = slice_four base 0 (omega arith) in
    let (s1, e1, l1) = slice_four base 4 (omega arith) in
    let (s2, e2, l2) = slice_four base 8 (omega arith) in
    let (s3, e3, l3) = slice_four base 12 (omega arith) in
    let (s4, e4, l4) = slice_four base 16 (omega arith) in
    let (w0, f0) = uint32_le_four s0.elems l0 in
    let (w1, f1) = uint32_le_four s1.elems l1 in
    let (w2, f2) = uint32_le_four s2.elems l2 in
    let (w3, f3) = uint32_le_four s3.elems l3 in
    let (w4, f4) = uint32_le_four s4.elems l4 in
    (
      record {
        purpose = bit_xor 0x80000000 w0;
        coin_type = bit_xor 0x80000000 w1;
        account = bit_xor 0x80000000 w2;
        change = w3;
        address_index = w4;
      },
      rw (e0, e1, e2, e3, e4, f0, f1, f2, f3, f4),
    )

abbrev path_slice : Slice → GetAddressRequest → Slice
path_slice bs r = record {
  elems = take 20 (drop (6 + r.hrp_length) (backing bs));
  beyond = drop (26 + r.hrp_length) (backing bs);
}

module _ (bs : Slice) (r : GetAddressRequest) (h : IsRequest r)
    (enough : 26 + r.hrp_length ≤ length (backing bs)) where
  hrp_is :
      hrp_from_get_address_request r bs
      ≡ returns (record {
        elems = take r.hrp_length (drop 6 (backing bs));
        beyond = drop (6 + r.hrp_length) (backing bs);
      })
  unfolding hrp_from_get_address_request
  hrp_is =
      ap (slice bs 6) {y = 6 + r.hrp_length} (omega arith)
      ∙ slice-returns bs 6 (6 + r.hrp_length) (omega arith) (omega arith)
      ∙ ap
          (λ (n : ℕ). returns (record {
            elems = take n (drop 6 (backing bs));
            beyond = drop (6 + r.hrp_length) (backing bs);
          }))
          {y = r.hrp_length} (omega arith)

  base_is :
      slice bs (uint8 (6 + r.hrp_length)) (uint8 (uint8 (6 + r.hrp_length) + 20))
      ≡ returns (path_slice bs r)
  base_is =
      ap₂ (slice bs) {y = 6 + r.hrp_length} {v = 26 + r.hrp_length} (omega arith) (omega arith)
      ∙ slice-returns bs (6 + r.hrp_length) (26 + r.hrp_length) (omega arith) (omega arith)
      ∙ ap
          (λ (n : ℕ). returns (record {
            elems = take n (drop (6 + r.hrp_length) (backing bs));
            beyond = drop (26 + r.hrp_length) (backing bs);
          }))
          {y = 20} (omega arith)

  length-path_slice : 20 ≤ length (backing (path_slice bs r))
  length-path_slice = omega (
    arith,
    length-append (take 20 (drop (6 + r.hrp_length) (backing bs)))
        (drop (26 + r.hrp_length) (backing bs)),
    length-take 20 (drop (6 + r.hrp_length) (backing bs)),
    length-drop (6 + r.hrp_length) (backing bs),
  )

module _ {T E B : Type 0} (ops : Token T E) (libs : Libraries B) where
  validate-none : (r : GetAddressRequest) → IsRequest r → validate ops libs r ≡ none
  validate-none r h = ground arith

  handle-valid :
      (c : Cosmos T) (bs : Slice) (r : GetAddressRequest)
      → HasRequest bs r
      → handle ops libs c cla_get_addr_secp256k1 bs ≡ (do
        done ← valid_request ops libs c.token r bs
        returns (record c { token = done.0 }, done.1))
  unfolding handle handle_get_addr_secp256k1
  handle-valid c bs r h = rw (
    ltb-false (len bs) 5 (omega (arith, decode_request-length bs.elems r h.decodes)),
    h.decodes,
    validate-none r h.valid,
  )

  -- A valid request whose slice cannot reach 26 bytes and the announced length of the prefix
  -- makes the application panic, whatever the token is.
  pub short_request_panics :
      (c : Cosmos T) (bs : Slice) (r : GetAddressRequest)
      → HasRequest bs r
      → length (backing bs) < 26 + r.hrp_length
      → handle ops libs c cla_get_addr_secp256k1 bs ≡ panics
  unfolding valid_request hrp_from_get_address_request derivation_path_from_get_address_request
  short_request_panics c bs r h short =
      handle-valid c bs r h ∙ elim (dec_lt (length (backing bs)) (6 + r.hrp_length)) [
        | yes shorter ↦ rw (slice-panics bs 6 (uint8 (6 + r.hrp_length)) (omega (arith, h.valid)))
        | no enough ↦ rw (
          slice-returns bs 6 (uint8 (6 + r.hrp_length)) (omega (arith, h.valid))
              (omega (arith, h.valid)),
          slice-panics bs (uint8 (6 + r.hrp_length)) (uint8 (uint8 (6 + r.hrp_length) + 20))
              (omega (arith, h.valid)),
        )
      ]

  abbrev given_back : T → Outcome (Reply (Error E B)) → Outcome (T × Reply (Error E B))
  given_back t o = do answer ← o; returns (t, answer)

  abbrev Handled : Type 0
  Handled = Outcome (Cosmos T × Reply (Error E B))

  abbrev put_in : Cosmos T → Outcome (T × Reply (Error E B)) → Handled
  put_in c o = do done ← o; returns (record c { token = done.0 }, done.1)

  abbrev unchanged : Cosmos T → Outcome (Reply (Error E B)) → Handled
  unchanged c o = do answer ← o; returns (c, answer)

  put_back :
      (c : Cosmos T) (o : Outcome (Reply (Error E B)))
      → put_in c (given_back c.token o) ≡ unchanged c o
  put_back c panics = refl
  put_back c (returns answer) = refl

  -- A valid request whose slice can reach 26 bytes and the announced length of the prefix gets to
  -- the token, with the prefix that stands at byte 6 and a path read from the 20 bytes behind it.
  -- Only six bytes have to be in the message: the rest may lie behind its end.
  pub long_request_answers :
      (c : Cosmos T) (bs : Slice) (r : GetAddressRequest)
      → HasRequest bs r
      → 26 + r.hrp_length ≤ length (backing bs)
      → (path : DerivationPath) × (path_from (record {
        elems = take 20 (drop (6 + r.hrp_length) (backing bs));
        beyond = drop (26 + r.hrp_length) (backing bs);
      })
          ≡ returns path)
        × (handle ops libs c cla_get_addr_secp256k1 bs ≡ (do
          answer ←
              address_initialized ops libs
                (take r.hrp_length (drop 6 (backing bs)))
                (ops.initialize (ops.clone c.token) path)
          returns (c, answer)))
  unfolding valid_request derivation_path_from_get_address_request
  long_request_answers c bs r h enough =
      let (path, found) =
        path_from-returns (path_slice bs r) (length-path_slice bs r h.valid enough) in
      (
        path,
        found,
        handle-valid c bs r h
            ∙ rw (hrp_is bs r h.valid enough, base_is bs r h.valid enough, found)
                (put_back c (
                  address_initialized ops libs (take r.hrp_length (drop 6 (backing bs)))
                    (ops.initialize (ops.clone c.token) path))),
      )
