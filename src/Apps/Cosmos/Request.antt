-- ===== src/Apps/Cosmos/Request.antt =====
-- An address request that is as long as it says.
use wall_era.Common.{
  ℕ, ◌+◌, ◌≡◌, refl, sym, ap, ◌∙◌, arith, none, List, ◌∷◌, ◌++◌, length, take, drop, append_assoc,
  length-append, take-append, drop-append, drop-drop,
}
use wall_era.Common.Go.{returns, ok, Slice, backing, exact}
use wall_era.Crypto.{DerivationPath, Token}
use wall_era.Apps.{apdu_success}
use wall_era.Apps.Cosmos.{
  Libraries, GetAddressRequest, Cosmos, cla_get_addr_secp256k1, path_from, handle,
  address_from_pubkey,
}
use wall_era.Apps.Cosmos.Path.{path_from-beyond}
use wall_era.Apps.Cosmos.Address.{IsRequest, long_request_answers}

-- The request with its prefix and the twenty bytes of its path.
abbrev pub address_bytes : GetAddressRequest → List ℕ → List ℕ → List ℕ
address_bytes r hrp path_bytes =
    0x55 ∷ 0x04 ∷ r.p1 ∷ r.p2 ∷ r.payload_length ∷ r.hrp_length ∷ (hrp ++ path_bytes)

abbrev pub address_in : GetAddressRequest → List ℕ → List ℕ → List ℕ → Slice
address_in r hrp path_bytes beyond = record {
  elems = address_bytes r hrp path_bytes;
  beyond = beyond;
}

module _ (r : GetAddressRequest) (hrp path_bytes beyond : List ℕ) (fits : length hrp ≡ r.hrp_length)
    (twenty : length path_bytes ≡ 20) where
  behind_header :
      drop 6 (backing (address_in r hrp path_bytes beyond)) ≡ hrp ++ (path_bytes ++ beyond)
  behind_header = append_assoc hrp path_bytes beyond

  hrp_at_6 : take r.hrp_length (drop 6 (backing (address_in r hrp path_bytes beyond))) ≡ hrp
  hrp_at_6 =
      ap (take r.hrp_length) behind_header
      ∙ take-append hrp (path_bytes ++ beyond) r.hrp_length (sym fits)

  behind_hrp :
      drop (6 + r.hrp_length) (backing (address_in r hrp path_bytes beyond)) ≡ path_bytes ++ beyond
  behind_hrp =
      sym (
        drop-drop r.hrp_length 6 (6 + r.hrp_length) (backing (address_in r hrp path_bytes beyond))
          refl)
      ∙ ap (drop r.hrp_length) behind_header
      ∙ drop-append hrp (path_bytes ++ beyond) r.hrp_length (sym fits)

  path_behind_hrp :
      take 20 (drop (6 + r.hrp_length) (backing (address_in r hrp path_bytes beyond))) ≡ path_bytes
  path_behind_hrp = ap (take 20) behind_hrp ∙ take-append path_bytes beyond 20 (sym twenty)

  long_enough : 26 + r.hrp_length ≡ length (address_bytes r hrp path_bytes)
  long_enough = omega (arith, length-append hrp path_bytes, fits, twenty)

module _ {T E B : Type 0} (ops : Token T E) (libs : Libraries B) where
  -- The answer is the public key and the address, and the application is as before.
  pub address_request-answers :
      (c : Cosmos T) (r : GetAddressRequest) (hrp path_bytes beyond pubkey address : List ℕ)
      (path : DerivationPath) (t : T)
      → IsRequest r
      → length hrp ≡ r.hrp_length
      → length path_bytes ≡ 20
      → path_from (exact path_bytes) ≡ returns path
      → ops.initialize (ops.clone c.token) path ≡ (t, none)
      → ops.public_key t ≡ returns (ok pubkey)
      → address_from_pubkey ops libs pubkey hrp ≡ ok address
      → handle ops libs c cla_get_addr_secp256k1 (address_in r hrp path_bytes beyond)
        ≡ returns (c, record { response = pubkey ++ address; code = apdu_success; error = none })
  address_request-answers c r hrp path_bytes beyond pubkey address path t valid fits twenty reads
        takes shows encodes =
      let (path', found, run) =
        long_request_answers ops libs c (address_in r hrp path_bytes beyond) r
          (record { decodes = refl; valid = valid })
          (omega (
            arith,
            long_enough r hrp path_bytes beyond fits twenty,
            length-append (address_bytes r hrp path_bytes) beyond,
          )) in
      let same : returns path' ≡ returns path =
        sym found
        ∙ ap
            (λ (bs : List ℕ). path_from (record {
              elems = bs;
              beyond = drop (26 + r.hrp_length) (backing (address_in r hrp path_bytes beyond));
            }))
            (path_behind_hrp r hrp path_bytes beyond fits twenty)
        ∙ path_from-beyond path_bytes _ path (omega arith) reads in
      let paths : path' ≡ path = cc in
      run ∙ rw (hrp_at_6 r hrp path_bytes beyond fits twenty, paths, takes, shows, encodes)
