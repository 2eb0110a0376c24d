-- ===== src/Apps/Cosmos/Signing.antt =====
-- The signature session of the Cosmos application, over the packets of one signature.
use wall_era.Common.{
  ℕ, ◌≤◌, ◌≡◌, ◌≢◌, refl, sym, ap, ◌∙◌, arith, Bool, true, false, ◌&&◌, none, some, List, [], ◌∷◌,
  ◌++◌, length, append-nil, append_assoc, concat, map, ==_ne, length-append, take-append,
  drop-append, ltb-false,
}
use wall_era.Common.Go.{Outcome, returns, ◌>>=◌, ok, Slice, len, index, slice_from, exact}
use wall_era.Crypto.{DerivationPath, Token, algo_secp256k1}
use wall_era.Apps.{apdu_execution_error, apdu_success}
use wall_era.Apps.Cosmos.{
  wrong_description, Libraries, Cosmos, cla_sign_secp256k1, path_from, handle,
  handle_sign_secp256k1, sign_session, is_nil,
}

-- A packet of the sign command: five bytes of header, of which the third is the description and
-- the last the length of what follows.
abbrev pub sign_bytes : ℕ → List ℕ → List ℕ
sign_bytes descr body = 0x55 ∷ 0x02 ∷ descr ∷ 0 ∷ length body ∷ body

abbrev pub sign_packet : ℕ → List ℕ → Slice
sign_packet descr body = exact (sign_bytes descr body)

-- The same packet at the front of a longer array.
abbrev pub packet_in : ℕ → List ℕ → List ℕ → Slice
packet_in descr body beyond = record { elems = sign_bytes descr body; beyond = beyond }

pub slice_from_header :
    (a b c d e : ℕ) (body beyond : List ℕ)
    → slice_from (record { elems = a ∷ b ∷ c ∷ d ∷ e ∷ body; beyond = beyond }) 5
      ≡ returns (record { elems = body; beyond = beyond })
unfolding slice_from
slice_from_header a b c d e body beyond = ground (
  arith,
  length-append body beyond,
  take-append body beyond (length body) refl,
  drop-append body beyond (length body) refl,
)

and-false : (b : Bool) → (b && false) ≡ false
and-false true = refl
and-false false = refl

module _ {T E B : Type 0} (ops : Token T E) (libs : Libraries B) where
  -- The application's answers to packets, as long as it does not panic.
  abbrev pub send_all : Cosmos T → List Slice → Outcome (Cosmos T)
  send_all c [] = returns c
  send_all c (bs ∷ more) = do
    answer ← handle ops libs c cla_sign_secp256k1 bs
    send_all answer.0 more

  abbrev pub with_session : Cosmos T → DerivationPath → List ℕ → Cosmos T
  with_session c path bs = record c {
    current_signature_session = some (record { derivation_path = path; payload = bs });
  }

  pub handle_init :
      (c : Cosmos T) (body beyond : List ℕ) (path : DerivationPath)
      → path_from (record { elems = body; beyond = beyond }) ≡ returns path
      → handle ops libs c cla_sign_secp256k1 (packet_in 0 body beyond)
        ≡ returns
            (with_session c path [], record { response = []; code = apdu_success; error = none })
  unfolding handle handle_sign_secp256k1
  handle_init c body beyond path e = rw (
    ltb-false (len (packet_in 0 body beyond)) 5 (omega arith),
    slice_from_header 0x55 0x02 0 0 (length body) body beyond,
    and-false (is_nil c.current_signature_session),
    e,
  )

  pub handle_add :
      (c : Cosmos T) (body beyond got : List ℕ) (path : DerivationPath)
      → handle ops libs (with_session c path got) cla_sign_secp256k1 (packet_in 1 body beyond)
        ≡ returns (
          with_session c path (got ++ body),
          record { response = []; code = apdu_success; error = none },
        )
  unfolding handle handle_sign_secp256k1
  handle_add c body beyond got path = rw (
    ltb-false (len (packet_in 1 body beyond)) 5 (omega arith),
    slice_from_header 0x55 0x02 1 0 (length body) body beyond,
  )

  send_adds :
      (c : Cosmos T) (path : DerivationPath) (got : List ℕ) (bodies : List (List ℕ))
      → send_all (with_session c path got) (map (sign_packet 1) bodies)
        ≡ returns (with_session c path (got ++ concat bodies))
  send_adds c path got [] =
      ap (λ (t : List ℕ). returns (with_session c path t)) (sym (append-nil got))
  send_adds c path got (body ∷ bodies) = rw (handle_add c body [] got path) (
      send_adds c path (got ++ body) bodies
      ∙ ap (λ (t : List ℕ). returns (with_session c path t))
          (append_assoc got body (concat bodies)))

  pub handle_last :
      (c : Cosmos T) (body beyond got : List ℕ) (path : DerivationPath)
      → handle ops libs (with_session c path got) cla_sign_secp256k1 (packet_in 2 body beyond) ≡ (do
        done ←
            sign_session ops libs c.token (record { derivation_path = path; payload = got ++ body })
        returns (record c { token = done.0; current_signature_session = none }, done.1))
  unfolding handle handle_sign_secp256k1
  handle_last c body beyond got path = rw (
    ltb-false (len (packet_in 2 body beyond)) 5 (omega arith),
    slice_from_header 0x55 0x02 2 0 (length body) body beyond,
  )

  -- An `init` packet with a path, any number of `add` packets and a `last` packet, in any state of
  -- the application, are answered in the end with the token's signature of the SHA-256 of all the
  -- bytes of the `add` packets and of the `last` packet, in order, if they are JSON and the clone
  -- of the token takes the path. No session is left, and the application's token is as before.
  pub sign_flow :
      (c : Cosmos T) (path_bytes last : List ℕ) (bodies : List (List ℕ)) (path : DerivationPath)
      (t : T) (signature : List ℕ)
      → path_from (exact path_bytes) ≡ returns path
      → ops.initialize (ops.clone c.token) path ≡ (t, none)
      → libs.json_valid (concat bodies ++ last) ≡ true
      → ops.sign t (libs.sha256 (concat bodies ++ last)) algo_secp256k1 ≡ returns (ok signature)
      → (do
        c' ← send_all c (sign_packet 0 path_bytes ∷ map (sign_packet 1) bodies)
        handle ops libs c' cla_sign_secp256k1 (sign_packet 2 last))
        ≡ returns (
          record c { current_signature_session = none },
          record { response = signature; code = apdu_success; error = none },
        )
  sign_flow c path_bytes last bodies path t signature p i j s =
      rw (handle_init c path_bytes [] path p, send_adds c path [] bodies)
        (handle_last c last [] (concat bodies) path ∙ rw (i, j, s))

  -- Without a session, an `add`, `last` or unknown packet is refused and changes nothing.
  pub no_session_refused :
      (c : Cosmos T) (bs : Slice) (descr : ℕ)
      → c.current_signature_session ≡ none
      → 5 ≤ len bs
      → index bs 2 ≡ returns descr
      → descr ≢ 0
      → handle ops libs c cla_sign_secp256k1 bs
        ≡ returns (
          c,
          record {
            response = [];
            code = apdu_execution_error;
            error = some (wrong_description descr);
          },
        )
  unfolding handle handle_sign_secp256k1
  no_session_refused c bs descr nil long third other =
      rw (ltb-false (len bs) 5 long, third, nil, ==_ne descr 0 other)
