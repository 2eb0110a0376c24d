-- ===== src/Apps/Cosmos/State.antt =====
-- What every packet leaves of the Cosmos application's state.
use wall_era.Common.{
  ℕ, ◌≤◌, ◌≡◌, refl, subst, Bool, true, false, not, ◌&&◌, Option, none, some, ◌==◌, ltb, ltb-false,
  if◌then◌else◌,
}
use wall_era.Common.Go.{Outcome, returns, panics, ◌>>=◌, Slice, len, index, slice_from}
use wall_era.Crypto.{DerivationPath, Token}
use wall_era.Apps.{Reply}
use wall_era.Apps.Cosmos.{
  Error, Libraries, SignatureSession, Cosmos, cla_sign_secp256k1, handle, handle_sign_secp256k1,
  handle_get_addr_secp256k1, sign_session, sign_initialized, conclude, in_session, clone_token,
  with_session_token, GetAddressRequest, validate, validated, valid_request,
  hrp_from_get_address_request, derivation_path_from_get_address_request, address_initialized,
  begin_session, update_session, decoded, decode_request, is_nil,
}

module _ {S R : Type 0} (P : S → Type 0) where
  -- If the code returns, the state that it returns satisfies `P`.
  abbrev pub Ensures : Outcome (S × R) → Type 0
  Ensures panics = Unit {0}
  Ensures (returns (c, r)) = P c

  Ensures-bind :
      {A : Type 0} (o : Outcome A) (f : A → Outcome (S × R))
      → ((a : A) → Ensures (f a))
      → Ensures (o >>= f)
  Ensures-bind panics f h = tt
  Ensures-bind (returns a) f h = h a

  Ensures-if :
      (b : Bool) (x y : Outcome (S × R)) → Ensures x → Ensures y → Ensures (if b then x else y)
  Ensures-if true x y h k = h
  Ensures-if false x y h k = k

module _ {T E B : Type 0} (ops : Token T E) (libs : Libraries B) where
  abbrev SameToken : Cosmos T → Cosmos T → Type 0
  SameToken c c' = c'.token ≡ c.token

  -- The session token is written to, and not the token `t` of the application.
  session_token-kept :
      (t : T) (path : DerivationPath) (use_token : T × Option E → Outcome (Reply (Error E B)))
      → Ensures (λ t'. t' ≡ t) (with_session_token ops libs (clone_token ops libs t) path use_token)
  session_token-kept t path use_token =
      Ensures-bind (λ t'. t' ≡ t) (use_token (ops.initialize (ops.clone t) path)) _ (λ answer. refl)

  put_back-SameToken :
      (c : Cosmos T) (k : Option SignatureSession) (o : Outcome (T × Reply (Error E B)))
      → Ensures (λ t. t ≡ c.token) o
      → Ensures (SameToken c) (do
        done ← o
        returns (record c { token = done.0; current_signature_session = k }, done.1))
  put_back-SameToken c k panics h = tt
  put_back-SameToken c k (returns (t, answer)) h = h

  conclude-SameToken :
      (c : Cosmos T) (descr : ℕ) (s : SignatureSession)
      → Ensures (SameToken c) (conclude ops libs c descr s)
  conclude-SameToken c descr s = Ensures-if (SameToken c) (not (descr == 2)) _ _ refl (
      put_back-SameToken c none (sign_session ops libs c.token s)
        (session_token-kept c.token s.derivation_path (sign_initialized ops libs s)))

  in_session-SameToken :
      (c : Cosmos T) (descr : ℕ) (payload : Slice) (s : Option SignatureSession)
      → Ensures (SameToken c) (in_session ops libs c descr payload s)
  in_session-SameToken c descr payload none = tt
  in_session-SameToken c descr payload (some s) =
      Ensures-bind (SameToken c) (update_session descr payload s) _ (conclude-SameToken c descr)

  sign-SameToken :
      (c : Cosmos T) (bs : Slice) → Ensures (SameToken c) (handle_sign_secp256k1 ops libs c bs)
  unfolding handle_sign_secp256k1
  sign-SameToken c bs = Ensures-bind (SameToken c) (index bs 2) _ λ descr.
      Ensures-if (SameToken c) (is_nil c.current_signature_session && not (descr == 0)) _ _ refl (
        Ensures-bind (SameToken c) (slice_from bs 5) _ λ payload.
          in_session-SameToken c descr payload (begin_session descr c.current_signature_session))

  validated-kept :
      (t : T) (req : GetAddressRequest) (bs : Slice) (e : Option (Error E B))
      → Ensures (λ t'. t' ≡ t) (validated ops libs t req bs e)
  unfolding valid_request
  validated-kept t req bs (some e) = refl
  validated-kept t req bs none =
      Ensures-bind (λ t'. t' ≡ t) (hrp_from_get_address_request req bs) _
        λ hrp.
          Ensures-bind (λ t'. t' ≡ t) (derivation_path_from_get_address_request req bs) _
            λ path. session_token-kept t path (address_initialized ops libs hrp.elems)

  decoded-kept :
      (t : T) (bs : Slice) (r : Option GetAddressRequest)
      → Ensures (λ t'. t' ≡ t) (decoded ops libs t bs r)
  decoded-kept t bs none = refl
  decoded-kept t bs (some req) = validated-kept t req bs (validate ops libs req)

  address-SameToken :
      (c : Cosmos T) (bs : Slice) → Ensures (SameToken c) (handle_get_addr_secp256k1 ops libs c bs)
  unfolding handle_get_addr_secp256k1
  address-SameToken c bs =
      put_back-SameToken c c.current_signature_session
        (decoded ops libs c.token bs (decode_request bs.elems))
        (decoded-kept c.token bs (decode_request bs.elems))

  handle-SameToken :
      (c : Cosmos T) (cmd : ℕ) (bs : Slice) → Ensures (SameToken c) (handle ops libs c cmd bs)
  unfolding handle
  handle-SameToken c cmd bs = Ensures-if (SameToken c) (ltb (len bs) 5) _ _ refl (
      Ensures-if (SameToken c) (cmd == 0) _ _ refl (
        Ensures-if (SameToken c) (cmd == 2) _ _ (sign-SameToken c bs)
          (Ensures-if (SameToken c) (cmd == 4) _ _ (address-SameToken c bs) refl)))

  -- Every packet that is answered leaves the application's own token as it was.
  pub handle-keeps_token :
      (c c' : Cosmos T) (cmd : ℕ) (bs : Slice) (r : Reply (Error E B))
      → handle ops libs c cmd bs ≡ returns (c', r)
      → c'.token ≡ c.token
  handle-keeps_token c c' cmd bs r run =
      subst (Ensures (SameToken c)) run (handle-SameToken c cmd bs)

  abbrev NoSession : Cosmos T → Type 0
  NoSession c = c.current_signature_session ≡ none

  last-NoSession :
      (c : Cosmos T) (payload : Slice) (s : SignatureSession)
      → Ensures NoSession (in_session ops libs c 2 payload (some s))
  last-NoSession c payload s =
      Ensures-bind NoSession (sign_session ops libs c.token _) _ (λ answer. refl)

  -- A `last` packet that is answered leaves no session, however the signature ends.
  pub last-drops_session :
      (c c' : Cosmos T) (bs : Slice) (s : SignatureSession) (r : Reply (Error E B))
      → c.current_signature_session ≡ some s
      → 5 ≤ len bs
      → index bs 2 ≡ returns 2
      → handle ops libs c cla_sign_secp256k1 bs ≡ returns (c', r)
      → c'.current_signature_session ≡ none
  unfolding handle handle_sign_secp256k1
  last-drops_session c c' bs s r open_session long third run = subst (Ensures NoSession) run (
      rw (ltb-false (len bs) 5 long, third, open_session)
        (Ensures-bind NoSession (slice_from bs 5) _ (λ payload. last-NoSession c payload s)))
