-- ===== src/Apps/Routing.antt =====
-- Which application a packet reaches, and what the host gets.
use mathlib.Core.List.{Memᴰ}
use wall_era.Common.{
  ℕ, ◌≡◌, ◌⊎◌, refl, ap, ◌∙◌, subst, arith, true, false, Option, none, some, List, [], ◌∷◌, ◌++◌,
  ◌==◌, if◌then◌else◌, inl, inr, Bool-cases, Option-cases, ==_iff, ==_refl,
}
use wall_era.Common.Go.{Outcome, returns, panics, ◌>>=◌, Slice}
use wall_era.Common.Bytes.{put_uint16_be}
use wall_era.Apps.{
  App, Reply, Capdu, Handler, Answer, RouteError, app_not_supported, command_not_supported,
  find_app, put_app, has_command, add_commands, is_some, package_response, unmarshal_capdu,
  mapping_exists, register_one, register, finish_reply, route, handle, to_route_error,
  apdu_cla_not_supported,
}

module _ {S E : Type 0} where
  pub find_app-put_app :
      (m : List (ℕ × App S E)) (k j : ℕ) (a : App S E)
      → find_app (put_app m k a) j ≡ (if k == j then some a else find_app m j)
  find_app-put_app [] k j a = refl
  find_app-put_app ((i, b) ∷ m) k j a = ground (arith, find_app-put_app m k j a)

  kept_beside :
      (m : List (ℕ × App S E)) (j k : ℕ) (a b : App S E)
      → find_app m k ≡ some a
      → is_some (find_app m j) ≡ false
      → (if j == k then some b else find_app m k) ≡ some a
  kept_beside m j k a b e free = elim (Bool-cases (j == k)) [
    | inr other ↦ rw other e
    | inl same ↦
        cc (free, ap (λ (i : ℕ). is_some (find_app m i)) ((==_iff j k).0 same), ap is_some e)
  ]

  -- An application stays registered, with its commands, whatever is registered after it.
  register-keeps_app :
      (h : Handler S E) (apps : List (App S E)) (k : ℕ) (a : App S E)
      → find_app h.app_map k ≡ some a
      → find_app (register h apps).0.app_map k ≡ some a
  unfolding register
  register-keeps_app h [] k a e = e
  register-keeps_app h (b ∷ apps) k a e = elim (Bool-cases (mapping_exists h b.id)) [
    | inl taken ↦ rw taken e
    | inr free ↦ rw free (
        register-keeps_app (register_one h b) apps k a
          (find_app-put_app h.app_map b.id k b ∙ kept_beside h.app_map b.id k a b e free))
  ]

has_command-add_commands :
    (m : List (ℕ × ℕ)) (k : ℕ) (cs : List ℕ) (j d : ℕ)
    → has_command m j d ≡ true
    → has_command (add_commands m k cs) j d ≡ true
has_command-add_commands m k [] j d h = h
has_command-add_commands m k (c ∷ cs) j d h =
    has_command-add_commands ((k, c) ∷ m) k cs j d (ground arith)

has_command-added :
    (m : List (ℕ × ℕ)) (k : ℕ) (cs : List ℕ) (d : ℕ)
    → Memᴰ d cs
    → has_command (add_commands m k cs) k d ≡ true
has_command-added m k [] d h = elim h [ ]
has_command-added m k (c ∷ cs) d (Memᴰ.head e) =
    has_command-add_commands ((k, c) ∷ m) k cs k d (ground arith)
has_command-added m k (c ∷ cs) d (Memᴰ.tail h) = has_command-added ((k, c) ∷ m) k cs d h

module _ {S E : Type 0} where
  register-keeps_command :
      (h : Handler S E) (apps : List (App S E)) (k c : ℕ)
      → has_command h.command_app_map k c ≡ true
      → has_command (register h apps).0.command_app_map k c ≡ true
  unfolding register
  register-keeps_command h [] k c e = e
  register-keeps_command h (b ∷ apps) k c e = elim (Bool-cases (mapping_exists h b.id)) [
    | inl taken ↦ rw taken e
    | inr free ↦ rw free (
        register-keeps_command (register_one h b) apps k c
          (has_command-add_commands h.command_app_map b.id b.commands k c e))
  ]

  registered_head :
      (h : Handler S E) (b : App S E) (apps : List (App S E)) (c : ℕ)
      → Memᴰ c b.commands
      → (find_app (register (register_one h b) apps).0.app_map b.id ≡ some b)
        × (has_command (register (register_one h b) apps).0.command_app_map b.id c ≡ true)
  registered_head h b apps c mc = (
    register-keeps_app (register_one h b) apps b.id b
        (find_app-put_app h.app_map b.id b.id b ∙ rw (==_refl b.id)),
    register-keeps_command (register_one h b) apps b.id c
        (has_command-added h.command_app_map b.id b.commands c mc),
  )

  -- Registration without an error registers every application of the list, with every command.
  pub register-registers :
      (h : Handler S E) (apps : List (App S E)) (a : App S E) (c : ℕ)
      → (register h apps).1 ≡ none
      → Memᴰ a apps
      → Memᴰ c a.commands
      → (find_app (register h apps).0.app_map a.id ≡ some a)
        × (has_command (register h apps).0.command_app_map a.id c ≡ true)
  unfolding register
  register-registers h [] a c done m mc = elim m [ ]
  register-registers h (b ∷ apps) a c done (Memᴰ.head e) mc =
      elim (Bool-cases (mapping_exists h b.id)) [
        | inl taken ↦ cc (rw taken at done)
        | inr free ↦
            rw (free, e)
              (registered_head h b apps c (subst (λ (x : App S E). Memᴰ c x.commands) e mc))
      ]
  register-registers h (b ∷ apps) a c done (Memᴰ.tail t) mc =
      elim (Bool-cases (mapping_exists h b.id)) [
        | inl taken ↦ cc (rw taken at done)
        | inr free ↦ rw free (register-registers (register_one h b) apps a c (rw free at done) t mc)
      ]

  pub handle-parsed :
      (unmarshal : List ℕ → Option Capdu) (h : Handler S E) (bs : Slice) (packet : Capdu)
      → unmarshal bs.elems ≡ some packet
      → handle unmarshal h bs ≡ route h bs packet
  unfolding handle
  handle-parsed unmarshal h bs packet parsed = ap (route h bs) (rw (parsed, unmarshal_capdu))

  abbrev pub routed : Handler S E → App S E → ℕ → S → Reply E → Answer S E
  routed h a k s' reply = (
    record h { app_map = put_app h.app_map k (record a { state = s' }) },
    package_response reply.response reply.code,
    to_route_error reply.error,
  )

  pub route-found :
      (h : Handler S E) (a : App S E) (bs : Slice) (packet : Capdu) (s' : S) (reply : Reply E)
      → find_app h.app_map packet.cla ≡ some a
      → has_command h.command_app_map packet.cla packet.ins ≡ true
      → a.handle a.state packet.ins bs ≡ returns (s', reply)
      → route h bs packet ≡ returns (routed h a packet.cla s' reply)
  route-found h a bs packet s' reply found has run = rw (found, has, run)

  -- A packet for a registered application and one of its commands reaches that application's
  -- handler: the host gets its response followed by its code, the application's new state is
  -- kept for the next packet, and no other application changes.
  pub handle-registered :
      (unmarshal : List ℕ → Option Capdu) (h : Handler S E) (apps : List (App S E)) (a : App S E)
      (bs : Slice) (packet : Capdu) (s' : S) (reply : Reply E)
      → (register h apps).1 ≡ none
      → Memᴰ a apps
      → unmarshal bs.elems ≡ some packet
      → packet.cla ≡ a.id
      → Memᴰ packet.ins a.commands
      → a.handle a.state packet.ins bs ≡ returns (s', reply)
      → (h' : Handler S E) × (handle unmarshal (register h apps).0 bs
          ≡ returns (h', reply.response ++ put_uint16_be reply.code, to_route_error reply.error))
        × ((j : ℕ)
            → find_app h'.app_map j ≡ (
                if a.id == j
                then some (record a { state = s' })
                else find_app (register h apps).0.app_map j))
  unfolding package_response
  handle-registered unmarshal h apps a bs packet s' reply done m parsed to_a mc run =
      let (found, has) = register-registers h apps a packet.ins done m mc in
      let h' : Handler S E = (routed (register h apps).0 a a.id s' reply).0 in
      (
        h',
        handle-parsed unmarshal (register h apps).0 bs packet parsed
            ∙ route-found (register h apps).0 a bs packet s' reply (rw to_a found) (rw to_a has) run
            ∙ ap (λ (k : ℕ). returns (routed (register h apps).0 a k s' reply)) to_a,
        λ j. find_app-put_app (register h apps).0.app_map a.id j (record a { state = s' }),
      )

  abbrev IsPackaged : Outcome (Answer S E) → Type 0
  IsPackaged panics = Unit {0}
  IsPackaged (returns (h, answer, e)) =
      (body : List ℕ) × (code : ℕ) × (answer ≡ body ++ put_uint16_be code)

  finish-IsPackaged :
      (h : Handler S E) (k : ℕ) (a : App S E) (r : Outcome (S × Reply E))
      → IsPackaged (r >>= λ answer. returns (finish_reply h k a answer))
  unfolding package_response
  finish-IsPackaged h k a panics = tt
  finish-IsPackaged h k a (returns (s', reply)) = (reply.response, reply.code, refl)

  route-IsPackaged :
      (h : Handler S E) (bs : Slice) (packet : Capdu) → IsPackaged (route h bs packet)
  unfolding package_response
  route-IsPackaged h bs packet = elim (Option-cases (find_app h.app_map packet.cla)) [
    | inl missing ↦ rw missing ([], apdu_cla_not_supported, refl)
    | inr (a, found) ↦ elim (Bool-cases (has_command h.command_app_map packet.cla packet.ins)) [
      | inr no_command ↦ rw (found, no_command) ([], apdu_cla_not_supported, refl)
      | inl has ↦
          rw (found, has) (finish-IsPackaged h packet.cla a (a.handle a.state packet.ins bs))
    ]
  ]

  -- Every answer of `Handle` is a body and a two-byte code, so it is never the nil that the
  -- callers test for.
  pub handle-answers :
      (unmarshal : List ℕ → Option Capdu) (h h' : Handler S E) (bs : Slice) (answer : List ℕ)
      (e : Option (RouteError E))
      → handle unmarshal h bs ≡ returns (h', answer, e)
      → (body : List ℕ) × (code : ℕ) × (answer ≡ body ++ put_uint16_be code)
  unfolding handle
  handle-answers unmarshal h h' bs answer e run =
      subst IsPackaged run (route-IsPackaged h bs (unmarshal_capdu unmarshal bs.elems))

  -- A packet for an unknown application, or for a command that its application does not have,
  -- is answered with the two bytes 6E 00 and changes nothing.
  pub handle-refuses :
      (unmarshal : List ℕ → Option Capdu) (h : Handler S E) (bs : Slice) (packet : Capdu)
      → unmarshal bs.elems ≡ some packet
      → (find_app h.app_map packet.cla ≡ none)
        ⊎ (has_command h.command_app_map packet.cla packet.ins ≡ false)
      → (e : RouteError E) × (handle unmarshal h bs ≡ returns (h, 0x6E ∷ 0x00 ∷ [], some e))
  unfolding package_response
  handle-refuses unmarshal h bs packet parsed (inl missing) =
      (app_not_supported packet.cla, handle-parsed unmarshal h bs packet parsed ∙ rw missing)
  handle-refuses unmarshal h bs packet parsed (inr no_command) =
      elim (Option-cases (find_app h.app_map packet.cla)) [
        | inl missing ↦
            (app_not_supported packet.cla, handle-parsed unmarshal h bs packet parsed ∙ rw missing)
        | inr (a, found) ↦ (
          command_not_supported packet.ins packet.cla,
          handle-parsed unmarshal h bs packet parsed ∙ rw (found, no_command),
        )
      ]
