-- ===== src/Apps/SameRoutes.antt =====
-- The two maps of the registry seen as maps: the association lists that stand for them here have an
-- order, and entries behind others, that a Go map does not have.
pub mod Order
use wall_era.Common.{
  ℕ, ◌≡◌, ◌≢◌, ◌⊎◌, refl, sym, ap, ◌∙◌, subst, arith, true, false, Option, none, some, List, [],
  ◌∷◌, ◌==◌, if◌then◌else◌, inl, inr, Bool-cases, Option-cases, ==_iff, ==_ne,
}
use wall_era.Common.Go.{Outcome, returns, panics, ◌>>=◌, Slice}
use wall_era.Apps.{
  App, Reply, Capdu, Handler, Answer, RouteError, find_app, put_app, has_command, add_commands,
  is_some, unmarshal_capdu, mapping_exists, register_one, register, finish_reply, route, handle,
}
use wall_era.Apps.Routing.{find_app-put_app}

-- Both maps hold the same under every key.
pub record SameRoutes {S E : Type 0} (h h' : Handler S E) : Type 0 where
  pub same_apps : (k : ℕ) → find_app h.app_map k ≡ find_app h'.app_map k
  pub same_commands :
      (k c : ℕ) → has_command h.command_app_map k c ≡ has_command h'.command_app_map k c

-- The response and the error of an answer.
abbrev pub Said : Type 0 → Type 0
Said E = List ℕ × Option (RouteError E)

-- The answers to packets one after the other.
abbrev pub answers :
    {S E : Type 0}
    → (List ℕ → Option Capdu)
    → Handler S E
    → List Slice
    → Outcome (Handler S E × List (Said E))
answers unmarshal h [] = returns (h, [])
answers unmarshal h (bs ∷ rest) = do
  (h', answer, e) ← handle unmarshal h bs
  (last, more) ← answers unmarshal h' rest
  returns (last, (answer, e) ∷ more)

module _ {S E : Type 0} where
  -- Two outcomes that differ in the order of the maps only.
  abbrev SameAnswer : Outcome (Answer S E) → Outcome (Answer S E) → Type 0
  SameAnswer panics panics = Unit {0}
  SameAnswer (returns (h, a, e)) (returns (h', a', e')) = SameRoutes h h' × (a ≡ a') × (e ≡ e')
  SameAnswer panics (returns r) = ⊥
  SameAnswer (returns r) panics = ⊥

  abbrev pub SameRun :
      Outcome (Handler S E × List (Said E)) → Outcome (Handler S E × List (Said E)) → Type 0
  SameRun panics panics = Unit {0}
  SameRun (returns (h, said)) (returns (h', said')) = SameRoutes h h' × (said ≡ said')
  SameRun panics (returns r) = ⊥
  SameRun (returns r) panics = ⊥

  put_app-same :
      (m m' : List (ℕ × App S E)) (k : ℕ) (a : App S E)
      → ((j : ℕ) → find_app m j ≡ find_app m' j)
      → (j : ℕ) → find_app (put_app m k a) j ≡ find_app (put_app m' k a) j
  put_app-same m m' k a same j =
      find_app-put_app m k j a
      ∙ ap (λ (o : Option (App S E)). if k == j then some a else o) (same j)
      ∙ sym (find_app-put_app m' k j a)

  finish-same :
      (h h' : Handler S E) (k : ℕ) (a : App S E) (r : Outcome (S × Reply E))
      → SameRoutes h h'
      → SameAnswer
          (r >>= λ answer. returns (finish_reply h k a answer))
          (r >>= λ answer. returns (finish_reply h' k a answer))
  finish-same h h' k a panics same = tt
  finish-same h h' k a (returns (s, reply)) same = (
    record {
      same_apps = put_app-same h.app_map h'.app_map k (record a { state = s }) same.same_apps;
      same_commands = same.same_commands;
    },
    refl,
    refl,
  )

  route-same :
      (h h' : Handler S E) (bs : Slice) (packet : Capdu)
      → SameRoutes h h'
      → SameAnswer (route h bs packet) (route h' bs packet)
  route-same h h' bs packet same = elim (Option-cases (find_app h'.app_map packet.cla)) [
    | inl missing ↦ rw (same.same_apps packet.cla, missing) (same, refl, refl)
    | inr (a, found) ↦ elim (Bool-cases (has_command h'.command_app_map packet.cla packet.ins)) [
      | inr no_command ↦
          rw
            (same.same_apps packet.cla, found, same.same_commands packet.cla packet.ins, no_command)
            (same, refl, refl)
      | inl has ↦
          rw (same.same_apps packet.cla, found, same.same_commands packet.cla packet.ins, has)
            (finish-same h h' packet.cla a (a.handle a.state packet.ins bs) same)
    ]
  ]

  handle-same :
      (unmarshal : List ℕ → Option Capdu) (h h' : Handler S E) (bs : Slice)
      → SameRoutes h h'
      → SameAnswer (handle unmarshal h bs) (handle unmarshal h' bs)
  unfolding handle
  handle-same unmarshal h h' bs same = route-same h h' bs (unmarshal_capdu unmarshal bs.elems) same

  abbrev then_said :
      List ℕ
      → Option (RouteError E)
      → Outcome (Handler S E × List (Said E))
      → Outcome (Handler S E × List (Said E))
  then_said answer e o = do (last, more) ← o; returns (last, (answer, e) ∷ more)

  then_said-same :
      (answer : List ℕ) (e : Option (RouteError E)) (o o' : Outcome (Handler S E × List (Said E)))
      → SameRun o o'
      → SameRun (then_said answer e o) (then_said answer e o')
  then_said-same answer e panics panics same = tt
  then_said-same answer e (returns (h, said)) (returns (h', said')) (same, all) =
      (same, ap (λ (l : List (Said E)). (answer, e) ∷ l) all)
  then_said-same answer e panics (returns r) same = absurd same
  then_said-same answer e (returns r) panics same = absurd same

  abbrev on :
      (List ℕ → Option Capdu)
      → List Slice
      → Outcome (Answer S E)
      → Outcome (Handler S E × List (Said E))
  on unmarshal rest o = do (h, answer, e) ← o; then_said answer e (answers unmarshal h rest)

  on-same :
      (unmarshal : List ℕ → Option Capdu) (rest : List Slice) (o o' : Outcome (Answer S E))
      → ((h h' : Handler S E)
          → SameRoutes h h'
          → SameRun (answers unmarshal h rest) (answers unmarshal h' rest))
      → SameAnswer o o'
      → SameRun (on unmarshal rest o) (on unmarshal rest o')
  on-same unmarshal rest panics panics go same = tt
  on-same unmarshal rest (returns (h, a, e)) (returns (h', a', e')) go (same, sa, se) =
      rw (sa, se) (then_said-same a' e' _ _ (go h h' same))
  on-same unmarshal rest panics (returns r) go same = absurd same
  on-same unmarshal rest (returns r) panics go same = absurd same

  -- Two registries whose maps hold the same under every key answer every sequence of packets with
  -- the same responses and errors, whatever state the applications are in, or panic both; and their
  -- maps hold the same again after it. So the order of entries and the entries hidden behind others
  -- of the same key, which the lists have and the maps do not, are never seen.
  pub answers-SameRun :
      (unmarshal : List ℕ → Option Capdu) (packets : List Slice) (h h' : Handler S E)
      → SameRoutes h h'
      → SameRun (answers unmarshal h packets) (answers unmarshal h' packets)
  answers-SameRun unmarshal [] h h' same = (same, refl)
  answers-SameRun unmarshal (bs ∷ rest) h h' same =
      on-same unmarshal rest (handle unmarshal h bs) (handle unmarshal h' bs)
        (answers-SameRun unmarshal rest) (handle-same unmarshal h h' bs same)
