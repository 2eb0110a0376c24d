-- ===== src/Apps/SameRoutes/Order.antt =====
-- The order in which applications are registered.
use wall_era.Common.{
  ℕ, ◌≡◌, ◌≢◌, refl, sym, ap, ◌∙◌, arith, true, false, ◌&&◌, ◌||◌, Bool, Option, none, some, List,
  [], ◌∷◌, ◌==◌, if◌then◌else◌, ==_ne,
}
use wall_era.Common.Go.{Slice}
use wall_era.Apps.{
  App, Capdu, Handler, find_app, put_app, has_command, add_commands, is_some, register_one,
  register, mapping_exists,
}
use wall_era.Apps.Routing.{find_app-put_app}
use wall_era.Apps.SameRoutes.{SameRun, answers, answers-SameRun}

-- Whether this application has this command.
abbrev offers : ℕ → List ℕ → ℕ → ℕ → Bool
offers k [] j d = false
offers k (c ∷ cs) j d = (k == j && c == d) || offers k cs j d

has_command-all :
    (m : List (ℕ × ℕ)) (k : ℕ) (cs : List ℕ) (j d : ℕ)
    → has_command (add_commands m k cs) j d ≡ (offers k cs j d || has_command m j d)
has_command-all m k [] j d = refl
has_command-all m k (c ∷ cs) j d = ground (arith, has_command-all ((k, c) ∷ m) k cs j d)

tests_swap :
    {A : Type 0} (i j k : ℕ) (x y z : A)
    → i ≢ j
    → (if i == k then x else if j == k then y else z)
      ≡ (if j == k then y else if i == k then x else z)
tests_swap i j k x y z distinct = ground arith

or_swaps : (a b c : Bool) → (a || (b || c)) ≡ (b || (a || c))
or_swaps true true c = refl
or_swaps true false c = refl
or_swaps false true c = refl
or_swaps false false c = refl

module _ {S E : Type 0} (a b : App S E) (h : Handler S E) (distinct : a.id ≢ b.id)
    (free_a : mapping_exists h a.id ≡ false) (free_b : mapping_exists h b.id ≡ false) where
  free_behind :
      (x y : App S E)
      → y.id ≢ x.id
      → mapping_exists h x.id ≡ false
      → mapping_exists (register_one h y) x.id ≡ false
  free_behind x y other free =
      ap is_some (find_app-put_app h.app_map y.id x.id y) ∙ rw (==_ne y.id x.id other) free

  registers_both :
      (x y : App S E)
      → x.id ≢ y.id
      → mapping_exists h x.id ≡ false
      → mapping_exists h y.id ≡ false
      → register h (x ∷ y ∷ []) ≡ (register_one (register_one h x) y, none)
  unfolding register
  registers_both x y other free_x free_y = rw (free_x, free_behind y x other free_y) refl

  put_twice :
      (x y : App S E) (k : ℕ)
      → find_app (register_one (register_one h x) y).app_map k
        ≡ (if y.id == k then some y else if x.id == k then some x else find_app h.app_map k)
  put_twice x y k =
      find_app-put_app (put_app h.app_map x.id x) y.id k y
      ∙ ap (λ (o : Option (App S E)). if y.id == k then some y else o)
          (find_app-put_app h.app_map x.id k x)

  apps-swap :
      (k : ℕ)
      → find_app (register_one (register_one h a) b).app_map k
        ≡ find_app (register_one (register_one h b) a).app_map k
  apps-swap k =
      put_twice a b k
      ∙ tests_swap b.id a.id k (some b) (some a) (find_app h.app_map k) (λ e. distinct (sym e))
      ∙ sym (put_twice b a k)

  commands-swap :
      (k c : ℕ)
      → has_command (register_one (register_one h a) b).command_app_map k c
        ≡ has_command (register_one (register_one h b) a).command_app_map k c
  commands-swap k c =
      commands_twice a b k c
      ∙ or_swaps (offers b.id b.commands k c) (offers a.id a.commands k c)
          (has_command h.command_app_map k c)
      ∙ sym (commands_twice b a k c)
    where
      commands_twice :
          (x y : App S E) (j d : ℕ)
          → has_command (register_one (register_one h x) y).command_app_map j d ≡ (
              offers y.id y.commands j d
              || (offers x.id x.commands j d || has_command h.command_app_map j d))
      commands_twice x y j d =
          has_command-all (add_commands h.command_app_map x.id x.commands) y.id y.commands j d
          ∙ ap (λ (t : Bool). offers y.id y.commands j d || t)
              (has_command-all h.command_app_map x.id x.commands j d)

  -- Two applications with IDs that differ and that are free may be registered in either order:
  -- neither call returns an error, and every sequence of packets gets the same responses and errors
  -- from both registries, or makes both panic.
  pub answers-either_order :
      (unmarshal : List ℕ → Option Capdu) (packets : List Slice)
      → ((register h (a ∷ b ∷ [])).1 ≡ none)
        × ((register h (b ∷ a ∷ [])).1 ≡ none)
        × SameRun
            (answers unmarshal (register h (a ∷ b ∷ [])).0 packets)
            (answers unmarshal (register h (b ∷ a ∷ [])).0 packets)
  answers-either_order unmarshal packets =
      rw
        (
          registers_both a b distinct free_a free_b,
          registers_both b a (λ e. distinct (sym e)) free_b free_a,
        )
        (
          refl,
          refl,
          answers-SameRun unmarshal packets (register_one (register_one h a) b)
              (register_one (register_one h b) a)
              (record { same_apps = apps-swap; same_commands = commands-swap }),
        )
