-- ===== src/Tz/Boot/Start.antt =====
-- With what the non-secure world is started.
use wall_era.Common.{
  ℕ, ◌≡◌, refl, ap, ◌∙◌, true, false, Bool, inl, inr, Option-cases, List, [], ◌∷◌, Option, none,
  some, if◌then◌else◌,
}
use wall_era.Common.Go.{ok}
use wall_era.Tz.{Context, new_context}
use wall_era.Tz.Config.{Soc, Call, configure_trust_zone, secure_world, non_secure_world}
use wall_era.Tz.Config.Memory.{strongest, is_secure, configure-isolates}
use wall_era.Tz.Boot.{
  image_loaded, Image, applet_region, non_secure_region, Loader, BootError, Started, boot,
  register_app, load_nonsecure_world, started, app_registered, registered_image, world_loaded,
  configured,
}

module _ {L E : Type 0} (loader : Loader L) (fails : List Call → Call → Option E) (soc : Soc) where
  -- The start went through with this context, and the configuration without an error.
  abbrev StartsWith : Context → List Call × Option E → Started → Type 0
  StartsWith c r s = (s.context ≡ c) × (s.calls ≡ r.0) × (r.1 ≡ none)

  configured-fine :
      (c : Context) (r : List Call × Option E) (s : Started)
      → started loader fails soc true c (configured loader fails soc true r) ≡ ok s
      → StartsWith c r s
  configured-fine c (calls, none) s h = (cc, cc, refl)
  configured-fine c (calls, some e) s h = (cc, cc, cc)

  world_loaded-fine :
      (c : Context) (e : Option (BootError L E)) (s : Started)
      → started loader fails soc true c (world_loaded loader fails soc true [] e) ≡ ok s
      → StartsWith c (configure_trust_zone fails soc true true []) s
  world_loaded-fine c none s h = configured-fine c (configure_trust_zone fails soc true true []) s h
  world_loaded-fine c (some e) s h = (cc, cc, cc)

  app_registered-fine :
      (os_elf : List ℕ) (app_id : ℕ) (e : Option L) (s : Started)
      → app_registered loader fails soc true os_elf
          (registered_image loader fails soc true new_context app_id e)
        ≡ ok s
      → StartsWith
          (record new_context { apps = app_id ∷ [] })
          (configure_trust_zone fails soc true true [])
          s
  unfolding load_nonsecure_world
  app_registered-fine os_elf app_id none s h = world_loaded-fine _ _ s h
  app_registered-fine os_elf app_id (some e) s h = (cc, cc, cc)

  image_loaded-fine :
      (image : Image) (secure : Bool) (r : Option L)
      → image_loaded loader fails soc true image secure r ≡ none
      → (r ≡ none) × (loader.make_context image secure ≡ none)
  image_loaded-fine image secure (some e) h = (cc, cc)
  image_loaded-fine image secure none h = elim (Option-cases (loader.make_context image secure)) [
    | inl made ↦ (refl, made)
    | inr (e, fails) ↦ cc (rw fails at h)
  ]

  world_loaded-none :
      (c : Context) (e : Option (BootError L E)) (s : Started)
      → started loader fails soc true c (world_loaded loader fails soc true [] e) ≡ ok s
      → e ≡ none
  world_loaded-none c none s h = refl
  world_loaded-none c (some e) s h = cc

  -- The image of the non-secure world was loaded, and has a context that is not secure.
  abbrev pub WorldLoaded : List ℕ → Type 0
  WorldLoaded os_elf =
      (loader.load_image (record { region = non_secure_region; elf = os_elf }) ≡ none)
      × (loader.make_context (record { region = non_secure_region; elf = os_elf }) false ≡ none)

  app_registered-loads :
      (os_elf : List ℕ) (app_id : ℕ) (e : Option L) (s : Started)
      → app_registered loader fails soc true os_elf
          (registered_image loader fails soc true new_context app_id e)
        ≡ ok s
      → (e ≡ none) × WorldLoaded os_elf
  unfolding load_nonsecure_world
  app_registered-loads os_elf app_id none s h =
      (refl, image_loaded-fine _ false _ (world_loaded-none _ _ s h))
  app_registered-loads os_elf app_id (some e) s h = (cc, (cc, cc))

  -- A start that returns no error has loaded both images into the regions for them.
  pub boot-loads :
      (ta_elf os_elf : List ℕ) (applet_id : ℕ) (s : Started)
      → boot loader fails soc true ta_elf os_elf applet_id ≡ ok s
      → (loader.load_image (record { region = applet_region; elf = ta_elf }) ≡ none)
        × WorldLoaded os_elf
  unfolding boot register_app
  boot-loads ta_elf os_elf applet_id s h = app_registered-loads os_elf applet_id _ s h

  -- On the board, a start that returns no error leaves the applet as the only registered
  -- application, with both mailboxes empty, and leaves exactly the memory of the secure system, its
  -- DMA memory and the memory of the applet to the secure world, everything else to both: the
  -- loaded operating system cannot run on an open memory. `attributes calls a` is what the
  -- controller of the memory grants at an address after some calls; by its documentation it
  -- follows, of the regions that contain the address, the one with the highest number.
  pub boot-isolates :
      (attributes : List Call → ℕ → ℕ)
      → ((calls : List Call) (b n x : ℕ) → strongest calls b ≡ some (n, x) → attributes calls b ≡ x)
      → (ta_elf os_elf : List ℕ) (applet_id : ℕ) (s : Started) (a : ℕ)
      → boot loader fails soc true ta_elf os_elf applet_id ≡ ok s
      → (s.context ≡ record { apps = applet_id ∷ []; mailbox = []; result_box = [] })
        × (attributes s.calls a ≡ (if is_secure a then secure_world soc else non_secure_world soc))
  unfolding boot register_app
  boot-isolates attributes law ta_elf os_elf applet_id s a h =
      let (context, calls, fine) = app_registered-fine os_elf applet_id _ s h in
      (
        context,
        ap (λ (cs : List Call). attributes cs a) calls
            ∙ configure-isolates fails soc attributes law a fine,
      )
