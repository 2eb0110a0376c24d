-- ===== src/Tz/Boot.antt =====
-- The start of the secure system: RegisterApp, loadTA and LoadNonsecureWorld of
-- tee/trusted_os/tz/tz.go, and tee/trusted_os/main.go.
pub mod Start
pub mod Programs
use wall_era.Common.{
  ℕ, Bool, true, false, not, List, [], ◌∷◌, ◌++◌, Option, none, some, if◌then◌else◌,
}
use wall_era.Common.Go.{Outcome, returns, panics, ◌>>=◌, Result, ok, err}
use wall_era.Tz.{Context, new_context, contains}
use wall_era.Tz.Config.{
  Soc, Call, applet_start, applet_size, non_secure_start, non_secure_size, configure_trust_zone,
}

-- The regions of memory that images are loaded into, by their start and size.
pub record Region : Type 0 where
  pub start : ℕ
  pub size : ℕ

abbrev pub applet_region : Region
applet_region = record { start = applet_start; size = applet_size }

abbrev pub non_secure_region : Region
non_secure_region = record { start = non_secure_start; size = non_secure_size }

pub record Image : Type 0 where
  pub region : Region
  pub elf : List ℕ

-- What the start uses of GoTEE: loading an image, and making an execution context for it, secure
-- or not. `none` stands for no error.
pub record Loader (L : Type 0) : Type 0 where
  pub load_image : Image → Option L
  pub make_context : Image → Bool → Option L

pub data BootError (L E : Type 0) : Type 0 where
  loader_error : L → BootError L E
  app_not_registered : ℕ → BootError L E
  cannot_configure : E → BootError L E

-- What the non-secure world is started with: the context, and the calls that configured the board.
pub record Started : Type 0 where
  pub context : Context
  pub calls : List Call

pub data Ending : Type 0 where
  semihosting_shutdown board_reset : Ending

module _ {L E : Type 0} (loader : Loader L) (fails : List Call → Call → Option E) (soc : Soc)
    (native : Bool) where
  open loader use {load_image, make_context}

  abbrev registered_image : Context → ℕ → Option L → Context × Option (BootError L E)
  registered_image c app_id (some e) = (c, some (loader_error e))
  registered_image c app_id none = (record c { apps = app_id ∷ c.apps }, none)

  -- The map of images is kept by its keys.
  unfoldable pub register_app : Context → List ℕ → ℕ → Context × Option (BootError L E)
  register_app c content app_id =
      registered_image c app_id (load_image (record { region = applet_region; elf = content }))

  abbrev context_made : Option L → Option (BootError L E)
  context_made none = none
  context_made (some e) = some (loader_error e)

  abbrev image_loaded : Image → Bool → Option L → Option (BootError L E)
  image_loaded image secure (some e) = some (loader_error e)
  image_loaded image secure none = context_made (make_context image secure)

  -- `loadTA`, with the image that is stored for the ID. Its stack begins at the end of the memory
  -- of the applet, and its handler is `logHandler`.
  unfoldable pub load_ta : Context → ℕ → Image → Option (BootError L E)
  load_ta c app_id image =
      if not (contains c.apps app_id)
      then some (app_not_registered app_id)
      else image_loaded image true (load_image image)

  abbrev configured : List Call × Option E → List Call × Option (BootError L E)
  configured (calls, none) = (calls, none)
  configured (calls, some e) = (calls, some (cannot_configure e))

  abbrev world_loaded : List Call → Option (BootError L E) → List Call × Option (BootError L E)
  world_loaded calls (some e) = (calls, some e)
  world_loaded calls none =
      let lock = if not native then false else true in
      configured (configure_trust_zone fails soc native lock calls)

  -- The calls that were made before, and those after it.
  unfoldable pub load_nonsecure_world : List Call → List ℕ → List Call × Option (BootError L E)
  load_nonsecure_world calls content =
      let image : Image = record { region = non_secure_region; elf = content } in
      world_loaded calls (image_loaded image false (load_image image))

  abbrev started : Context → List Call × Option (BootError L E) → Result (BootError L E) Started
  started c (calls, some e) = err e
  started c (calls, none) = ok (record { context = c; calls = calls })

  abbrev app_registered : List ℕ → Context × Option (BootError L E) → Result (BootError L E) Started
  app_registered os_elf (c, some e) = err e
  app_registered os_elf (c, none) = started c (load_nonsecure_world [] os_elf)

  -- `main` up to the run of the non-secure world; an error is a panic there.
  unfoldable pub boot : List ℕ → List ℕ → ℕ → Result (BootError L E) Started
  boot ta_elf os_elf applet_id = app_registered os_elf (register_app new_context ta_elf applet_id)

  -- What ends `main`, and what its panic handler does.
  abbrev pub ending : List Ending
  ending = (if not native then semihosting_shutdown ∷ [] else []) ++ (board_reset ∷ [])

  abbrev after_run : Outcome (Unit {0}) → List Ending
  after_run panics = ending
  after_run (returns _) = ending

  -- `run_world` is the run of the non-secure world.
  unfoldable pub trusted_main : (Started → Outcome (Unit {0})) → List ℕ → List ℕ → ℕ → List Ending
  unfolding boot
  trusted_main run_world ta_elf os_elf applet_id = elim (boot ta_elf os_elf applet_id) [
    | ok s ↦ after_run (run_world s)
    | err e ↦ ending
  ]
