-- ===== src/Tz/Boot/Programs.antt =====
-- The memory that each program is linked to run in: `ramStart` and `ramSize` of
-- tee/trusted_os/main.go, tee/cryptography_applet/main.go, tee/nonsecure_demo_os/main.go and
-- firmware/tee_tee_enabled.go.
use wall_era.Common.{
  ℕ, ◌≡◌, ◌⊎◌, inl, inr, Bool-cases, refl, sym, ap, ◌∙◌, arith, true, false, Bool, List, Option,
  none, some, if◌then◌else◌,
}
use wall_era.Common.Go.{ok}
use wall_era.Tz.Config.{
  Soc, Call, secure_world, non_secure_world, secure_start, secure_size, applet_start, applet_size,
  non_secure_start, non_secure_size,
}
use wall_era.Tz.Config.Memory.{strongest, within, is_secure}
use wall_era.Tz.Boot.{Loader, Region, Started, boot}
use wall_era.Tz.Boot.Start.{boot-isolates, boot-loads}

abbrev pub trusted_ram : Region
trusted_ram = record { start = secure_start; size = secure_size }

abbrev pub applet_ram : Region
applet_ram = record { start = applet_start; size = applet_size }

abbrev pub demonstration_ram : Region
demonstration_ram = record { start = non_secure_start; size = non_secure_size }

abbrev pub firmware_ram : Region
firmware_ram = record { start = non_secure_start; size = non_secure_size }

pub data Program : Type 0 where
  trusted_system cryptography_applet demonstration tee_firmware : Program

abbrev pub ram : Program → Region
ram trusted_system = trusted_ram
ram cryptography_applet = applet_ram
ram demonstration = demonstration_ram
ram tee_firmware = firmware_ram

abbrev pub is_trusted : Program → Bool
is_trusted trusted_system = true
is_trusted cryptography_applet = true
is_trusted demonstration = false
is_trusted tee_firmware = false

abbrev pub runs_at : Program → ℕ → Bool
runs_at p a = within (ram p).start (ram p).size a

runs-is_secure : (p : Program) (a : ℕ) → runs_at p a ≡ true → is_secure a ≡ is_trusted p
runs-is_secure trusted_system a h = ground arith
runs-is_secure cryptography_applet a h = ground arith
runs-is_secure demonstration a h = ground arith
runs-is_secure tee_firmware a h = ground arith

same_world :
    (p q : Program) (a : ℕ)
    → runs_at p a ≡ true
    → (runs_at q a ≡ false) ⊎ (is_trusted q ≡ is_trusted p)
same_world p q a here = elim (Bool-cases (runs_at q a)) [
  | inl there ↦ inr (sym (runs-is_secure q a there) ∙ runs-is_secure p a here)
  | inr free ↦ inl free
]

trusted_apart :
    (a : ℕ) → (runs_at trusted_system a ≡ false) ⊎ (runs_at cryptography_applet a ≡ false)
trusted_apart a = elim (Bool-cases (runs_at trusted_system a)) [
  | inl here ↦ inr (ground arith)
  | inr free ↦ inl free
]

module _ {L E : Type 0} (loader : Loader L) (fails : List Call → Call → Option E) (soc : Soc) where
  -- After a start without an error on the board, every address of the memory that the trusted
  -- system or the applet is linked to run in is left to the secure world, and every address of that
  -- of the firmware or of the demonstration is open to both; so no program of one world runs in
  -- memory of a program of the other, and the trusted system and the applet share none either. The
  -- loader has taken the image of the applet for the memory that the applet is linked for, and that
  -- of the operating system for the memory of the firmware, which is also that of the demonstration,
  -- and made a context for the latter that is not secure. The controller of the
  -- memory follows, of the regions that contain an address, the one with the highest number.
  pub programs_isolated :
      (attributes : List Call → ℕ → ℕ)
      → ((calls : List Call) (b n x : ℕ) → strongest calls b ≡ some (n, x) → attributes calls b ≡ x)
      → (ta_elf os_elf : List ℕ) (applet_id : ℕ) (s : Started) (p q : Program) (a : ℕ)
      → boot loader fails soc true ta_elf os_elf applet_id ≡ ok s
      → runs_at p a ≡ true
      → (attributes s.calls a ≡ (if is_trusted p then secure_world soc else non_secure_world soc))
        × ((runs_at q a ≡ false) ⊎ (is_trusted q ≡ is_trusted p))
        × ((runs_at trusted_system a ≡ false) ⊎ (runs_at cryptography_applet a ≡ false))
        × (loader.load_image (record { region = ram cryptography_applet; elf = ta_elf }) ≡ none)
        × (loader.load_image (record { region = ram tee_firmware; elf = os_elf }) ≡ none)
        × (loader.make_context (record { region = ram tee_firmware; elf = os_elf }) false ≡ none)
        × (ram demonstration ≡ ram tee_firmware)
  programs_isolated attributes law ta_elf os_elf applet_id s p q a starts here = (
    (boot-isolates loader fails soc attributes law ta_elf os_elf applet_id s a starts).1
        ∙ ap (λ (b : Bool). if b then secure_world soc else non_secure_world soc)
            (runs-is_secure p a here),
    same_world p q a here,
    trusted_apart a,
    (boot-loads loader fails soc ta_elf os_elf applet_id s starts).0,
    (boot-loads loader fails soc ta_elf os_elf applet_id s starts).1.0,
    (boot-loads loader fails soc ta_elf os_elf applet_id s starts).1.1,
    refl,
  )
