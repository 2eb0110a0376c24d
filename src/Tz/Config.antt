-- ===== src/Tz/Config.antt =====
-- tee/mem/layout.go and the configuration of TrustZone in tee/trusted_os/tz/tz.go, as calls of the
-- board's drivers, each of which may fail.
pub mod Calls
pub mod Memory
pub mod Peripherals
use wall_era.Common.{
  ℕ, zero, suc, ◌+◌, ◌-◌, ◌^◌, Bool, true, false, not, List, [], ◌∷◌, Option, none, some,
  if◌then◌else◌,
}
use Prim.Native.Nat.{bit_or}

abbrev pub secure_start : ℕ
secure_start = 0x98000000

abbrev pub secure_size : ℕ
secure_size = 0x03F00000

abbrev pub secure_dma_start : ℕ
secure_dma_start = 0x9BF00000

abbrev pub secure_dma_size : ℕ
secure_dma_size = 0x00100000

abbrev pub applet_start : ℕ
applet_start = 0x9C000000

abbrev pub applet_size : ℕ
applet_size = 0x02000000

abbrev pub non_secure_start : ℕ
non_secure_start = 0x80000000

abbrev pub non_secure_size : ℕ
non_secure_size = 0x10000000

-- The constants of the packages csu and tzasc.
pub record Soc : Type 0 where
  pub csl_min : ℕ
  pub csl_max : ℕ
  pub sa_min : ℕ
  pub sa_max : ℕ
  pub sec_level_0 : ℕ
  pub sec_level_4 : ℕ
  pub sp_nw_rd : ℕ
  pub sp_nw_wr : ℕ
  pub sp_sw_rd : ℕ
  pub sp_sw_wr : ℕ

-- The attributes of memory that the non-secure world may read and write, and of memory that only
-- the secure world may.
abbrev pub non_secure_world : Soc → ℕ
non_secure_world soc = bit_or (2 ^ soc.sp_nw_rd) (2 ^ soc.sp_nw_wr)

abbrev pub secure_world : Soc → ℕ
secure_world soc = bit_or (2 ^ soc.sp_sw_rd) (2 ^ soc.sp_sw_wr)

-- The calls of the drivers.
pub data Call : Type 0 where
  non_secure_access_control : ℕ → Call
  csu_init : Call
  -- peripheral, slave, level, lock
  set_security_level : ℕ → ℕ → ℕ → Bool → Call
  -- number, start, size, attributes
  enable_region : ℕ → ℕ → ℕ → ℕ → Call
  -- master, secure, lock
  set_access : ℕ → Bool → Bool → Call

-- Code that makes calls until one fails: from the calls that were made, newest first, to those
-- after it and its error.
abbrev pub Setup : Type 0 → Type 0
Setup E = List Call → List Call × Option E

-- `fails` says whether a call fails after the calls that were made before it.
module _ {E : Type 0} (fails : List Call → Call → Option E) where
  abbrev pub succeed : Setup E
  succeed done = (done, none)

  -- A call that returns no error.
  abbrev pub infallible : Call → Setup E
  infallible call done = (call ∷ done, none)

  abbrev recorded : Call → List Call → Option E → List Call × Option E
  recorded call done none = (call ∷ done, none)
  recorded call done (some e) = (done, some e)

  unfoldable pub attempt : Call → Setup E
  attempt call done = recorded call done (fails done call)

  abbrev pub go_on : Setup E → List Call × Option E → List Call × Option E
  go_on k (done, some e) = (done, some e)
  go_on k (done, none) = k done

  infixr 4 ◌then_do◌
  abbrev pub ◌then_do◌ : Setup E → Setup E → Setup E
  ◌then_do◌ m k done = go_on k (m done)

  -- A loop over `rounds` numbers from `i` on.
  unfoldable pub for_each : ℕ → ℕ → (ℕ → Setup E) → Setup E
  for_each zero i body = succeed
  for_each (suc rounds) i body = body i then_do for_each rounds (i + 1) body

  module _ (soc : Soc) where
    open soc use {csl_min, csl_max, sa_min, sa_max, sec_level_0, sec_level_4}

    -- The body of the loop over the peripherals.
    abbrev pub open_peripheral : ℕ → Setup E
    open_peripheral i =
        attempt (set_security_level i 0 sec_level_0 false)
        then_do attempt (set_security_level i 1 sec_level_0 false)

    abbrev pub open_master : ℕ → Setup E
    open_master i = attempt (set_access i false false)

    unfoldable pub configure_trust_zone : Bool → Bool → Setup E
    configure_trust_zone native lock =
        infallible (non_secure_access_control (bit_or (2 ^ 11) (2 ^ 10)))
        then_do (if not native
            then succeed
            else infallible csu_init
              then_do for_each (csl_max - csl_min) csl_min open_peripheral
              then_do attempt (enable_region 0 0 0 (non_secure_world soc))
              then_do (if lock
                  then attempt (
                      enable_region 1 secure_start (secure_size + secure_dma_size)
                        (secure_world soc))
                    then_do attempt (enable_region 2 applet_start applet_size (secure_world soc))
                    then_do for_each (sa_max - sa_min) sa_min open_master
                    then_do attempt (set_security_level 2 1 sec_level_4 false)
                    then_do attempt (set_security_level 6 1 sec_level_4 false)
                    then_do attempt (set_security_level 8 0 sec_level_0 false)
                    then_do attempt (set_access 4 false false)
                    then_do attempt (set_security_level 13 0 sec_level_4 false)
                    then_do attempt (set_security_level 16 1 sec_level_4 false)
                    then_do attempt (set_security_level 34 0 sec_level_4 false)
                    then_do attempt (set_access 14 true false)
                  else succeed))

    -- Nothing calls this function.
    unfoldable pub grant_peripheral_access : Setup E
    grant_peripheral_access =
        attempt (set_security_level 2 1 sec_level_0 false)
        then_do attempt (set_security_level 6 1 sec_level_0 false)
        then_do attempt (set_security_level 8 0 sec_level_0 false)
        then_do attempt (set_access 4 false false)
        then_do attempt (set_access 10 false false)
        then_do attempt (set_access 11 false false)
