-- ===== src/Tz/Examples.antt =====
-- The theorems on tee/trusted_os/tz at concrete mail.
use wall_era.Common.{◌⊎◌, ℕ, ◌≡◌, refl, ap, arith, List, [], ◌∷◌, none, some, Option, true, false}
use wall_era.Common.Go.{Outcome, returns, panics}
use wall_era.Tz.{
  retrieve_mail, write_response, read_response, Mail, Context, new_context, load, send_mail,
  dispatch_apps_calls, visit_all,
}
use mathlib.Core.List.{Memᴰ}
use wall_era.Tz.Rpc.{
  zero_mail, Transport, rpc_retrieve_mail, rpc_retrieve_result, rpc_write_response, rpc_send_mail,
}
use wall_era.Tz.Rpc.Calls.{mail_brought, error_brought, mail_result, rpc-IsFaithful}
use wall_era.Crypto.{zero_path}
use wall_era.Tee.Client.{run_applet}
use wall_era.Tee.Spares.{run_applet-Spares}
use wall_era.Tee.Toy.{toy_json, toy_applet_token}
use wall_era.Tz.Mailbox.Stray.{stray_mail_stops}
use wall_era.Tz.Log.{Console, IsBounded, log_all, log_all-IsBounded}
use wall_era.Tz.Config.{Soc, Call, configure_trust_zone, non_secure_world, for_each, attempt}
use wall_era.Tz.Config.Memory.{strongest}
use wall_era.Tz.Config.Peripherals.{level_after, access_after, configure-restricts}
use wall_era.Tz.Boot.{Loader, Started, boot, load_nonsecure_world, register_app}
use wall_era.Tz.Boot.Programs.{
  runs_at, is_trusted, ram, trusted_system, cryptography_applet, demonstration, tee_firmware,
  programs_isolated,
}

abbrev some_mail : Mail
some_mail = record { app_id = 1; payload = 4 ∷ 5 ∷ [] }

abbrev delivered_context : Context
delivered_context = record new_context { mailbox = (1, 4 ∷ 5 ∷ []) ∷ [] }

-- A request waits for the cryptography applet, and mail is sent for an applet 1 that is not there.
abbrev busy_context : Context
busy_context = record { apps = 42 ∷ []; mailbox = (42, 3 ∷ 44 ∷ 0 ∷ []) ∷ []; result_box = [] }

abbrev toy_applets : ℕ → Context → Outcome Context
toy_applets = run_applet toy_json toy_applet_token zero_path (λ c. returns c) (λ k c. panics)

stray_mail_stops_example :
    (c' : Context) × (send_mail busy_context some_mail ≡ (c', none))
    × (visit_all toy_applets (42 ∷ 1 ∷ []) c' ≡ panics)
    × (dispatch_apps_calls toy_applets c' ≡ panics)
stray_mail_stops_example =
    stray_mail_stops toy_applets busy_context some_mail (42 ∷ 1 ∷ []) refl refl
      (run_applet-Spares toy_json toy_applet_token zero_path (λ c. returns c) 1 (omega arith)
        (λ k c. panics) (λ k c c' other ran. cc)
        (λ d d' ran. (
          ap (λ (t : Context). t.apps) (returned d d' ran),
          ap (λ (t : Context). load t.mailbox 1) (returned d d' ran),
        )))
      (Memᴰ.tail (Memᴰ.head refl))
  where
    returned : (c c' : Context) → returns c ≡ returns c' → c' ≡ c
    returned c c' ran = cc

abbrev empty_console : Console
empty_console = record { secure_output = []; non_secure_output = []; stdout = [] }

log_all-IsBounded_example :
    IsBounded (log_all ((65, true) ∷ (66, false) ∷ (10, true) ∷ []) empty_console)
log_all-IsBounded_example =
    log_all-IsBounded ((65, true) ∷ (66, false) ∷ (10, true) ∷ []) empty_console
      (record { secure_bounded = omega arith; non_secure_bounded = omega arith })

abbrev board : Soc
board = record {
  csl_min = 0;
  csl_max = 40;
  sa_min = 0;
  sa_max = 16;
  sec_level_0 = 255;
  sec_level_4 = 51;
  sp_nw_rd = 1;
  sp_nw_wr = 0;
  sp_sw_rd = 3;
  sp_sw_wr = 2;
}

abbrev never_fails : List Call → Call → Option ℕ
never_fails calls call = none

abbrev granted : Option (ℕ × ℕ) → ℕ
granted none = 0
granted (some (n, x)) = x

-- A controller that follows the region with the highest number.
abbrev attributes : List Call → ℕ → ℕ
attributes calls a = granted (strongest calls a)

abbrev configured_calls : List Call
configured_calls = (configure_trust_zone never_fails board true true []).0

configure-restricts_example :
    (level_after configured_calls 2 1 ≡ some 51) × (access_after configured_calls 4 ≡ some false)
unfolding configure_trust_zone for_each attempt
configure-restricts_example =
    configure-restricts never_fails board 2 1 4 (omega arith) (omega arith) (omega arith)
      (omega arith) (omega arith) refl

abbrev empty_loader : Loader ℕ
empty_loader = record { load_image = λ i. none; make_context = λ i secure. none }

abbrev started : Started
started = record {
  context = record { apps = 42 ∷ []; mailbox = []; result_box = [] };
  calls = configured_calls;
}

programs_isolated_example :
    (attributes started.calls 0x80000010 ≡ non_secure_world board)
    × ((runs_at cryptography_applet 0x80000010 ≡ false)
        ⊎ (is_trusted cryptography_applet ≡ is_trusted tee_firmware))
    × ((runs_at trusted_system 0x80000010 ≡ false)
        ⊎ (runs_at cryptography_applet 0x80000010 ≡ false))
    × (empty_loader.load_image (record { region = ram cryptography_applet; elf = 1 ∷ [] }) ≡ none)
    × (empty_loader.load_image (record { region = ram tee_firmware; elf = 2 ∷ [] }) ≡ none)
    × (empty_loader.make_context (record { region = ram tee_firmware; elf = 2 ∷ [] }) false ≡ none)
    × (ram demonstration ≡ ram tee_firmware)
unfolding boot load_nonsecure_world register_app configure_trust_zone for_each attempt
programs_isolated_example =
    programs_isolated empty_loader never_fails board attributes (λ calls b n x e. ap granted e)
      (1 ∷ []) (2 ∷ []) 42 started tee_firmware cryptography_applet 0x80000010 refl refl

abbrev working_transport : Transport ℕ
working_transport = record {
  call_mail = λ m c. mail_brought (m c zero_mail);
  call_plain = λ m c. error_brought (m c);
}

rpc-IsFaithful_example :
    (rpc_retrieve_mail working_transport delivered_context 1
      ≡ mail_result (retrieve_mail delivered_context 1))
    × (rpc_retrieve_result working_transport delivered_context 1
        ≡ mail_result (read_response delivered_context 1))
    × (rpc_write_response working_transport delivered_context some_mail
        ≡ error_brought (write_response delivered_context some_mail))
    × (rpc_send_mail working_transport delivered_context some_mail
        ≡ error_brought (send_mail delivered_context some_mail))
rpc-IsFaithful_example =
    rpc-IsFaithful working_transport delivered_context 1 some_mail
      (record { brings_mail = λ m c. refl; brings_error = λ m c. refl })
