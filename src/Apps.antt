-- ===== src/Apps.antt =====
-- apps/apps.go and apps/apdu.go: the registry of applications and the routing of packets to them.
pub mod Routing
pub mod SameRoutes
pub mod Cosmos
pub mod Toy
mod Examples
use wall_era.Common.{
  ℕ, ◌+◌, Bool, true, false, ◌&&◌, List, [], ◌∷◌, ◌++◌, Option, none, some, ◌==◌, if◌then◌else◌,
  not, String,
}
use wall_era.Common.Go.{Outcome, returns, panics, ◌>>=◌, Slice}
use wall_era.Common.Bytes.{put_uint16_be}

abbrev pub apdu_execution_error : ℕ
apdu_execution_error = 0x6400

abbrev pub apdu_command_not_allowed : ℕ
apdu_command_not_allowed = 0x6986

abbrev pub apdu_ins_not_supported : ℕ
apdu_ins_not_supported = 0x6D00

abbrev pub apdu_cla_not_supported : ℕ
apdu_cla_not_supported = 0x6E00

abbrev pub apdu_success : ℕ
apdu_success = 0x9000

abbrev pub apdu_wrong_length : ℕ
apdu_wrong_length = 0x6700

abbrev pub apdu_data_invalid : ℕ
apdu_data_invalid = 0x6984

-- What an application answers: a response, a code, and an error for the log.
pub record Reply (E : Type 0) : Type 0 where
  pub response : List ℕ
  pub code : ℕ
  pub error : Option E

-- The interface `App`, as a pointer to a state that its handler changes.
pub record App (S E : Type 0) : Type 0 where
  pub name : String
  pub id : ℕ
  pub commands : List ℕ
  pub state : S
  pub handle : S → ℕ → Slice → Outcome (S × Reply E)

-- The fields that the handler reads of a third-party `apdu.CAPDU`.
pub record Capdu : Type 0 where
  pub cla : ℕ
  pub ins : ℕ

abbrev pub zero_capdu : Capdu
zero_capdu = record { cla = 0; ins = 0 }

pub data RouteError (E : Type 0) : Type 0 where
  app_not_supported : ℕ → RouteError E
  command_not_supported : ℕ → ℕ → RouteError E
  app_error : E → RouteError E

-- The two maps, as association lists.
pub record Handler (S E : Type 0) : Type 0 where
  pub app_map : List (ℕ × App S E)
  pub command_app_map : List (ℕ × ℕ)

module _ {S E : Type 0} where
  abbrev pub find_app : List (ℕ × App S E) → ℕ → Option (App S E)
  find_app [] k = none
  find_app ((j, app) ∷ rest) k = if j == k then some app else find_app rest k

  -- A write to the map: it replaces the entry of that key or adds one.
  abbrev pub put_app : List (ℕ × App S E) → ℕ → App S E → List (ℕ × App S E)
  put_app [] k a = (k, a) ∷ []
  put_app ((j, app) ∷ rest) k a = if j == k then (k, a) ∷ rest else (j, app) ∷ put_app rest k a

abbrev pub has_command : List (ℕ × ℕ) → ℕ → ℕ → Bool
has_command [] k c = false
has_command ((j, d) ∷ rest) k c = if j == k && d == c then true else has_command rest k c

abbrev add_commands : List (ℕ × ℕ) → ℕ → List ℕ → List (ℕ × ℕ)
add_commands m k [] = m
add_commands m k (c ∷ cs) = add_commands ((k, c) ∷ m) k cs

abbrev is_some : {A : Type 0} → Option A → Bool
is_some none = false
is_some (some a) = true

unfoldable pub package_response : List ℕ → ℕ → List ℕ
package_response bs code = bs ++ put_uint16_be code

-- `UnmarshalCAPDU` returns a zero packet and no error where the library fails.
abbrev pub unmarshal_capdu : (List ℕ → Option Capdu) → List ℕ → Capdu
unmarshal_capdu unmarshal bs = elim (unmarshal bs) [ none ↦ zero_capdu | some packet ↦ packet ]

module _ {S E : Type 0} where
  abbrev pub new_handler : Handler S E
  new_handler = record { app_map = []; command_app_map = [] }

  abbrev pub mapping_exists : Handler S E → ℕ → Bool
  mapping_exists h app_id = is_some (find_app h.app_map app_id)

  abbrev pub command_app_mapping_exists : Handler S E → ℕ → ℕ → Bool
  command_app_mapping_exists h app_id command = has_command h.command_app_map app_id command

  abbrev pub register_one : Handler S E → App S E → Handler S E
  register_one h app = record {
    app_map = put_app h.app_map app.id app;
    command_app_map = add_commands h.command_app_map app.id app.commands;
  }

  -- `Register` stops at the first application whose ID is taken, and returns its name in the
  -- error; what was registered before it stays.
  unfoldable pub register : Handler S E → List (App S E) → Handler S E × Option String
  register h [] = (h, none)
  register h (app ∷ apps) =
      let rest = register (register_one h app) apps in
      if mapping_exists h app.id then (h, some app.name) else rest

-- The result of `Handle`: the response for the host, and an error for the log.
abbrev pub Answer : Type 0 → Type 0 → Type 0
Answer S E = Handler S E × List ℕ × Option (RouteError E)

abbrev pub to_route_error : {E : Type 0} → Option E → Option (RouteError E)
to_route_error none = none
to_route_error (some e) = some (app_error e)

module _ {S E : Type 0} where
  -- The map holds pointers: what the application changes is seen through the map.
  abbrev pub finish_reply : Handler S E → ℕ → App S E → S × Reply E → Answer S E
  finish_reply h app_id app (s, reply) = (
    record h { app_map = put_app h.app_map app_id (record app { state = s }) },
    package_response reply.response reply.code,
    to_route_error reply.error,
  )

  -- `Handler.Handle` for a packet that is unmarshalled. Reading a missing key from the map gives
  -- a nil `App`, whose method panics.
  abbrev pub route : Handler S E → Slice → Capdu → Outcome (Answer S E)
  route h bs capdu =
      if not (mapping_exists h capdu.cla)
      then returns
          (h, package_response [] apdu_cla_not_supported, some (app_not_supported capdu.cla))
      else if not (command_app_mapping_exists h capdu.cla capdu.ins)
      then returns (
        h,
        package_response [] apdu_cla_not_supported,
        some (command_not_supported capdu.ins capdu.cla),
      )
      else elim (find_app h.app_map capdu.cla) [
        | none ↦ panics
        | some app ↦ do
          answer ← app.handle app.state capdu.ins bs
          returns (finish_reply h capdu.cla app answer)
      ]

  unfoldable pub handle : (List ℕ → Option Capdu) → Handler S E → Slice → Outcome (Answer S E)
  handle unmarshal h bs = route h bs (unmarshal_capdu unmarshal bs.elems)
