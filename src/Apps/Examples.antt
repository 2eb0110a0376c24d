-- ===== src/Apps/Examples.antt =====
-- The theorems on apps/ at concrete packets.
use mathlib.Core.List.{Memᴰ}
use wall_era.Common.{ℕ, ◌≡◌, refl, arith, List, [], ◌∷◌, none, some, if◌then◌else◌, ◌==◌}
use wall_era.Crypto.{new_derivation_path_from_bytes}
use wall_era.Common.Go.{slice, Slice, returns, panics, ◌>>=◌, exact}
use wall_era.Crypto.{DerivationPath, zero_path}
use wall_era.Apps.{App, Handler, apdu_success, find_app, new_handler, register, handle}
use wall_era.Apps.Routing.{handle-registered}
use wall_era.Apps.Cosmos
use wall_era.Apps.Cosmos.{
  Cosmos, SignatureSession, GetAddressRequest, Error, wrong_description, path_from,
  cla_sign_secp256k1, cla_get_addr_secp256k1, handle_sign_secp256k1, fresh_session,
  address_initialized,
}
use wall_era.Apps.Cosmos.State.{handle-keeps_token}
use wall_era.Apps.Cosmos.Address.{IsRequest, short_request_panics, long_request_answers}
use wall_era.Apps.SameRoutes.{SameRun, answers}
use wall_era.Apps.SameRoutes.Order.{answers-either_order}
use wall_era.Apps.Toy.{
  toy_unmarshal, toy_token, toy_libraries, toy_cosmos, toy_app, toy_handler, path_bytes,
}

-- The clone takes the path of the request, whose change is 5, and gives its public key.
handle-keeps_token_example : toy_cosmos.token ≡ zero_path
unfolding Cosmos.handle Cosmos.handle_get_addr_secp256k1 Cosmos.valid_request
    Cosmos.hrp_from_get_address_request slice Cosmos.derivation_path_from_get_address_request
    path_from new_derivation_path_from_bytes
handle-keeps_token_example =
    handle-keeps_token toy_token toy_libraries toy_cosmos toy_cosmos 4
      (exact (0x55 ∷ 4 ∷ 0 ∷ 0 ∷ 22 ∷ 2 ∷ 99 ∷ 111 ∷ path_bytes))
      (record {
        response = 5 ∷ 7 ∷ 99 ∷ 111 ∷ 20 ∷ 32 ∷ 5 ∷ 7 ∷ [];
        code = apdu_success;
        error = none;
      })
      refl

abbrev open_cosmos : Cosmos DerivationPath
open_cosmos = record { token = zero_path; current_signature_session = some fresh_session }

abbrev small_request : GetAddressRequest
small_request = record { p1 = 0; p2 = 0; payload_length = 1; hrp_length = 2 }

small-IsRequest : IsRequest small_request
small-IsRequest = record {
  parameter = omega arith;
  payload_some = omega arith;
  payload_byte = omega arith;
  hrp_some = omega arith;
  hrp_short = omega arith;
}

short_request_panics_example :
    Cosmos.handle toy_token toy_libraries toy_cosmos cla_get_addr_secp256k1
      (exact (0x55 ∷ 4 ∷ 0 ∷ 0 ∷ 1 ∷ 2 ∷ []))
    ≡ panics
short_request_panics_example =
    short_request_panics toy_token toy_libraries toy_cosmos (exact (0x55 ∷ 4 ∷ 0 ∷ 0 ∷ 1 ∷ 2 ∷ []))
      small_request (record { decodes = refl; valid = small-IsRequest }) (omega arith)

-- The message has six bytes, and the rest lies behind its end.
abbrev stale_request : Slice
stale_request = record { elems = 0x55 ∷ 4 ∷ 0 ∷ 0 ∷ 1 ∷ 2 ∷ []; beyond = 99 ∷ 111 ∷ path_bytes }

long_request_answers_example :
    (path : DerivationPath) × (path_from (record { elems = path_bytes; beyond = [] })
      ≡ returns path)
    × (Cosmos.handle toy_token toy_libraries toy_cosmos cla_get_addr_secp256k1 stale_request ≡ (do
      answer ← address_initialized toy_token toy_libraries (99 ∷ 111 ∷ []) (path, none)
      returns (toy_cosmos, answer)))
long_request_answers_example =
    long_request_answers toy_token toy_libraries toy_cosmos stale_request small_request
      (record { decodes = refl; valid = small-IsRequest }) (omega arith)

handle-registered_example :
    (h' : Handler (Cosmos DerivationPath) (Error ℕ ℕ)) × (handle toy_unmarshal toy_handler
        (exact (0x55 ∷ 0 ∷ 0 ∷ 0 ∷ 0 ∷ []))
      ≡ returns (h', 0 ∷ 2 ∷ 0 ∷ 0 ∷ 0 ∷ 0x90 ∷ 0x00 ∷ [], none))
    × ((j : ℕ)
        → find_app h'.app_map j
          ≡ (if 85 == j then some toy_app else find_app toy_handler.app_map j))
unfolding register Cosmos.handle
handle-registered_example =
    handle-registered toy_unmarshal new_handler (toy_app ∷ []) toy_app
      (exact (0x55 ∷ 0 ∷ 0 ∷ 0 ∷ 0 ∷ [])) (record { cla = 0x55; ins = 0 }) toy_cosmos
      (record { response = 0 ∷ 2 ∷ 0 ∷ 0 ∷ 0 ∷ []; code = apdu_success; error = none }) refl
      (Memᴰ.head refl) refl refl (Memᴰ.head refl) refl

abbrev other_app : App (Cosmos DerivationPath) (Error ℕ ℕ)
other_app = record toy_app { id = 0x66 }

abbrev two_packets : List Slice
two_packets = exact (0x55 ∷ 0 ∷ 0 ∷ 0 ∷ 0 ∷ []) ∷ exact (0x66 ∷ 7 ∷ []) ∷ []

answers-either_order_example :
    ((register new_handler (toy_app ∷ other_app ∷ [])).1 ≡ none)
    × ((register new_handler (other_app ∷ toy_app ∷ [])).1 ≡ none)
    × SameRun
        (answers toy_unmarshal (register new_handler (toy_app ∷ other_app ∷ [])).0 two_packets)
        (answers toy_unmarshal (register new_handler (other_app ∷ toy_app ∷ [])).0 two_packets)
answers-either_order_example =
    answers-either_order toy_app other_app new_handler (omega arith) refl refl toy_unmarshal
      two_packets
