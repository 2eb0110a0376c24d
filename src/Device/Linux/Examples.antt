-- ===== src/Device/Linux/Examples.antt =====
-- The Linux gadget at concrete input.
use wall_era.Device.Toy.{no_growth, on_channel}
use wall_era.Common.{
  ◌⊎◌, true, false, ℕ, ◌+◌, ◌*◌, ◌-◌, ◌≤◌, ◌≡◌, ◌⊎◌, refl, arith, true, false, List, [], ◌∷◌, ◌++◌,
  none, some, length, replicate, concat, Option,
}
use wall_era.Common.Go.{Outcome, returns, slice}
use mathlib.Core.List.{Memᴰ}
use wall_era.Crypto.{DerivationPath, uint32_le, key_from_path, new_derivation_path_from_bytes}
use wall_era.Crypto.DumbToken.{
  DumbToken, new_dumb_token, dumb_token, derive_secret, initialize, sign,
}
use wall_era.Crypto.Toy.{toy_keychain, toy_random, toy_hmac}
use wall_era.Usb.Session.{Session, fresh}
use wall_era.Usb.Format.{format_response}
use wall_era.Apps.{register, handle, package_response}
use wall_era.Apps.Cosmos
use wall_era.Apps.Cosmos.{Cosmos, path_from}
use wall_era.Apps.Cosmos.Signing.{sign_bytes}
use wall_era.Apps.Toy.{toy_unmarshal, toy_handler, toy_libraries, path_bytes, toy_path}
use wall_era.Device.Firmware.{HidHandler, refusal}
use wall_era.Device.Firmware.Conversation.{AreRead}
use wall_era.Device.Linux.{linux_rx, linux_rx_all}
use wall_era.Device.Linux.Goroutines.{Gadget, Step, rx_called, tx_called, chunk_written, here, next}
use wall_era.Device.Linux.Goroutines.Order.{Delivers, writes_in_order}
use wall_era.Device.Firmware.Wallet.{wallet}
use wall_era.Device.Linux.Wallet.{linux_converse, gadget_signs}
use wall_era.Device.Linux.Requests.{long_request_refused}
use wall_era.Device.Linux.Main.{Gadgets}

long_request_refused_example :
    (s : Session) × (linux_rx_all no_growth toy_unmarshal
        (record { ah = toy_handler; session = none })
        (format_response on_channel (replicate 60 0x55))
      ≡ returns (
        record { ah = toy_handler; session = some s },
        concat (
            replicate
              (length (format_response on_channel (replicate 60 0x55)) - 1)
              (refusal on_channel)),
      ))
long_request_refused_example =
    long_request_refused no_growth toy_unmarshal toy_handler on_channel (replicate 60 0x55)
      (omega arith) (omega arith) (omega arith) (omega arith)

-- The request for the version, and the frame with the answer.
abbrev version_frame : List ℕ
version_frame = 0x01 ∷ 0x01 ∷ 0x05 ∷ 0 ∷ 0 ∷ 0 ∷ 7 ∷ 0 ∷ 2 ∷ 0 ∷ 0 ∷ 0 ∷ 0x90 ∷ 0 ∷ replicate 50 0

abbrev version_request : List ℕ
version_request = 0x01 ∷ 0x01 ∷ 0x05 ∷ 0 ∷ 0 ∷ 0 ∷ 5 ∷ 0x55 ∷ replicate 56 0

abbrev waiting_gadget : HidHandler (Cosmos DerivationPath) (Cosmos.Error ℕ ℕ)
waiting_gadget = record { ah = toy_handler; session = none }

linux_rx_version :
    linux_rx no_growth toy_unmarshal waiting_gadget version_request
    ≡ returns (waiting_gadget, version_frame ∷ [], none)
unfolding register handle package_response Cosmos.handle linux_rx format_response
    wall_era.Usb.Session.new_session wall_era.Usb.Frame.read_frame wall_era.Usb.Frame.encode_frame
    wall_era.Usb.Format.array_of wall_era.Usb.Frame.decode_frame wall_era.Usb.Frame.read_array
    wall_era.Usb.Frame.validate wall_era.Usb.Session.session_read_frame wall_era.Common.Go.write
    wall_era.Common.Go.truncate
linux_rx_version = refl

-- Two requests: the second is read while the answer to the first is not written yet.
linux_rx_all_version :
    linux_rx_all no_growth toy_unmarshal waiting_gadget (version_request ∷ version_request ∷ [])
    ≡ returns (waiting_gadget, version_frame ∷ version_frame ∷ [])
linux_rx_all_version = rw (linux_rx_version, linux_rx_version) refl

abbrev busy_gadget : Gadget (Cosmos DerivationPath) (Cosmos.Error ℕ ℕ)
busy_gadget = record {
  inputs = [];
  handler = waiting_gadget;
  outbound = some (version_frame ∷ []);
  writing = [];
  written = version_frame ∷ [];
}

writes_in_order_example :
    ((rest : List (List ℕ)) × ((version_frame ∷ []) ++ rest ≡ version_frame ∷ version_frame ∷ []))
    × (4
        ≤ 2 * length (version_request ∷ version_request ∷ [])
          + length (version_frame ∷ version_frame ∷ []))
    × (((u : Gadget (Cosmos DerivationPath) (Cosmos.Error ℕ ℕ)) × Step no_growth toy_unmarshal
            busy_gadget u)
        ⊎ Delivers no_growth toy_unmarshal waiting_gadget
            (version_frame ∷ version_frame ∷ [])
            busy_gadget)
writes_in_order_example =
    writes_in_order no_growth toy_unmarshal waiting_gadget waiting_gadget
      (version_request ∷ version_request ∷ []) (version_frame ∷ version_frame ∷ [])
      linux_rx_all_version
      (next
        (next
          (next
            (next here (
              rx_called waiting_gadget waiting_gadget version_request (version_request ∷ [])
                (version_frame ∷ []) [] [] none linux_rx_version))
            (tx_called waiting_gadget (version_request ∷ []) (version_frame ∷ []) []))
          (rx_called waiting_gadget waiting_gadget version_request [] (version_frame ∷ [])
            (version_frame ∷ []) [] none linux_rx_version))
        (chunk_written waiting_gadget (some (version_frame ∷ [])) version_frame [] [] []))

-- A system without the file of the gadget.
abbrev fresh_system : Gadgets ℕ
fresh_system = record {
  configure = λ path report n. 0;
  usbg_success = 0;
  error_name = λ res. "USBG_ERROR";
  error_text = λ res. "error";
  is_not_exist = λ path. true;
  open_file = λ path. none;
}

abbrev gadget_wallet : Cosmos (DumbToken toy_keychain)
gadget_wallet = record { token = new_dumb_token toy_keychain; current_signature_session = none }

abbrev gadget_key : List ℕ
gadget_key = 9 ∷ 5 ∷ 0x80000000 ∷ 0x80000076 ∷ 0x8000002C ∷ []

short_body : (body : List ℕ) → Memᴰ body ((1 ∷ 2 ∷ []) ∷ []) → length body ≤ 52
short_body body (Memᴰ.head e) = rw e (omega arith)
short_body body (Memᴰ.tail m) = elim m [ ]

gadget_signs_example :
    (frames : List (List (List ℕ))) × (linux_converse no_growth toy_unmarshal on_channel
        (record {
          ah = wallet (dumb_token toy_keychain toy_random toy_hmac) toy_libraries gadget_wallet;
          session = none;
        })
        (sign_bytes 0 path_bytes ∷ sign_bytes 1 (1 ∷ 2 ∷ []) ∷ sign_bytes 2 (3 ∷ []) ∷ [])
      ≡ returns (
        record {
          ah = wallet (dumb_token toy_keychain toy_random toy_hmac) toy_libraries gadget_wallet;
          session = none;
        },
        frames,
      ))
    × AreRead no_growth 0x101 frames (
        (0x90 ∷ 0x00 ∷ [])
        ∷ (0x90 ∷ 0x00 ∷ [])
        ∷ ((gadget_key ++ (32 ∷ 1 ∷ 2 ∷ 3 ∷ [])) ++ (0x90 ∷ 0x00 ∷ []))
        ∷ [])
unfolding path_from new_derivation_path_from_bytes uint32_le derive_secret initialize key_from_path
    sign slice
gadget_signs_example =
    gadget_signs (dumb_token toy_keychain toy_random toy_hmac) toy_libraries toy_unmarshal
      (λ descr body small. refl) no_growth on_channel gadget_wallet path_bytes (3 ∷ [])
      ((1 ∷ 2 ∷ []) ∷ []) toy_path (record { priv_key = some gadget_key })
      (gadget_key ++ (32 ∷ 1 ∷ 2 ∷ 3 ∷ [])) (omega arith) (omega arith) (omega arith) (omega arith)
      refl (λ body m. short_body body m) (omega arith) (omega arith) refl refl refl
