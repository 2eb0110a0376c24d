-- ===== src/Device/Examples.antt =====
-- The theorems on the two devices and the setup requests at concrete input.
use wall_era.Device.Toy.{no_growth, on_channel}
use wall_era.Common.{
  ℕ, ◌≡◌, refl, arith, List, [], ◌∷◌, none, some, true, false, length, replicate, concat, ◌++◌, ◌<◌,
  ◌+◌, ◌≤◌, ◌⊎◌,
}
use wall_era.Common.Go.{returns, ok, slice}
use wall_era.Usb.Session.{Session, fresh}
use wall_era.Usb.Format.{format_response}
use wall_era.Usb.Format.Receive.{receive, HasRead}
use wall_era.Apps.{register, handle, package_response}
use wall_era.Apps.Cosmos
use wall_era.Apps.Cosmos.{Cosmos, path_from}
use wall_era.Apps.Toy.{toy_unmarshal, toy_handler}
use wall_era.Crypto.{DerivationPath}
use wall_era.Device.Firmware.{HidHandler, rx, rx_all}
use wall_era.Device.Firmware.Channel.{
  System, Step, here, next, rx_called, tx_takes, Delivers, delivers,
}
use wall_era.Device.Firmware.Ready.{IsReady, rx_all-IsReady}
use wall_era.Device.Firmware.Request.{exchange}
use wall_era.Apps.Cosmos.{GetAddressRequest}

-- The request for the version of the Cosmos application.
exchange_example :
    (sent : List (List ℕ)) × (rx_all no_growth toy_unmarshal
        (record { ah = toy_handler; session = none })
        (format_response on_channel (0x55 ∷ 0 ∷ 0 ∷ 0 ∷ 0 ∷ []))
      ≡ returns (record { ah = toy_handler; session = none }, sent))
    × (reader : Session) × (receive no_growth sent ≡ ok reader)
    × HasRead reader 0x101 (0 ∷ 2 ∷ 0 ∷ 0 ∷ 0 ∷ 0x90 ∷ 0x00 ∷ [])
unfolding register handle package_response Cosmos.handle
exchange_example =
    exchange no_growth toy_unmarshal toy_handler toy_handler on_channel (0x55 ∷ 0 ∷ 0 ∷ 0 ∷ 0 ∷ [])
      (0 ∷ 2 ∷ 0 ∷ 0 ∷ 0 ∷ 0x90 ∷ 0x00 ∷ []) none (omega arith) (omega arith) (omega arith)
      (omega arith) (λ beyond. refl)

-- The frame with the version, and the system before and after it was sent.
abbrev version_frame : List ℕ
version_frame = 0x01 ∷ 0x01 ∷ 0x05 ∷ 0 ∷ 0 ∷ 0 ∷ 7 ∷ 0 ∷ 2 ∷ 0 ∷ 0 ∷ 0 ∷ 0x90 ∷ 0 ∷ replicate 50 0

abbrev idle_device : HidHandler (Cosmos DerivationPath) (Cosmos.Error ℕ ℕ)
idle_device = record { ah = toy_handler; session = none }

abbrev version_request : List ℕ
version_request = 0x01 ∷ 0x01 ∷ 0x05 ∷ 0 ∷ 0 ∷ 0 ∷ 5 ∷ 0x55 ∷ replicate 56 0

rx_version :
    rx no_growth toy_unmarshal idle_device version_request
    ≡ returns (idle_device, version_frame ∷ [], none)
unfolding register handle package_response Cosmos.handle rx format_response
    wall_era.Usb.Session.new_session wall_era.Usb.Frame.read_frame wall_era.Usb.Frame.encode_frame
    wall_era.Usb.Format.array_of wall_era.Usb.Frame.decode_frame wall_era.Usb.Frame.read_array
    wall_era.Usb.Frame.validate wall_era.Usb.Session.session_read_frame wall_era.Common.Go.write
    wall_era.Common.Go.truncate
rx_version = refl

rx_all_version :
    rx_all no_growth toy_unmarshal idle_device (version_request ∷ [])
    ≡ returns (idle_device, version_frame ∷ [])
rx_all_version = rw rx_version refl

abbrev device_after :
    List (List ℕ) → List (List ℕ) → System (Cosmos DerivationPath) (Cosmos.Error ℕ ℕ)
device_after pending taken = record {
  inputs = [];
  handler = idle_device;
  pending = pending;
  taken = taken;
}

delivers_example :
    ((rest : List (List ℕ)) × ((version_frame ∷ []) ++ rest ≡ version_frame ∷ []))
    × (2 ≤ length (version_request ∷ []) + length (version_frame ∷ []))
    × (((u : System (Cosmos DerivationPath) (Cosmos.Error ℕ ℕ)) × Step no_growth toy_unmarshal
            (device_after [] (version_frame ∷ []))
            u)
        ⊎ Delivers no_growth toy_unmarshal idle_device
            (version_frame ∷ [])
            (device_after [] (version_frame ∷ [])))
delivers_example =
    delivers no_growth toy_unmarshal idle_device idle_device (version_request ∷ [])
      (version_frame ∷ []) rx_all_version
      (next
        (next here (
          rx_called idle_device idle_device version_request [] (version_frame ∷ []) [] none
            rx_version))
        (tx_takes idle_device version_frame [] [] []))

rx_all-IsReady_example : IsReady idle_device
rx_all-IsReady_example =
    rx_all-IsReady no_growth toy_unmarshal idle_device idle_device (version_request ∷ [])
      (version_frame ∷ []) (record { session_is_open = λ s e. cc }) rx_all_version
