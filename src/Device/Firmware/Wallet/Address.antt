-- ===== src/Device/Firmware/Wallet/Address.antt =====
-- A request for an address, through the frames and the Cosmos application.
use wall_era.Common.{
  ℕ, ◌+◌, ◌<◌, ◌≡◌, ◌≢◌, refl, arith, none, some, Option, List, [], ◌∷◌, ◌++◌, length,
  length-append,
}
use wall_era.Common.Go.{returns, ok, exact}
use wall_era.Crypto.{DerivationPath, Token}
use wall_era.Usb.Session.{Session}
use wall_era.Usb.Format.{format_response}
use wall_era.Apps.{Capdu, apdu_success}
use wall_era.Apps.Cosmos.{Cosmos, Libraries, GetAddressRequest, path_from, address_from_pubkey}
use wall_era.Apps.Cosmos.Address.{IsRequest}
use wall_era.Apps.Cosmos.Request.{address_bytes, address_in, address_request-answers}
use wall_era.Device.Firmware.{rx_all}
use wall_era.Device.Firmware.Conversation.{IsRead}
use wall_era.Device.Firmware.Request.{exchange}
use wall_era.Device.Firmware.Wallet.{wallet, wallet_answers}

module _ {T E B : Type 0} (ops : Token T E) (libs : Libraries B) where
  -- A host with a channel that is not 0 sends a valid address request, with a prefix of the announced
  -- length and twenty bytes of a path, cut into frames, to an idle firmware with the Cosmos
  -- application in any state. It puts together from the frames that come back the public key of a
  -- clone of the token that took the path, the address of that key for the prefix, and 90 00. The
  -- application is left as it was, an open signature session included. The token has to take the
  -- path and to give a key, the address library to encode it, key and address to have fewer than
  -- 65534 bytes, and the parser of packets has to find class and instruction in the request.
  pub host_gets_address :
      (grow : ℕ → ℕ) (unmarshal : List ℕ → Option Capdu) (host : Session) (c : Cosmos T)
      (r : GetAddressRequest) (hrp path_bytes pubkey address : List ℕ) (path : DerivationPath)
      (t : T)
      → host.channel ≢ 0
      → host.channel < 65536
      → unmarshal (address_bytes r hrp path_bytes) ≡ some (record { cla = 0x55; ins = 0x04 })
      → IsRequest r
      → length hrp ≡ r.hrp_length
      → length path_bytes ≡ 20
      → path_from (exact path_bytes) ≡ returns path
      → ops.initialize (ops.clone c.token) path ≡ (t, none)
      → ops.public_key t ≡ returns (ok pubkey)
      → address_from_pubkey ops libs pubkey hrp ≡ ok address
      → length pubkey + length address < 65534
      → (sent : List (List ℕ)) × (rx_all grow unmarshal
            (record { ah = wallet ops libs c; session = none })
            (format_response host (address_bytes r hrp path_bytes))
          ≡ returns (record { ah = wallet ops libs c; session = none }, sent))
        × IsRead grow host.channel sent ((pubkey ++ address) ++ (0x90 ∷ 0x00 ∷ []))
  unfolding wallet
  host_gets_address grow unmarshal host c r hrp path_bytes pubkey address path t channel below
        parsed valid fits twenty reads takes shows encodes small =
      let (sent, run, reader, got, has) =
        exchange grow unmarshal (wallet ops libs c) (wallet ops libs c) host
          (address_bytes r hrp path_bytes) ((pubkey ++ address) ++ (0x90 ∷ 0x00 ∷ [])) none channel
          below (omega (arith, length-append hrp path_bytes, fits, twenty, valid.hrp_short))
          (omega (
            arith,
            length-append (pubkey ++ address) (0x90 ∷ 0x00 ∷ []),
            length-append pubkey address,
          ))
          (λ beyond.
            wallet_answers ops libs unmarshal c c 0x04 (address_in r hrp path_bytes beyond)
              (record { response = pubkey ++ address; code = apdu_success; error = none }) parsed
              refl
              (address_request-answers ops libs c r hrp path_bytes beyond pubkey address path t
                valid fits twenty reads takes shows encodes)) in
      (sent, run, (reader, got, has))
