-- ===== src/Device/Firmware/Wallet/SecureRefused.antt =====
-- What the host gets when the applet's token refuses the path. `Initialize` of the token of the
-- non-secure world keeps the path without a look at it, so that the applet finds out first.
use mathlib.Core.List.{Memᴰ}
use wall_era.Common.{
  ℕ, ◌≤◌, ◌<◌, ◌≡◌, ◌≢◌, refl, ap, true, Option, none, some, List, [], ◌∷◌, ◌++◌, length, concat,
  map, replicate,
}
use wall_era.Common.Go.{Outcome, returns, exact}
use wall_era.Crypto.{Random, DerivationPath, Keychain, TokenError, algo_secp256k1}
use wall_era.Crypto.DumbToken.{DumbToken, new_dumb_token, initialize}
use wall_era.Usb.Session.{Session}
use wall_era.Apps.{Capdu}
use wall_era.Apps.Cosmos.{Cosmos, Libraries, path_from}
use wall_era.Apps.Cosmos.Signing.{sign_bytes}
use wall_era.Tz.{Context, contains, no_result}
use wall_era.Tee.{Json}
use wall_era.Tee.Client.{TeeToken, mailbox_error}
use wall_era.Tee.TeeToken.{answer}
use wall_era.Tee.SecureToken.{new_secure_token, secure_token}
use wall_era.Tee.SecureToken.Refines.{secure_world, initialized}
use wall_era.Tee.Trip.{idle, CarriesSign, sign_request, tee_sign_fails}
use wall_era.Device.Firmware.{converse}
use wall_era.Device.Firmware.Conversation.{AreRead}
use wall_era.Device.Firmware.Wallet.{wallet}
use wall_era.Device.Firmware.Wallet.Refusals.{sign_failed, host_gets_refusal}
use wall_era.Device.Firmware.Wallet.Secure.{applet_token}

module _ {B J : Type 0} (kc : Keychain) (rand : Random kc.Error) (hmac : List ℕ → List ℕ → List ℕ)
    (json : Json J) (fatal : Context → Outcome Context) (others : ℕ → Context → Outcome Context)
    (apps : List ℕ) (registered : contains apps 42 ≡ true) (libs : Libraries B)
    (unmarshal : List ℕ → Option Capdu)
    (parses : (descr : ℕ) (body : List ℕ)
      → length body < 256
      → unmarshal (sign_bytes descr body) ≡ some (record { cla = 0x55; ins = 0x02 })) where
  -- In the build with the trusted environment, a path that a new software token would refuse is taken
  -- without an error, and the whole document is read before the applet refuses the path: then the
  -- host gets 90 00 for every packet but the last, and 64 00 for that one. The firmware is idle
  -- again, without a signature session. The bytes have to be JSON, JSON to carry the request to the
  -- applet, and the applet to end on the refusal without a change of the mailboxes.
  pub applet_refuses_path :
      (grow : ℕ → ℕ) (host : Session) (c : Cosmos TeeToken) (path_bytes last : List ℕ)
      (bodies : List (List ℕ)) (path : DerivationPath) (t : DumbToken kc) (e : TokenError kc.Error)
      → host.channel ≢ 0
      → host.channel < 65536
      → length path_bytes < 256
      → 20 ≤ length path_bytes
      → path_from (exact path_bytes) ≡ returns path
      → ((body : List ℕ) → Memᴰ body bodies → length body < 256)
      → length last < 256
      → libs.json_valid (concat bodies ++ last) ≡ true
      → CarriesSign json
          (sign_request libs.sha256 (record { path = path }) (libs.sha256 (concat bodies ++ last)))
      → initialize kc rand hmac (new_dumb_token kc) path ≡ (t, some e)
      → fatal (idle apps) ≡ returns (idle apps)
      → (frames : List (List (List ℕ))) × (converse grow unmarshal host
            (record {
              ah = wallet (applet_token kc rand hmac json fatal others apps registered libs) libs c;
              session = none;
            })
            (sign_bytes 0 path_bytes ∷ (map (sign_bytes 1) bodies ++ (sign_bytes 2 last ∷ [])))
          ≡ returns (
            record {
              ah =
                  wallet
                    (applet_token kc rand hmac json fatal others apps registered libs)
                    libs
                    (record c { current_signature_session = none });
              session = none;
            },
            frames,
          ))
        × AreRead grow host.channel frames (
            (0x90 ∷ 0x00 ∷ [])
            ∷ (replicate (length bodies) (0x90 ∷ 0x00 ∷ []) ++ ((0x64 ∷ 0x00 ∷ []) ∷ [])))
  applet_refuses_path grow host c path_bytes last bodies path t e channel fits short long reads
        small small_last is_json asks refuses quits =
      let (st, same, run) =
        initialized kc rand hmac json fatal others apps registered path t (some e) refuses in
      host_gets_refusal (applet_token kc rand hmac json fatal others apps registered libs) libs
        unmarshal parses grow host c path_bytes last bodies path 0x6400 channel fits short long
        reads small small_last
        (sign_failed (record { path = path }) (mailbox_error no_result) refl is_json
          (ap
            (answer json (secure_world kc rand hmac json fatal others apps registered) libs.sha256
              apps)
            (tee_sign_fails json (secure_token kc rand hmac) (new_secure_token kc) fatal others apps
              registered libs.sha256 (record { path = path }) (libs.sha256 (concat bodies ++ last))
              algo_secp256k1 st e asks run quits)))
