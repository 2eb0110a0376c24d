-- ===== src/Tee/SecureToken/Refines.antt =====
-- The token of the non-secure world, with the applet's own token behind the mailboxes, beside the
-- software token.
use wall_era.Common.{ℕ, ◌≡◌, sym, ap, ◌∙◌, true, List, Option, none}
use wall_era.Common.Go.{Outcome, returns, ok}
use wall_era.Crypto.{Random, DerivationPath, Keychain, TokenError, algo_secp256k1}
use wall_era.Crypto.DumbToken.{DumbToken, new_dumb_token, initialize, sign, public_key}
use wall_era.Tz.{Context, contains}
use wall_era.Tee.{Json, request_sign, request_public_key, a_sign_response, a_public_key_response}
use wall_era.Tee.Client.{TeeToken, run_applet, tee_sign, tee_public_key}
use wall_era.Tee.SecureToken.{SecureToken, new_secure_token, secure_token, secure_initialize}
use wall_era.Tee.SecureToken.Agreement.{
  as_dumb, sign-as_dumb, public_key-as_dumb, initialize-as_dumb,
}
use wall_era.Tee.Trip.{
  idle, Carries, CarriesSign, CarriesPublicKey, sign_request, public_key_request, tee_sign_lem,
  tee_public_key_lem,
}

module _ {J : Type 0} (kc : Keychain) (rand : Random kc.Error) (hmac : List ℕ → List ℕ → List ℕ)
    (json : Json J) (fatal : Context → Outcome Context) (others : ℕ → Context → Outcome Context)
    (apps : List ℕ) (registered : contains apps 42 ≡ true) where
  -- The applets of the secure world, with the applet's own token.
  abbrev pub secure_world : ℕ → Context → Outcome Context
  secure_world = run_applet json (secure_token kc rand hmac) (new_secure_token kc) fatal others

  -- The applet's token after a software token took the path, with the same outcome.
  pub initialized :
      (path : DerivationPath) (t : DumbToken kc) (e : Option (TokenError kc.Error))
      → initialize kc rand hmac (new_dumb_token kc) path ≡ (t, e)
      → (st : SecureToken kc) × (as_dumb st ≡ t)
        × (secure_initialize kc rand hmac (new_secure_token kc) path ≡ (st, e))
  initialized path t e init =
      let run : (
        as_dumb (secure_initialize kc rand hmac (new_secure_token kc) path).0,
        (secure_initialize kc rand hmac (new_secure_token kc) path).1,
      )
          ≡ (t, e) =
        sym (initialize-as_dumb kc rand hmac (new_secure_token kc) path) ∙ init in
      (
        (secure_initialize kc rand hmac (new_secure_token kc) path).0,
        ap (λ (r : DumbToken kc × Option (TokenError kc.Error)). r.0) run,
        λ i. ((secure_initialize kc rand hmac (new_secure_token kc) path).0, (run i).1),
      )

  -- `Sign` of the token of the non-secure world returns the signature that a new software token
  -- makes, after it took the same path, of the hash of the data instead of the data. No mail and
  -- no result may wait, the applet is registered, and JSON carries the request and the response.
  pub tee_sign-dumb_token :
      (sha256 : List ℕ → List ℕ) (tok : TeeToken) (bs signature : List ℕ) (algorithm : ℕ)
      (t : DumbToken kc)
      → CarriesSign json (sign_request sha256 tok bs)
      → Carries json a_sign_response (record { id = request_sign; data_bytes = signature })
      → initialize kc rand hmac (new_dumb_token kc) tok.path ≡ (t, none)
      → sign kc rand hmac t (sha256 bs) algo_secp256k1 ≡ returns (ok signature)
      → tee_sign json secure_world sha256 tok (idle apps) bs algorithm
        ≡ returns (idle apps, ok signature)
  tee_sign-dumb_token sha256 tok bs signature algorithm t out back init signs =
      let (st, same, run) = initialized tok.path t none init in
      tee_sign_lem json (secure_token kc rand hmac) (new_secure_token kc) fatal others apps
        registered sha256 tok bs signature algorithm st out back run
        (sign-as_dumb kc rand hmac st (sha256 bs) algo_secp256k1
          ∙ ap (λ (u : DumbToken kc). sign kc rand hmac u (sha256 bs) algo_secp256k1) same
          ∙ signs)

  -- `PublicKey` of the token of the non-secure world returns the public key of a new software token
  -- that took the same path. No mail and no result may wait, the applet is registered, and JSON
  -- carries the request and the response.
  pub tee_public_key-dumb_token :
      (tok : TeeToken) (key : List ℕ) (t : DumbToken kc)
      → CarriesPublicKey json (public_key_request tok)
      → Carries json a_public_key_response (record { id = request_public_key; data_bytes = key })
      → initialize kc rand hmac (new_dumb_token kc) tok.path ≡ (t, none)
      → public_key kc rand hmac t ≡ returns (ok key)
      → tee_public_key json secure_world tok (idle apps) ≡ returns (idle apps, ok key)
  tee_public_key-dumb_token tok key t out back init shows =
      let (st, same, run) = initialized tok.path t none init in
      tee_public_key_lem json (secure_token kc rand hmac) (new_secure_token kc) fatal others apps
        registered tok key st out back run
        (public_key-as_dumb kc rand hmac st ∙ ap (public_key kc rand hmac) same ∙ shows)
