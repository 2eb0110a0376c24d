-- ===== src/Tee/TeeToken.antt =====
-- tee/cryptography_applet/token/client/tee_token.go: `TEEToken` as a token. Each request is made
-- while no mail and no result waits, which is how every request leaves the mailboxes.
use wall_era.Common.{ℕ, List, none}
use wall_era.Common.Go.{Outcome, returns, panics, Result, ok}
use wall_era.Crypto.{Token, zero_path}
use wall_era.Tz.{Context}
use wall_era.Tee.{Json}
use wall_era.Tee.Client.{
  TeeToken, ClientError, ClientResult, tee_random_bytes, tee_derive_secret, tee_initialize,
  tee_sign, tee_public_key, tee_mnemonic, tee_clone, tee_supported_sign_algorithms,
}
use wall_era.Tee.Trip.{idle}

-- `&TEEToken{}`.
abbrev pub new_tee_token : TeeToken
new_tee_token = record { path = zero_path }

module _ {J : Type 0} (json : Json J) (run_ta : ℕ → Context → Outcome Context)
    (sha256 : List ℕ → List ℕ) (apps : List ℕ) where
  -- The answer of a request, which leaves the mailboxes as it found them.
  abbrev pub answer : {A : Type 0} → ClientResult json run_ta A → Outcome (Result (ClientError J) A)
  answer panics = panics
  answer (returns (c, r)) = returns r

  -- `*TEEToken` implements `crypto.Token`.
  abbrev pub tee_token : Token TeeToken (ClientError J)
  tee_token = record {
    random_bytes = λ tok amount. answer (tee_random_bytes json run_ta tok (idle apps) amount);
    derive_secret = λ tok. ok (tee_derive_secret tok);
    initialize = λ tok path. (tee_initialize tok path, none);
    sign = λ tok bs algorithm. answer (tee_sign json run_ta sha256 tok (idle apps) bs algorithm);
    public_key = λ tok. answer (tee_public_key json run_ta tok (idle apps));
    mnemonic = λ tok. answer (tee_mnemonic json run_ta tok (idle apps));
    clone = tee_clone;
    supported_sign_algorithms = tee_supported_sign_algorithms;
  }
