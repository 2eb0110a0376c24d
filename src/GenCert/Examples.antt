-- ===== src/GenCert/Examples.antt =====
-- The tool with stand-ins for the libraries.
use wall_era.Common.{ℕ, ◌+◌, ◌≡◌, refl, [], ◌∷◌, none}
use wall_era.Common.Go.{ok}
use wall_era.GenCert.{Pki, gen_cert}

-- Keys are numbers, and a signature is the key behind the serial number.
abbrev toy_pki : Pki
toy_pki = record {
  Time = ℕ;
  Key = ℕ;
  PublicKey = ℕ;
  Error = ℕ;
  rand_int = λ bound. ok 5;
  first_now = 100;
  second_now = 101;
  add_date = λ t y m d. t + y;
  generate_key = ok 7;
  public = λ k. k + 1;
  create_certificate = λ t p pub_key k. ok (t.serial_number ∷ pub_key ∷ k ∷ []);
  marshal_key = λ k. ok (k ∷ []);
  pem = λ kind bs. 45 ∷ bs;
  write_file = λ name bs. none;
}

both_files_written : gen_cert toy_pki ≡ (
  ("ecdsa_privkey.pem", 45 ∷ 7 ∷ []) ∷ ("attestation_certificate.pem", 45 ∷ 5 ∷ 8 ∷ 7 ∷ []) ∷ [],
  none,
)
unfolding gen_cert
both_files_written = refl
