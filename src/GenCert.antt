-- ===== src/GenCert.antt =====
-- cmd/gen-cert/main.go: the tool that makes a key and a certificate that it signs itself.
pub mod SelfSigned
mod Examples
use wall_era.Common.{ℕ, String, List, [], ◌∷◌, ◌++◌, Option, none, some}
use wall_era.Common.Go.{Result, ok, err}
use wall_era.Common.Results.{◌>>=◌, wrap_err}

pub record Name : Type 0 where
  pub country : List String
  pub serial_number : String
  pub common_name : String

-- Of the algorithms of crypto/x509, those that the tool names.
pub data KeyAlgorithm : Type 0 where
  ecdsa : KeyAlgorithm

pub data SignatureAlgorithm : Type 0 where
  ecdsa_with_sha256 : SignatureAlgorithm

-- The fields of an `x509.Certificate` that the tool sets; times and keys are those of the libraries.
pub record Certificate (Time : Type 0) : Type 0 where
  pub not_before : Time
  pub not_after : Time
  pub serial_number : ℕ
  pub issuer : Name
  pub subject : Name
  pub public_key_algorithm : KeyAlgorithm
  pub signature_algorithm : SignatureAlgorithm

-- What the tool uses of the libraries. The two calls of `time.Now` have an outcome each.
pub record Pki : Type 1 where
  pub Time : Type 0
  pub Key : Type 0
  pub PublicKey : Type 0
  pub Error : Type 0
  pub rand_int : ℕ → Result Error ℕ
  pub first_now : Time
  pub second_now : Time
  -- `AddDate` of years, months and days.
  pub add_date : Time → ℕ → ℕ → ℕ → Time
  pub generate_key : Result Error Key
  pub public : Key → PublicKey
  -- Of a template, the parent, the public key and the key that signs.
  pub create_certificate :
      Certificate Time → Certificate Time → PublicKey → Key → Result Error (List ℕ)
  pub marshal_key : Key → Result Error (List ℕ)
  pub pem : String → List ℕ → List ℕ
  pub write_file : String → List ℕ → Option Error

pub data Failure (E : Type 0) : Type 0 where
  no_serial no_key no_certificate no_marshalled_key key_not_written certificate_not_written :
      E → Failure E

abbrev pub common_name : Name
common_name = record { country = "IT" ∷ []; serial_number = ""; common_name = "Fidati U2F Token" }

module _ (pki : Pki) where
  abbrev max_int64 : ℕ
  max_int64 = 9223372036854775807

  abbrev pub template : ℕ → Certificate pki.Time
  template serial = record {
    not_before = pki.first_now;
    not_after = pki.add_date pki.second_now 10 0 0;
    serial_number = serial;
    issuer = common_name;
    subject = common_name;
    public_key_algorithm = ecdsa;
    signature_algorithm = ecdsa_with_sha256;
  }

  -- What is made before anything is written: the key and the certificate, as bytes.
  abbrev pub made : Result (Failure pki.Error) (List ℕ × List ℕ)
  made = do
    serial ← wrap_err no_serial (pki.rand_int max_int64)
    privkey ← wrap_err no_key pki.generate_key
    cert_bytes ←
        wrap_err no_certificate
          (pki.create_certificate (template serial) (template serial) (pki.public privkey) privkey)
    privkey_der ← wrap_err no_marshalled_key (pki.marshal_key privkey)
    ok (privkey_der, cert_bytes)

  -- The files that were written, with the one whose writing failed, and the failure that ended the
  -- tool.
  abbrev pub GenRun : Type 0
  GenRun = List (String × List ℕ) × Option (Failure pki.Error)

  abbrev pub key_file : List ℕ → String × List ℕ
  key_file der = ("ecdsa_privkey.pem", pki.pem "EC PRIVATE KEY" der)

  abbrev pub certificate_file : List ℕ → String × List ℕ
  certificate_file bs = ("attestation_certificate.pem", pki.pem "CERTIFICATE" bs)

  abbrev pub certificate_written :
      List (String × List ℕ) → String × List ℕ → Option pki.Error → GenRun
  certificate_written files file none = (files ++ (file ∷ []), none)
  certificate_written files file (some e) = (files ++ (file ∷ []), some (certificate_not_written e))

  abbrev pub key_written : List ℕ → String × List ℕ → Option pki.Error → GenRun
  key_written cert_bytes file (some e) = (file ∷ [], some (key_not_written e))
  key_written cert_bytes file none =
      let next = certificate_file cert_bytes in
      certificate_written (file ∷ []) next (pki.write_file next.0 next.1)

  abbrev pub written : Result (Failure pki.Error) (List ℕ × List ℕ) → GenRun
  written (err e) = ([], some e)
  written (ok (der, cert_bytes)) =
      let file = key_file der in key_written cert_bytes file (pki.write_file file.0 file.1)

  unfoldable pub gen_cert : GenRun
  gen_cert = written made
