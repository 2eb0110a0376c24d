-- ===== src/GenCert/SelfSigned.antt =====
-- The certificate and the key that the tool writes.
use wall_era.Common.{ℕ, String, ◌≡◌, ◌⊎◌, List, [], ◌∷◌, Option, none, some}
use wall_era.Common.Go.{ok}
use wall_era.GenCert.{
  Pki, Certificate, key_not_written, certificate_not_written, key_file, certificate_file, gen_cert,
}

module _ (pki : Pki) where
  -- These bytes are of a new key, and of a certificate for its public key that the key itself signs,
  -- with itself as parent, the issuer as subject, and ten years until it ends.
  pub record IsSelfSigned (der bs : List ℕ) : Type 0 where
    pub serial : ℕ
    pub privkey : pki.Key
    pub certificate : Certificate pki.Time
    pub numbered : certificate.serial_number ≡ serial
    pub same_name : certificate.issuer ≡ certificate.subject
    pub named : certificate.subject.common_name ≡ "Fidati U2F Token"
    pub begins : certificate.not_before ≡ pki.first_now
    pub ends : certificate.not_after ≡ pki.add_date pki.second_now 10 0 0
    pub has_serial : pki.rand_int 9223372036854775807 ≡ ok serial
    pub has_key : pki.generate_key ≡ ok privkey
    pub signed : pki.create_certificate certificate certificate (pki.public privkey) privkey ≡ ok bs
    pub marshalled : pki.marshal_key privkey ≡ ok der

  abbrev writes : String × List ℕ → Option pki.Error
  writes (name, content) = pki.write_file name content

  -- How the writing of both files ends.
  abbrev pub Ends : List ℕ → List ℕ → Type 0
  Ends der bs =
      ((e : pki.Error) × (writes (key_file pki der) ≡ some e)
        × (gen_cert pki ≡ (key_file pki der ∷ [], some (key_not_written e))))
      ⊎ ((writes (key_file pki der) ≡ none)
          × (((e : pki.Error) × (writes (certificate_file pki bs) ≡ some e)
                × (gen_cert pki ≡ (
                  key_file pki der ∷ certificate_file pki bs ∷ [],
                  some (certificate_not_written e),
                )))
              ⊎ ((writes (certificate_file pki bs) ≡ none)
                  × (gen_cert pki ≡ (key_file pki der ∷ certificate_file pki bs ∷ [], none)))))
