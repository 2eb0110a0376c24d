-- ===== src/Tee/Demo/Shows.antt =====
-- What the demonstration shows, with the applet behind the mailboxes.
use wall_era.Common.{ℕ, ◌≡◌, refl, true, List, [], ◌∷◌, none, some, replicate}
use wall_era.Common.Go.{Outcome, returns, ok, err}
use wall_era.Crypto.{Token, algo_secp256k1}
use wall_era.Tz.{Context, no_result, contains}
use wall_era.Tee.{
  Json, Fields, Struct, DispatchError, dispatch, token_failed, request_random_bytes, request_sign,
  request_public_key, request_mnemonic, request_supported_sign_algorithms, a_request,
  a_random_bytes_request, a_sign_request, a_public_key_request, a_mnemonic_request,
  a_supported_request, a_random_bytes_response, a_sign_response, a_public_key_response,
  a_mnemonic_response, a_supported_response,
}
use wall_era.Tee.Client.{mailbox_error, run_applet, do_request}
use wall_era.Tee.Trip.{
  idle, Carries, CarriesSign, CarriesPublicKey, do_request-answered, do_request-failed,
  dispatch-sign, dispatch-public_key,
}
use wall_era.Tee.Demo.{
  demo_path, words_shown, pubkey_shown, signature_shown, data_shown, algorithms_shown,
  demo_mnemonic_request, demo_public_key_request, demo_random_bytes_request, demo_sign_request,
  demo_supported_request, demo_do_request, demo_mnemonic, demo_pubkey, demo_random_bytes, demo_sign,
  demo_supported_algorithms, demo_loop, demo_main,
}

-- JSON carries a request of this number, and the number can be read alone.
pub record CarriesNumbered {J : Type 0} (json : Json J) (s : Struct) (v : Fields s) (req_id : ℕ)
    : Type 0 where
  pub numbered : Carries json s v
  pub reads_number : json.unmarshal a_request numbered.written_as ≡ ok (record { id = req_id })

-- JSON carries the requests of the demonstration and these answers to them.
pub record CarriesDemo {J : Type 0} (json : Json J) (sha256 : List ℕ → List ℕ)
    (words : List (List ℕ)) (key signature random : List ℕ) (algorithms : List ℕ) : Type 0 where
  pub asks_words : CarriesNumbered json a_mnemonic_request demo_mnemonic_request request_mnemonic
  pub asks_key : CarriesPublicKey json demo_public_key_request
  pub asks_signature : CarriesSign json (demo_sign_request sha256)
  pub asks_random :
      CarriesNumbered json a_random_bytes_request demo_random_bytes_request request_random_bytes
  pub asks_algorithms :
      CarriesNumbered json a_supported_request demo_supported_request
        request_supported_sign_algorithms
  pub gives_words :
      Carries json a_mnemonic_response (record { id = request_mnemonic; words = words })
  pub gives_key :
      Carries json a_public_key_response (record { id = request_public_key; data_bytes = key })
  pub gives_signature :
      Carries json a_sign_response (record { id = request_sign; data_bytes = signature })
  pub gives_random :
      Carries json a_random_bytes_response
        (record { id = request_random_bytes; data_bytes = random })
  pub gives_algorithms :
      Carries json a_supported_response
        (record { id = request_supported_sign_algorithms; algorithms = algorithms })

module _ {T E J : Type 0} (json : Json J) (ops : Token T E) (new_token : T)
    (fatal : Context → Outcome Context) (others : ℕ → Context → Outcome Context) (apps : List ℕ)
    (registered : contains apps 42 ≡ true) where
  abbrev run : ℕ → Context → Outcome Context
  run = run_applet json ops new_token fatal others

  demo_do_request-answered :
      (q s : Struct) (req : Fields q) (v : Fields s) (bs resp : List ℕ)
      → json.marshal q req ≡ ok bs
      → dispatch json ops bs new_token ≡ returns (ok resp)
      → json.unmarshal s resp ≡ ok v
      → demo_do_request json run q s (idle apps) req ≡ returns (idle apps, ok v)
  unfolding demo_do_request do_request
  demo_do_request-answered q s req v bs resp packs runs unpacks =
      do_request-answered json ops new_token fatal others apps registered q s req v bs resp packs
        runs unpacks

  demo_do_request-failed :
      (q s : Struct) (req : Fields q) (bs : List ℕ) (e : DispatchError E J)
      → json.marshal q req ≡ ok bs
      → dispatch json ops bs new_token ≡ returns (err e)
      → fatal (idle apps) ≡ returns (idle apps)
      → demo_do_request json run q s (idle apps) req
        ≡ returns (idle apps, err (mailbox_error no_result))
  unfolding demo_do_request do_request
  demo_do_request-failed q s req bs e packs runs quits =
      do_request-failed json ops new_token fatal others apps registered q s req bs e packs runs
        quits

  module _ (sha256 : List ℕ → List ℕ) (words : List (List ℕ)) (key signature random : List ℕ)
      (t : T)
      (c : CarriesDemo json sha256 words key signature random
        (ops.supported_sign_algorithms new_token))
      (takes_path : ops.initialize (ops.clone new_token) demo_path ≡ (t, none)) where
    demo_mnemonic-shows :
        ops.mnemonic t ≡ returns (ok words)
        → demo_mnemonic json run (idle apps) ≡ returns (idle apps, ok (words_shown words))
    unfolding demo_mnemonic dispatch
    demo_mnemonic-shows h =
        rw
          (demo_do_request-answered a_mnemonic_request a_mnemonic_response demo_mnemonic_request
            (record { id = request_mnemonic; words = words }) c.asks_words.numbered.written_as
            c.gives_words.written_as c.asks_words.numbered.writes
            (rw
              (
                c.asks_words.reads_number, c.asks_words.numbered.reads, takes_path, h,
                c.gives_words.writes,
              )
              refl)
            c.gives_words.reads)
          refl

    demo_pubkey-shows :
        ops.public_key t ≡ returns (ok key)
        → demo_pubkey json run (idle apps) ≡ returns (idle apps, ok (pubkey_shown key))
    unfolding demo_pubkey
    demo_pubkey-shows h =
        rw
          (demo_do_request-answered a_public_key_request a_public_key_response
            demo_public_key_request (record { id = request_public_key; data_bytes = key })
            c.asks_key.carried.written_as c.gives_key.written_as c.asks_key.carried.writes
            (dispatch-public_key json ops new_token fatal others apps registered
              demo_public_key_request key t refl c.asks_key c.gives_key takes_path h)
            c.gives_key.reads)
          refl

    demo_sign-shows :
        ops.sign t (sha256 (replicate 42 42)) algo_secp256k1 ≡ returns (ok signature)
        → demo_sign json run sha256 (idle apps)
          ≡ returns (idle apps, ok (signature_shown signature))
    unfolding demo_sign
    demo_sign-shows h =
        rw
          (demo_do_request-answered a_sign_request a_sign_response (demo_sign_request sha256)
            (record { id = request_sign; data_bytes = signature })
            c.asks_signature.carried.written_as c.gives_signature.written_as
            c.asks_signature.carried.writes
            (dispatch-sign json ops new_token fatal others apps registered
              (demo_sign_request sha256) signature t refl c.asks_signature c.gives_signature
              takes_path h)
            c.gives_signature.reads)
          refl

    demo_random_bytes-shows :
        ops.random_bytes new_token 42 ≡ returns (ok random)
        → demo_random_bytes json run (idle apps) ≡ returns (idle apps, ok (data_shown random))
    unfolding demo_random_bytes dispatch
    demo_random_bytes-shows h =
        rw
          (demo_do_request-answered a_random_bytes_request a_random_bytes_response
            demo_random_bytes_request (record { id = request_random_bytes; data_bytes = random })
            c.asks_random.numbered.written_as c.gives_random.written_as
            c.asks_random.numbered.writes
            (rw (c.asks_random.reads_number, c.asks_random.numbered.reads, h, c.gives_random.writes)
              refl)
            c.gives_random.reads)
          refl

    demo_supported_algorithms-shows :
        demo_supported_algorithms json run (idle apps)
        ≡ returns (idle apps, ok (algorithms_shown (ops.supported_sign_algorithms new_token)))
    unfolding demo_supported_algorithms dispatch
    demo_supported_algorithms-shows =
        rw
          (demo_do_request-answered a_supported_request a_supported_response demo_supported_request
            (record {
              id = request_supported_sign_algorithms;
              algorithms = ops.supported_sign_algorithms new_token;
            })
            c.asks_algorithms.numbered.written_as c.gives_algorithms.written_as
            c.asks_algorithms.numbered.writes
            (rw (c.asks_algorithms.reads_number, c.gives_algorithms.writes) refl)
            c.gives_algorithms.reads)
          refl

    -- The demonstration, started with no mail waiting and with the applet registered, shows in this
    -- order the words, the public key and the signature of the SHA-256 of 42 bytes 42 of a clone of
    -- the applet's new token that took the path 44, 118, 0, 0, 0, then 42 random bytes and the
    -- algorithms of that token, each answer being the token's; it ends without an error, and leaves
    -- no mail and no result behind. The token has to give these answers, and JSON to carry the
    -- requests and them.
    pub demo_main-shows :
        ops.mnemonic t ≡ returns (ok words)
        → ops.public_key t ≡ returns (ok key)
        → ops.sign t (sha256 (replicate 42 42)) algo_secp256k1 ≡ returns (ok signature)
        → ops.random_bytes new_token 42 ≡ returns (ok random)
        → demo_main json run sha256 (idle apps)
          ≡ returns (
            idle apps,
            words_shown words
                ∷ pubkey_shown key
                ∷ signature_shown signature
                ∷ data_shown random
                ∷ algorithms_shown (ops.supported_sign_algorithms new_token)
                ∷ [],
            none,
          )
    unfolding demo_main demo_loop
    demo_main-shows says shows signs rolls =
        rw
          (
            demo_mnemonic-shows says,
            demo_pubkey-shows shows,
            demo_sign-shows signs,
            demo_random_bytes-shows rolls,
            demo_supported_algorithms-shows,
          )
          refl

  -- Where the applet's token refuses the path of the demonstration, and the applet ends on that
  -- without a change of the mailboxes, the demonstration ends at its first request: it shows
  -- nothing, and logs the error that there is no result. The request has to be carried by JSON.
  pub demo_main-refused :
      (sha256 : List ℕ → List ℕ) (t : T) (e : E)
      → CarriesNumbered json a_mnemonic_request demo_mnemonic_request request_mnemonic
      → ops.initialize (ops.clone new_token) demo_path ≡ (t, some e)
      → fatal (idle apps) ≡ returns (idle apps)
      → demo_main json run sha256 (idle apps)
        ≡ returns (idle apps, [], some (mailbox_error no_result))
  unfolding demo_main demo_loop demo_mnemonic dispatch
  demo_main-refused sha256 t e asks refuses quits =
      rw
        (demo_do_request-failed a_mnemonic_request a_mnemonic_response demo_mnemonic_request
          asks.numbered.written_as (token_failed e) asks.numbered.writes
          (rw (asks.reads_number, asks.numbered.reads, refuses) refl) quits)
        refl
