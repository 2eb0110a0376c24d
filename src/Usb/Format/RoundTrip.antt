-- ===== src/Usb/Format/RoundTrip.antt =====
-- A receiver that reads the frames of `FormatResponse` gets the response back.
use wall_era.Common.{
  ℕ, ◌+◌, ◌-◌, ◌≤◌, ◌<◌, ◌≡◌, ◌≢◌, refl, ap, subst, ◌∙◌, arith, not, true, List, [], ◌∷◌, ◌++◌, leb,
  length, take, drop, concat, length-append, length-take, length-drop, take-append-drop, leb→le,
  le→leb, leb-false, Bool-cases, inl, inr,
}
use wall_era.Common.Go.{Result, ok, truncate}
use wall_era.Common.Bytes.{uint16}
use wall_era.Usb.Frame.{Error, first, encode_frame}
use wall_era.Usb.Session.{Session, fresh, note_length, finish, store_frame, new_session}
use wall_era.Usb.Session.Steps.{finish_short, finish_full, elems-write, new_session_first}
use wall_era.Usb.Format.{first_frame, array_of, chunk_func, chunk, format_chunks, format_response}
use wall_era.Usb.Format.Chunking.{IsChunking, chunk_func-IsChunking}
use wall_era.Usb.Format.Arrays.{length-array_of, array_of_exact, take-array_of}
use wall_era.Usb.Format.Receive.{receive, receive_from, IsReading, HasRead, receive-format_chunks}

chunks_le_bytes :
    (parts : List (List ℕ)) → IsChunking 59 parts → length parts ≤ length (concat parts)
chunks_le_bytes [] shape = omega arith
chunks_le_bytes (part ∷ []) (some_bytes, fits) = omega (arith, length-append part [])
chunks_le_bytes (part ∷ part' ∷ parts) (full, shape) =
    omega
      (arith, length-append part (concat (part' ∷ parts)), chunks_le_bytes (part' ∷ parts) shape)

abbrev started : (ℕ → ℕ) → ℕ → ℕ → List ℕ → Session
started grow channel total part =
    note_length (first (first_frame channel total part))
      (store_frame grow (first (first_frame channel total part)) fresh)

module _ (grow : ℕ → ℕ) (channel total : ℕ) (part : List ℕ) (nonzero : channel ≢ 0)
    (fits : channel < 65536) (small : total < 65536) (part_fits : length part ≤ 57) where
  abbrev begun : Session
  begun = started grow channel total part

  new_session-first_frame :
      new_session grow (encode_frame (first_frame channel total part))
      ≡ ok (finish (started grow channel total part))
  new_session-first_frame =
      new_session_first grow (first_frame channel total part)
        (record {
          channel_fits = fits;
          index_fits = omega arith;
          length_fits = omega arith;
          data_size = length-array_of 57 part part_fits;
        })
        refl nonzero

  elems-started : (started grow channel total part).buffer.elems ≡ array_of 57 part
  elems-started = elems-write grow fresh.buffer (array_of 57 part)

  started-HasRead :
      total ≡ length part → HasRead (finish (started grow channel total part)) channel part
  unfolding truncate
  started-HasRead done =
      rw
        (finish_full begun
          (omega (arith, ap length elems-started, length-array_of 57 part part_fits)))
        (record {
          channel_is = refl;
          data_is =
              ap (λ (n : ℕ). take n begun.buffer.elems) {y = length part} (omega arith)
              ∙ ap (take (length part)) elems-started
              ∙ take-array_of 57 part part_fits;
          complete = refl;
        })

  started-IsReading :
      length part ≡ 57
      → 57 < total
      → IsReading (finish (started grow channel total part)) channel 0 total part
  started-IsReading full long =
      rw
        (finish_short begun
          (omega (arith, ap length elems-started, length-array_of 57 part part_fits)))
        (record {
          channel_is = refl;
          index_is = refl;
          total_is = omega arith;
          got_is = elems-started ∙ array_of_exact 57 part full;
          more = ap not (leb-false (uint16 total) 57 (omega arith));
        })

-- The first frame of a response that needs more than one opens a session that waits.
pub format_response-begins :
    (grow : ℕ → ℕ) (s : Session) (bs : List ℕ)
    → s.channel ≢ 0
    → s.channel < 65536
    → length bs < 65536
    → 57 < length bs
    → (first : List ℕ) × (rest : List (List ℕ)) × (s1 : Session) × (format_response s bs
        ≡ first ∷ rest)
      × (new_session grow first ≡ ok s1)
      × (s1.channel ≡ s.channel)
      × (s1.should_read_more ≡ true)
unfolding format_response
format_response-begins grow s bs nonzero fits small long =
    let front : List ℕ = take 57 bs in
    let rest : List ℕ = drop 57 bs in
    let total : ℕ = length rest + length front in
    let front_is : length front ≡ 57 = omega (arith, length-take 57 bs) in
    let rest_is : length rest ≡ length bs - 57 = length-drop 57 bs in
    let reading =
      started-IsReading grow s.channel total front nonzero fits (omega arith) (omega arith) front_is
        (omega arith) in
    (
      encode_frame (first_frame s.channel total front),
      format_chunks s.channel 0 (chunk rest),
      finish (started grow s.channel total front),
      rw (leb-false (length bs) 57 long),
      new_session-first_frame grow s.channel total front nonzero fits (omega arith) (omega arith),
      reading.channel_is,
      reading.more,
    )

-- A response in one frame.
pub format_response-single :
    (s : Session) (bs : List ℕ)
    → length bs ≤ 57
    → (frame : List ℕ) × (format_response s bs ≡ frame ∷ [])
unfolding format_response
format_response-single s bs short =
    (encode_frame (first_frame s.channel (length bs) bs), rw (le→leb (length bs) 57 short))

-- A response of fewer than 65536 bytes, cut into frames for a session with a channel, is put
-- together again by a new session on the other side: that session ends complete, with the same
-- channel and with exactly the bytes of the response. This holds for every allocation policy.
pub receive-format_response :
    (grow : ℕ → ℕ) (s : Session) (bs : List ℕ)
    → s.channel ≢ 0
    → s.channel < 65536
    → length bs < 65536
    → (s' : Session) × (receive grow (format_response s bs) ≡ ok s') × HasRead s' s.channel bs
unfolding format_response chunk
receive-format_response grow s bs nonzero fits small = elim (Bool-cases (leb (length bs) 57)) [
  | inl short ↦
      let le : length bs ≤ 57 = leb→le _ _ short in
      rw short (
        finish (started grow s.channel (length bs) bs),
        ap (λ (r : Result Error Session). receive_from grow r [])
            (new_session-first_frame grow s.channel (length bs) bs nonzero fits small le),
        started-HasRead grow s.channel (length bs) bs nonzero fits small le refl,
      )
  | inr long ↦
      let front : List ℕ = take 57 bs in
      let rest : List ℕ = drop 57 bs in
      let big : 57 < length bs = ground arith in
      let front_is : length front ≡ 57 = omega (arith, length-take 57 bs) in
      let rest_is : length rest ≡ length bs - 57 = length-drop 57 bs in
      let total : ℕ = length rest + length front in
      let (shape, whole) = chunk_func-IsChunking rest 59 (omega arith) (omega arith) in
      let sum : length front + length (concat (chunk_func rest 59)) ≡ total =
        omega (arith, ap length whole) in
      let (s', run, result) =
        receive-format_chunks grow s.channel nonzero fits
          (finish (started grow s.channel total front)) 0 total front (chunk_func rest 59)
          (started-IsReading grow s.channel total front nonzero fits (omega arith) (omega arith)
            front_is (omega arith))
          shape sum (omega (arith, chunks_le_bytes (chunk_func rest 59) shape)) in
      rw long (
        s',
        ap
              (λ (r : Result Error Session).
                receive_from grow r (format_chunks s.channel 0 (chunk_func rest 59)))
              (new_session-first_frame grow s.channel total front nonzero fits (omega arith)
                (omega arith))
            ∙ run,
        subst (HasRead s' s.channel)
            (ap (λ (t : List ℕ). front ++ t) whole ∙ take-append-drop 57 bs) result,
      )
]
