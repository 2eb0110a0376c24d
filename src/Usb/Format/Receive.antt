-- ===== src/Usb/Format/Receive.antt =====
-- A session on the other side that reads the frames of `FormatResponse`.
use wall_era.Common.{
  ℕ, ◌+◌, ◌≤◌, ◌<◌, ◌≡◌, ◌≢◌, refl, sym, ap, subst, ◌∙◌, arith, true, false, Option, List, [], ◌∷◌,
  ◌++◌, length, take, concat, none, some, length-append, take-append_add, append-nil, append_assoc,
}
use wall_era.Common.Go.{Result, ok, err, write, truncate}
use wall_era.Usb.Frame.{Error, invalid_data, next, encode_frame_next}
use wall_era.Usb.Frame.Wire.{IsFrameNext}
use wall_era.Usb.Session.{Session, finish, store_frame, read_data, new_session}
use wall_era.Usb.Session.Steps.{finish_short, finish_full, elems-write, read_data_next}
use wall_era.Usb.Format.{next_frame, array_of, format_chunks}
use wall_era.Usb.Format.Chunking.{IsChunking}
use wall_era.Usb.Format.Arrays.{length-array_of, array_of_exact, take-array_of}

concat_some :
    (part : List ℕ) (parts : List (List ℕ))
    → IsChunking 59 (part ∷ parts)
    → 0 < length (concat (part ∷ parts))
concat_some part [] (some_bytes, fits) = omega (arith, length-append part [])
concat_some part (part' ∷ parts) (full, shape) =
    omega (arith, length-append part (concat (part' ∷ parts)))

-- Reading stops at the first error.
module _ (grow : ℕ → ℕ) where
  abbrev pub receive_rest : Session → List (List ℕ) → Result Error Session
  receive_rest s [] = ok s
  receive_rest s (packet ∷ packets) = elim (read_data grow s packet).1 [
    | none ↦ receive_rest (read_data grow s packet).0 packets
    | some e ↦ err e
  ]

  abbrev pub receive_from : Result Error Session → List (List ℕ) → Result Error Session
  receive_from (err e) packets = err e
  receive_from (ok s) packets = receive_rest s packets

  -- Feed frames to a new session, as the handler of the other side does.
  abbrev pub receive : List (List ℕ) → Result Error Session
  receive [] = err invalid_data
  receive (packet ∷ packets) = receive_from (new_session grow packet) packets

-- A session that has read `got` of `total` bytes and waits for more.
pub record IsReading (s : Session) (channel index total : ℕ) (got : List ℕ) : Type 0 where
  pub channel_is : s.channel ≡ channel
  pub index_is : s.last_read_frame_index ≡ index
  pub total_is : s.amount_to_read ≡ total
  pub got_is : s.buffer.elems ≡ got
  pub more : s.should_read_more ≡ true

-- A session that has read exactly `bs`.
pub record HasRead (s : Session) (channel : ℕ) (bs : List ℕ) : Type 0 where
  pub channel_is : s.channel ≡ channel
  pub data_is : s.buffer.elems ≡ bs
  pub complete : s.should_read_more ≡ false

module _ (grow : ℕ → ℕ) where
  receive_rest_ok :
      (s s' : Session) (packet : List ℕ) (packets : List (List ℕ))
      → read_data grow s packet ≡ (s', none)
      → receive_rest grow s (packet ∷ packets) ≡ receive_rest grow s' packets
  receive_rest_ok s s' packet packets e =
      rw (e, receive_rest) (ap (λ (r : Session × Option Error). receive_rest grow r.0 packets) e)

abbrev after_next : (ℕ → ℕ) → ℕ → Session → ℕ → List ℕ → Session
after_next grow channel s index part =
    finish (store_frame grow (next (next_frame channel index part)) s)

module _ (grow : ℕ → ℕ) (channel : ℕ) (nonzero : channel ≢ 0) (fits : channel < 65536) where
  module _ (s : Session) (index total : ℕ) (got part : List ℕ)
      (h : IsReading s channel index total got) (small : index + 1 < 65536)
      (part_fits : length part ≤ 59) where
    next_frame-IsFrameNext : IsFrameNext (next_frame channel index part)
    next_frame-IsFrameNext = record {
      channel_fits = fits;
      index_fits = omega arith;
      data_size = length-array_of 59 part part_fits;
    }

    read_next :
        read_data grow s (encode_frame_next (next_frame channel index part))
        ≡ (after_next grow channel s index part, none)
    read_next =
        read_data_next grow s (next_frame channel index part) next_frame-IsFrameNext refl
          (λ e. nonzero (sym h.channel_is ∙ e)) (sym h.channel_is) h.more
          (omega (arith, h.index_is)) (omega arith)

    elems_next : (write grow s.buffer (array_of 59 part)).elems ≡ got ++ array_of 59 part
    elems_next =
        elems-write grow s.buffer (array_of 59 part)
        ∙ ap (λ (t : List ℕ). t ++ array_of 59 part) h.got_is

    length_next : length (write grow s.buffer (array_of 59 part)).elems ≡ length got + 59
    length_next =
        ap length elems_next
        ∙ omega (arith, length-append got (array_of 59 part), length-array_of 59 part part_fits)

    after_next-IsReading :
        length part ≡ 59
        → length got + 59 < total
        → IsReading (after_next grow channel s index part) channel (index + 1) total (got ++ part)
    after_next-IsReading full short =
        rw
          (finish_short (store_frame grow (next (next_frame channel index part)) s)
            (omega (arith, length_next, h.total_is)))
          (record {
            channel_is = refl;
            index_is = omega arith;
            total_is = h.total_is;
            got_is = elems_next ∙ ap (λ (t : List ℕ). got ++ t) (array_of_exact 59 part full);
            more = h.more;
          })

    after_next-HasRead :
        length got + length part ≡ total
        → HasRead (after_next grow channel s index part) channel (got ++ part)
    unfolding truncate
    after_next-HasRead done =
        rw
          (finish_full (store_frame grow (next (next_frame channel index part)) s)
            (omega (arith, length_next, h.total_is)))
          (record {
            channel_is = refl;
            data_is =
                ap (λ (n : ℕ). take n (write grow s.buffer (array_of 59 part)).elems)
                  (h.total_is ∙ sym done)
                ∙ ap (take (length got + length part)) elems_next
                ∙ take-append_add got (array_of 59 part) (length part)
                ∙ ap (λ (t : List ℕ). got ++ t) (take-array_of 59 part part_fits);
            complete = refl;
          })

  -- The follow-up frames of a chunked rest complete a session that waits for that rest.
  pub receive-format_chunks :
      (s : Session) (index total : ℕ) (got : List ℕ) (parts : List (List ℕ))
      → IsReading s channel index total got
      → IsChunking 59 parts
      → length got + length (concat parts) ≡ total
      → index + length parts < 65536
      → (s' : Session) × (receive_rest grow s (format_chunks channel index parts) ≡ ok s')
        × HasRead s' channel (got ++ concat parts)
  unfolding format_chunks
  receive-format_chunks s index total got [] h shape sum small = absurd shape
  receive-format_chunks s index total got (part ∷ []) h (some_bytes, part_fits) sum small = (
    after_next grow channel s index part,
    receive_rest_ok grow s _ _ [] (read_next s index total got part h (omega arith) part_fits),
    rw (append-nil part) (
        after_next-HasRead s index total got part h (omega arith) part_fits
          (omega (arith, length-append part []))),
  )
  receive-format_chunks s index total got (part ∷ part' ∷ parts) h (full, shape) sum small =
      let s1 : Session = after_next grow channel s index part in
      let whole : length (concat (part ∷ part' ∷ parts)) ≡ 59 + length (concat (part' ∷ parts)) =
        omega (arith, length-append part (concat (part' ∷ parts))) in
      let reading : IsReading s1 channel (index + 1) total (got ++ part) =
        after_next-IsReading s index total got part h (omega arith) (omega arith) full
          (omega (arith, concat_some part' parts shape)) in
      let (s', run, result) =
        receive-format_chunks s1 (index + 1) total (got ++ part) (part' ∷ parts) reading shape
          (omega (arith, length-append got part)) (omega arith) in
      (
        s',
        receive_rest_ok grow s s1 _ (format_chunks channel (index + 1) (part' ∷ parts))
              (read_next s index total got part h (omega arith) (omega arith))
            ∙ run,
        subst (HasRead s' channel) (append_assoc got part (concat (part' ∷ parts))) result,
      )
