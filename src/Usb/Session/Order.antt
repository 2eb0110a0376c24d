-- ===== src/Usb/Session/Order.antt =====
-- Sessions whose first frame has packet index 0, and one that has the last index.
use wall_era.Common.{
  ℕ, ◌+◌, ◌-◌, ◌*◌, ◌<◌, ◌≡◌, ◌≢◌, refl, sym, ap, ◌∙◌, subst, arith, true, not, List, [], ◌∷◌,
  leb-false, inl, inr,
}
use native.Mathlib.Decide.{dec_lt}
use wall_era.Common.Go.{ok, len}
use wall_era.Common.Bytes.{uint16}
use wall_era.Usb.Frame.{HidFrame, HidFrameNext, first, next, hid_frame_tag, encode_frame}
use wall_era.Usb.Frame.Wire.{IsFrame}
use wall_era.Usb.Session.{Session, fresh, note_length, store_frame, read_data, new_session}
use wall_era.Usb.Session.Steps.{new_session_first, finish_short, finish_full}
use wall_era.Usb.Session.Invariant.{
  IsSound, after-IsSound, begun-IsSound, length-stored, length-stored_first, feed,
}
use wall_era.Usb.Session.Cases.{after, begun, Continues, read_data_begun}

-- The session reads the `n` bytes that its first frame announced, and while it waits, the index of
-- the last frame tells how many are there.
pub record InOrder (n : ℕ) (s : Session) : Type 0 where
  pub sound : IsSound s
  pub announced : s.amount_to_read ≡ n
  pub counted : s.should_read_more ≡ true → len s.buffer ≡ 57 + 59 * s.last_read_frame_index

index_of_next : (p i : ℕ) → p < 65536 → i < 65535 → uint16 (p + 65536 - i) ≡ 1 → p ≡ i + 1
index_of_next p i hp hi e = omega arith

waiting_index :
    (n : ℕ) (s : Session)
    → n < 65536
    → InOrder n s
    → s.should_read_more ≡ true
    → s.last_read_frame_index < 1111
waiting_index n s fits h more = omega (arith, h.counted more, h.sound.waiting more, h.announced)

-- While a session that began at index 0 waits, the frame that it accepts has the next index.
pub next_index :
    (n : ℕ) (s : Session) (hf : HidFrameNext)
    → n < 65536
    → InOrder n s
    → Continues s hf
    → hf.packet_index_inner ≡ s.last_read_frame_index + 1
next_index n s hf fits h goes =
    index_of_next _ _ goes.frame.index_fits (omega (arith, waiting_index n s fits h goes.more))
      goes.in_order

after-InOrder :
    (grow : ℕ → ℕ) (n : ℕ) (s : Session) (hf : HidFrameNext)
    → n < 65536
    → InOrder n s
    → Continues s hf
    → InOrder n (after grow s hf)
after-InOrder grow n s hf fits h goes = elim (dec_lt (len stored.buffer) s.amount_to_read) [
  | yes short ↦ record {
    sound = after-IsSound grow s hf h.sound goes;
    announced = rw (finish_short stored short) h.announced;
    counted =
        rw (finish_short stored short)
          (λ _. omega (arith, stored_bytes, h.counted goes.more, next_index n s hf fits h goes));
  }
  | no full ↦ record {
    sound = after-IsSound grow s hf h.sound goes;
    announced = rw (finish_full stored (omega arith)) h.announced;
    counted = rw (finish_full stored (omega arith)) (λ e. cc);
  }
]
  where
    stored : Session
    stored = store_frame grow (next hf) s

    stored_bytes : len stored.buffer ≡ len s.buffer + 59
    stored_bytes = length-stored grow s hf goes.frame.data_size

begun-InOrder :
    (grow : ℕ → ℕ) (hf : HidFrame)
    → IsFrame hf
    → hf.channel_id_inner ≢ 0
    → hf.packet_index_inner ≡ 0
    → InOrder hf.data_length_inner (begun grow hf)
begun-InOrder grow hf frame c zeroth = elim (dec_lt (len stored.buffer) hf.data_length_inner) [
  | yes short ↦ record {
    sound = begun-IsSound grow hf frame.data_size c;
    announced = rw (finish_short stored short) refl;
    counted = rw (finish_short stored short) (λ _. omega (arith, stored_bytes));
  }
  | no full ↦ record {
    sound = begun-IsSound grow hf frame.data_size c;
    announced = rw (finish_full stored (omega arith)) refl;
    counted = rw (finish_full stored (omega arith)) (λ e. cc);
  }
]
  where
    stored : Session
    stored = note_length (first hf) (store_frame grow (first hf) fresh)

    stored_bytes : len stored.buffer ≡ 57
    stored_bytes = length-stored_first grow hf frame.data_size

module _ (grow : ℕ → ℕ) where
  pub read_data-InOrder :
      (n : ℕ) (s : Session) (bs : List ℕ)
      → n < 65536
      → InOrder n s
      → InOrder n (read_data grow s bs).0
  read_data-InOrder n s bs fits h = elim (read_data_begun grow s bs h.sound.has_channel) [
    | inl kept ↦ subst (InOrder n) (sym kept) h
    | inr (hf, goes, read) ↦ rw read (after-InOrder grow n s hf fits h goes)
  ]

  feed-InOrder :
      (n : ℕ) (s : Session) (packets : List (List ℕ))
      → n < 65536
      → InOrder n s
      → InOrder n (feed grow s packets)
  feed-InOrder n s [] fits h = h
  feed-InOrder n s (bs ∷ more) fits h =
      feed-InOrder n (read_data grow s bs).0 more fits (read_data-InOrder n s bs fits h)

  -- Whatever bytes follow a valid first frame with packet index 0, the number of bytes to read stays
  -- the one that this frame announced. While the session waits, it holds fewer, and exactly 57 and 59
  -- times its frame index; once it waits no more, it holds exactly the announced number.
  pub feed-first-InOrder :
      (hf : HidFrame) (packets : List (List ℕ))
      → IsFrame hf
      → hf.tag_inner ≡ hid_frame_tag
      → hf.channel_id_inner ≢ 0
      → hf.packet_index_inner ≡ 0
      → (s : Session) × (new_session grow (encode_frame hf) ≡ ok s)
        × InOrder hf.data_length_inner (feed grow s packets)
  feed-first-InOrder hf packets frame t c zeroth = (
    begun grow hf,
    new_session_first grow hf frame t c,
    feed-InOrder hf.data_length_inner (begun grow hf) packets frame.length_fits
        (begun-InOrder grow hf frame c zeroth),
  )

  stuck_at_last :
      (s : Session) (bs : List ℕ)
      → s.channel ≢ 0
      → s.last_read_frame_index ≡ 65535
      → (read_data grow s bs).0 ≡ s
  stuck_at_last s bs c i = elim (read_data_begun grow s bs c) [
    | inl kept ↦ kept
    | inr (hf, goes, read) ↦
        absurd (goes.later (omega (arith, goes.frame.index_fits, goes.in_order)))
  ]

  feed_stuck :
      (s : Session) (packets : List (List ℕ))
      → s.channel ≢ 0
      → s.last_read_frame_index ≡ 65535
      → feed grow s packets ≡ s
  feed_stuck s [] c i = refl
  feed_stuck s (bs ∷ more) c i =
      ap (λ (t : Session). feed grow t more) (stuck_at_last s bs c i) ∙ feed_stuck s more c i

  -- A valid first frame with packet index 65535 is accepted. If it announces more than 57 bytes, the
  -- session waits for more data and no bytes whatever change it again.
  pub wedged_session :
      (hf : HidFrame) (packets : List (List ℕ))
      → IsFrame hf
      → hf.tag_inner ≡ hid_frame_tag
      → hf.channel_id_inner ≢ 0
      → hf.packet_index_inner ≡ 65535
      → 57 < hf.data_length_inner
      → (s : Session) × (new_session grow (encode_frame hf) ≡ ok s)
        × (feed grow s packets ≡ s)
        × (s.should_read_more ≡ true)
  wedged_session hf packets frame t c last long =
      let stored : Session = note_length (first hf) (store_frame grow (first hf) fresh) in
      let short : begun grow hf ≡ stored =
        finish_short stored (omega (arith, length-stored_first grow hf frame.data_size)) in
      (
        begun grow hf,
        new_session_first grow hf frame t c,
        rw short (feed_stuck stored packets c last),
        rw short (ap not (leb-false hf.data_length_inner 57 long)),
      )
