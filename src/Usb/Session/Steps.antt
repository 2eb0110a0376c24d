-- ===== src/Usb/Session/Steps.antt =====
-- What one good frame does to a session.
use wall_era.Common.{ℕ, ◌+◌, ◌-◌, ◌≡◌, ◌≢◌, arith, true, List, ◌++◌, none, ==_ne}
use wall_era.Common.{le→leb, leb-false, ◌≤◌, ◌<◌, false}
use wall_era.Common.Go.{truncate, len, ok, write, Buffer}
use wall_era.Common.Bytes.{uint16}
use wall_era.Usb.Frame.{
  HidFrame, HidFrameNext, first, next, hid_frame_tag, validate, encode_frame, encode_frame_next,
}
use wall_era.Usb.Frame.Wire.{
  IsFrame, IsFrameNext, read_frame-encode_frame, read_frame-encode_frame_next,
}
use wall_era.Usb.Session.{
  Session, fresh, note_length, finish, store_frame, session_read_frame, read_data, new_session,
}

module _ (grow : ℕ → ℕ) where
  pub elems-write : (b : Buffer) (p : List ℕ) → (write grow b p).elems ≡ b.elems ++ p
  unfolding write
  elems-write b p = ground arith

  -- A first frame that is well formed begins a session.
  pub new_session_first :
      (hf : HidFrame)
      → IsFrame hf
      → hf.tag_inner ≡ hid_frame_tag
      → hf.channel_id_inner ≢ 0
      → new_session grow (encode_frame hf)
        ≡ ok (finish (note_length (first hf) (store_frame grow (first hf) fresh)))
  unfolding new_session session_read_frame validate
  new_session_first hf h t c = rw (read_frame-encode_frame hf h) (ground arith)

  -- The follow-up frame that a session waits for.
  pub read_data_next :
      (s : Session) (hf : HidFrameNext)
      → IsFrameNext hf
      → hf.tag_inner ≡ hid_frame_tag
      → s.channel ≢ 0
      → hf.channel_id_inner ≡ s.channel
      → s.should_read_more ≡ true
      → uint16 (hf.packet_index_inner + 65536 - s.last_read_frame_index) ≡ 1
      → hf.packet_index_inner ≢ 0
      → read_data grow s (encode_frame_next hf) ≡ (finish (store_frame grow (next hf) s), none)
  unfolding read_data session_read_frame validate
  read_data_next s hf h t c same more index later =
      rw (==_ne s.channel 0 c, read_frame-encode_frame_next hf h) (ground arith)

-- A session that lacks data goes on.
pub finish_short : (s : Session) → len s.buffer < s.amount_to_read → finish s ≡ s
finish_short s h = rw (leb-false s.amount_to_read (len s.buffer) h)

-- A session that has all its data is cut to the announced length and closed.
pub finish_full :
    (s : Session)
    → s.amount_to_read ≤ len s.buffer
    → finish s ≡ record s { should_read_more = false; buffer = truncate s.buffer s.amount_to_read }
finish_full s h = rw (le→leb s.amount_to_read (len s.buffer) h)
