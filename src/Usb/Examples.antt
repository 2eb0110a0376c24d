-- ===== src/Usb/Examples.antt =====
-- The theorems on usb/ for concrete frames.
use wall_era.Common.{ℕ, ◌-◌, ◌≡◌, ◌⊎◌, ◌<◌, refl, arith, [], ◌∷◌, none, true, replicate, concat}
use wall_era.Common.Go.{ok}
use wall_era.Usb.Frame.{HidFrame, HidFrameNext, encode_frame, encode_frame_next}
use wall_era.Usb.Frame.Wire.{IsFrame, IsFrameNext}
use wall_era.Usb.Session.{Session, fresh, read_data, new_session}
use wall_era.Usb.Session.Cases.{begun}
use wall_era.Usb.Session.Invariant.{
  IsSound, read_data-IsSound, begun-IsSound, read_data_progress, feed, missing,
}
use wall_era.Usb.Session.Order.{InOrder, feed-first-InOrder, wedged_session}
use wall_era.Usb.Format.{format_response, chunk_func}
use wall_era.Usb.Format.Chunking.{IsChunking, chunk_func-IsChunking}
use wall_era.Usb.Format.Receive.{receive, HasRead}
use wall_era.Usb.Format.RoundTrip.{receive-format_response}

abbrev no_growth : ℕ → ℕ
no_growth n = 0

-- A first frame that announces 100 bytes, at a packet index.
abbrev frame_at : ℕ → HidFrame
frame_at i = record {
  channel_id_inner = 0x101;
  tag_inner = 5;
  packet_index_inner = i;
  data_length_inner = 100;
  data_inner = replicate 57 7;
}

frame_at-IsFrame : (i : ℕ) → i < 65536 → IsFrame (frame_at i)
frame_at-IsFrame i h = record {
  channel_fits = omega arith;
  index_fits = h;
  length_fits = omega arith;
  data_size = refl;
}

abbrev follow_up : HidFrameNext
follow_up = record {
  channel_id_inner = 0x101;
  tag_inner = 5;
  packet_index_inner = 1;
  data_inner = replicate 59 8;
}

follow_up-IsFrameNext : IsFrameNext follow_up
follow_up-IsFrameNext = record {
  channel_fits = omega arith;
  index_fits = omega arith;
  data_size = refl;
}

abbrev waiting : Session
waiting = begun no_growth (frame_at 0)

waiting-IsSound : IsSound waiting
waiting-IsSound = begun-IsSound no_growth (frame_at 0) refl (omega arith)

abbrev on_channel : Session
on_channel = record fresh { channel = 0x101 }

receive-format_response_example :
    (s : Session) × (receive no_growth (format_response on_channel (replicate 120 9)) ≡ ok s)
    × HasRead s 0x101 (replicate 120 9)
receive-format_response_example =
    receive-format_response no_growth on_channel (replicate 120 9) (omega arith) (omega arith)
      (omega arith)

feed-first-InOrder_example :
    (s : Session) × (new_session no_growth (encode_frame (frame_at 0)) ≡ ok s)
    × InOrder (frame_at 0).data_length_inner (feed no_growth s (encode_frame_next follow_up ∷ []))
feed-first-InOrder_example =
    feed-first-InOrder no_growth (frame_at 0) (encode_frame_next follow_up ∷ [])
      (frame_at-IsFrame 0 (omega arith)) refl (omega arith) refl

wedged_session_example :
    (s : Session) × (new_session no_growth (encode_frame (frame_at 65535)) ≡ ok s)
    × (feed no_growth s (encode_frame_next follow_up ∷ []) ≡ s)
    × (s.should_read_more ≡ true)
wedged_session_example =
    wedged_session no_growth (frame_at 65535) (encode_frame_next follow_up ∷ [])
      (frame_at-IsFrame 65535 (omega arith)) refl (omega arith) refl (omega arith)

read_data-IsSound_example : IsSound (read_data no_growth waiting (encode_frame_next follow_up)).0
read_data-IsSound_example =
    read_data-IsSound no_growth waiting (encode_frame_next follow_up) waiting-IsSound

read_data_progress_example :
    ((read_data no_growth waiting (encode_frame_next follow_up)).0 ≡ waiting)
    ⊎ (((read_data no_growth waiting (encode_frame_next follow_up)).1 ≡ none)
        × (missing (read_data no_growth waiting (encode_frame_next follow_up)).0
            ≡ missing waiting - 59))
read_data_progress_example =
    read_data_progress no_growth waiting (encode_frame_next follow_up) waiting-IsSound.has_channel

chunk_func-IsChunking_example :
    IsChunking 2 (chunk_func (5 ∷ 6 ∷ 7 ∷ []) 2)
    × (concat (chunk_func (5 ∷ 6 ∷ 7 ∷ []) 2) ≡ 5 ∷ 6 ∷ 7 ∷ [])
chunk_func-IsChunking_example = chunk_func-IsChunking (5 ∷ 6 ∷ 7 ∷ []) 2 (omega arith) (omega arith)
