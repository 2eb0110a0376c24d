-- ===== src/Usb/Frame/Wire.antt =====
-- What the frames of usb/usb.go look like on the wire.
use wall_era.Common.{ℕ, List, ap, some, length-take, ltb-false, ◌<◌, ◌≡◌, arith, length, take_all}
use wall_era.Common.Go.{ok}
use wall_era.Usb.Frame.{
  HidFrame, HidFrameNext, first, next, type_frame, type_frame_next, decode_frame, decode_frame_next,
  read_frame, read_array, encode_frame, encode_frame_next,
}

-- The field widths of the two structs.
pub record IsFrame (hf : HidFrame) : Type 0 where
  pub channel_fits : hf.channel_id_inner < 65536
  pub index_fits : hf.packet_index_inner < 65536
  pub length_fits : hf.data_length_inner < 65536
  pub data_size : length hf.data_inner ≡ 57

pub record IsFrameNext (hf : HidFrameNext) : Type 0 where
  pub channel_fits : hf.channel_id_inner < 65536
  pub index_fits : hf.packet_index_inner < 65536
  pub data_size : length hf.data_inner ≡ 59

pub length-encode_frame : (hf : HidFrame) → IsFrame hf → length (encode_frame hf) ≡ 64
unfolding encode_frame
length-encode_frame hf h = ground arith

pub length-encode_frame_next :
    (hf : HidFrameNext) → IsFrameNext hf → length (encode_frame_next hf) ≡ 64
unfolding encode_frame_next
length-encode_frame_next hf h = ground arith

pub read_array_exact : (n : ℕ) (bs : List ℕ) → length bs ≡ n → read_array n bs ≡ some bs
unfolding read_array
read_array_exact n bs h =
    rw (ltb-false (length bs) n (omega arith)) (ap some (take_all bs n (omega arith)))

pub read_array-length : (n : ℕ) (bs xs : List ℕ) → read_array n bs ≡ some xs → length xs ≡ n
unfolding read_array
read_array-length n bs xs e = ground (arith, length-take n bs)

-- Reading a written first frame gives it back.
pub read_frame-encode_frame :
    (hf : HidFrame) → IsFrame hf → read_frame (encode_frame hf) type_frame ≡ ok (first hf)
unfolding read_frame decode_frame encode_frame
read_frame-encode_frame hf h = ground (arith, read_array_exact 57 hf.data_inner)

-- Reading a written follow-up frame gives it back.
pub read_frame-encode_frame_next :
    (hf : HidFrameNext)
    → IsFrameNext hf
    → read_frame (encode_frame_next hf) type_frame_next ≡ ok (next hf)
unfolding read_frame decode_frame_next encode_frame_next
read_frame-encode_frame_next hf h = ground (arith, read_array_exact 59 hf.data_inner)
