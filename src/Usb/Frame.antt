-- ===== src/Usb/Frame.antt =====
-- usb/usb.go: the two kinds of HID frames, their validation, and their bytes.
pub mod Wire
use wall_era.Common.{
  ℕ, suc, ◌*◌, ◌+◌, Bool, true, false, ◌||◌, List, [], ◌∷◌, ◌++◌, Option, none, some, ltb, ◌==◌,
  not, if◌then◌else◌, length, take,
}
use mathlib.Core.Option
use wall_era.Common.Go.{Result, ok, err}
use wall_era.Common.Bytes.{put_uint16_be, uint16_be}

abbrev pub hid_frame_max_data_size : ℕ
hid_frame_max_data_size = 57

abbrev pub hid_frame_tag : ℕ
hid_frame_tag = 0x05

-- Each error value that the package returns.
pub data Error : Type 0 where
  invalid_tag : Error
  channel_zero : Error
  bad_size : Error
  invalid_data : Error
  cannot_read_more : Error
  different_channel : Error
  out_of_order : Error
  init_packet : Error

pub record HidFrame : Type 0 where
  pub channel_id_inner : ℕ  -- uint16
  pub tag_inner : ℕ  -- uint8
  pub packet_index_inner : ℕ  -- uint16
  pub data_length_inner : ℕ  -- uint16
  pub data_inner : List ℕ  -- [57]byte

pub record HidFrameNext : Type 0 where
  pub channel_id_inner : ℕ  -- uint16
  pub tag_inner : ℕ  -- uint8
  pub packet_index_inner : ℕ  -- uint16
  pub data_inner : List ℕ  -- [59]byte

-- The interface `Frame` with a constructor for each type that implements it.
pub data Frame : Type 0 where
  first : HidFrame → Frame
  next : HidFrameNext → Frame

abbrev pub channel_id : Frame → ℕ
channel_id (first hf) = hf.channel_id_inner
channel_id (next hf) = hf.channel_id_inner

abbrev pub tag : Frame → ℕ
tag (first hf) = hf.tag_inner
tag (next hf) = hf.tag_inner

abbrev pub packet_index : Frame → ℕ
packet_index (first hf) = hf.packet_index_inner
packet_index (next hf) = hf.packet_index_inner

abbrev pub data_length : Frame → ℕ
data_length (first hf) = hf.data_length_inner
data_length (next hf) = 0

abbrev pub frame_data : Frame → List ℕ
frame_data (first hf) = hf.data_inner
frame_data (next hf) = hf.data_inner

-- `Type() == typeFrame`
abbrev pub is_type_frame : Frame → Bool
is_type_frame (first hf) = true
is_type_frame (next hf) = false

-- The method has the same body for both types.
unfoldable pub validate : Frame → Option Error
validate f =
    if not (tag f == hid_frame_tag)
    then some invalid_tag
    else if channel_id f == 0
    then some channel_zero
    else none

-- The next `n` bytes of a reader; `none` stands for a reader that ends too early.
unfoldable pub read_array : ℕ → List ℕ → Option (List ℕ)
read_array n bs = if ltb (length bs) n then none else some (take n bs)

-- `binary.Read` of the fields, in order.
unfoldable pub decode_frame : List ℕ → Option HidFrame
decode_frame (c1 ∷ c0 ∷ t ∷ p1 ∷ p0 ∷ l1 ∷ l0 ∷ rest) =
    Option.map
      (λ body. record {
        channel_id_inner = uint16_be c1 c0;
        tag_inner = t;
        packet_index_inner = uint16_be p1 p0;
        data_length_inner = uint16_be l1 l0;
        data_inner = body;
      })
      (read_array 57 rest)
decode_frame _ = none

unfoldable pub decode_frame_next : List ℕ → Option HidFrameNext
decode_frame_next (c1 ∷ c0 ∷ t ∷ p1 ∷ p0 ∷ rest) =
    Option.map
      (λ body. record {
        channel_id_inner = uint16_be c1 c0;
        tag_inner = t;
        packet_index_inner = uint16_be p1 p0;
        data_inner = body;
      })
      (read_array 59 rest)
decode_frame_next _ = none

-- The type of the `Frame` that `readFrame` reads into.
pub data Kind : Type 0 where
  type_frame type_frame_next : Kind

abbrev as_first : Option HidFrame → Result Error Frame
as_first none = err invalid_data
as_first (some hf) = ok (first hf)

abbrev as_next : Option HidFrameNext → Result Error Frame
as_next none = err invalid_data
as_next (some hf) = ok (next hf)

abbrev decode : Kind → List ℕ → Result Error Frame
decode type_frame bs = as_first (decode_frame bs)
decode type_frame_next bs = as_next (decode_frame_next bs)

unfoldable pub read_frame : List ℕ → Kind → Result Error Frame
read_frame bs dest = if ltb 64 (length bs) || length bs == 0 then err bad_size else decode dest bs

-- `binary.Write` of the fields, in order.
unfoldable pub encode_frame : HidFrame → List ℕ
encode_frame hf =
    put_uint16_be hf.channel_id_inner
    ++ (hf.tag_inner ∷ [])
    ++ put_uint16_be hf.packet_index_inner
    ++ put_uint16_be hf.data_length_inner
    ++ hf.data_inner

unfoldable pub encode_frame_next : HidFrameNext → List ℕ
encode_frame_next hf =
    put_uint16_be hf.channel_id_inner
    ++ (hf.tag_inner ∷ [])
    ++ put_uint16_be hf.packet_index_inner
    ++ hf.data_inner
