-- ===== src/Usb/Session.antt =====
-- usb/usb.go: `Session`, which puts the frames of one transmission together.
-- A method with a pointer receiver returns the new session and its error, if any.
pub mod Steps
pub mod Cases
pub mod Invariant
pub mod Order
use wall_era.Common.{
  ℕ, ◌+◌, ◌-◌, ◌%◌, Bool, true, false, ◌&&◌, List, Option, none, some, ltb, leb, ◌==◌, not,
  if◌then◌else◌,
}
use wall_era.Common.Go.{Result, ok, err, Buffer, Slice, empty_buffer, len, write, truncate}
use wall_era.Common.Bytes.{uint16}
use wall_era.Usb.Frame.{
  Frame, Kind, Error, type_frame, type_frame_next, hid_frame_max_data_size, channel_id,
  packet_index, data_length, frame_data, is_type_frame, validate, read_frame, cannot_read_more,
  different_channel, out_of_order, init_packet,
}

pub record Session : Type 0 where
  pub channel : ℕ  -- uint16
  pub last_read_frame_index : ℕ  -- uint16
  pub buffer : Buffer
  pub should_read_more : Bool
  pub amount_to_read : ℕ  -- uint16

abbrev pub fresh : Session
fresh = record {
  channel = 0;
  last_read_frame_index = 0;
  buffer = empty_buffer;
  should_read_more = true;
  amount_to_read = 0;
}

-- The part of `readFrame` that looks at the length field of a first frame.
abbrev pub note_length : Frame → Session → Session
note_length f s =
    if is_type_frame f
    then record s {
      should_read_more = not (leb (data_length f) hid_frame_max_data_size);
      amount_to_read = data_length f;
    }
    else s

-- The part of `readFrame` that cuts the data once all of it is there.
abbrev pub finish : Session → Session
finish s =
    if leb s.amount_to_read (len s.buffer)
    then record s { should_read_more = false; buffer = truncate s.buffer s.amount_to_read }
    else s

-- The type that `ReadData` reads into.
abbrev pub expected_kind : Session → Kind
expected_kind s = if not (s.channel == 0) then type_frame_next else type_frame

module _ (grow : ℕ → ℕ) where
  abbrev pub store_frame : Frame → Session → Session
  store_frame f s = record s {
    channel = channel_id f;
    last_read_frame_index = packet_index f;
    buffer = write grow s.buffer (frame_data f);
  }

  -- The method `readFrame`.
  unfoldable pub accept_frame : Session → Frame → Session × Option Error
  accept_frame s f =
      if not (s.channel == 0) && packet_index f == 0
      then (s, some init_packet)
      else (finish (note_length f (store_frame f s)), none)

  -- The method `ReadFrame`. On a session that has begun it drops the error of `readFrame`.
  unfoldable pub session_read_frame : Session → Frame → Session × Option Error
  unfolding accept_frame
  session_read_frame s f =
      if s.channel == 0
      then accept_frame s f
      else if not s.should_read_more
      then (s, some cannot_read_more)
      else if not (s.channel == channel_id f)
      then (s, some different_channel)
      else if not (uint16 (packet_index f + 65536 - s.last_read_frame_index) == 1)
      then (s, some out_of_order)
      else ((accept_frame s f).0, none)

  abbrev read_valid : Session → Frame → Option Error → Session × Option Error
  read_valid s f (some e) = (s, some e)
  read_valid s f none = session_read_frame s f

  abbrev read_parsed : Session → Result Error Frame → Session × Option Error
  read_parsed s (err e) = (s, some e)
  read_parsed s (ok f) = read_valid s f (validate f)

  -- The method `ReadData`.
  unfoldable pub read_data : Session → List ℕ → Session × Option Error
  read_data s bs = read_parsed s (read_frame bs (expected_kind s))

  abbrev created : Session × Option Error → Result Error Session
  created (s, some e) = err e
  created (s, none) = ok s

  unfoldable pub new_session : List ℕ → Result Error Session
  unfolding read_data
  new_session bs = created (read_data fresh bs)

-- The method `Data`: a slice over the buffer's backing array.
abbrev pub data_slice : Session → Slice
data_slice s = s.buffer
