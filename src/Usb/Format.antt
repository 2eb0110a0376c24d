-- ===== src/Usb/Format.antt =====
-- usb/usb.go: cutting a response into the frames that the host reads.
pub mod Arrays
pub mod Chunking
pub mod Receive
pub mod RoundTrip
use wall_era.Common.{
  ℕ, zero, suc, ◌+◌, ◌-◌, ◌/◌, List, [], ◌∷◌, leb, ◌==◌, if◌then◌else◌, length, take, drop,
  replicate,
}
use wall_era.Common.Go.{copy}
use wall_era.Common.Bytes.{uint16}
use wall_era.Usb.Frame.{HidFrame, HidFrameNext, hid_frame_tag, encode_frame, encode_frame_next}
use wall_era.Usb.Session.{Session}

abbrev pub default_chunk_size : ℕ
default_chunk_size = 57

abbrev pub next_chunk_size : ℕ
next_chunk_size = 59

-- `data[start:finish]`
abbrev pub sub : List ℕ → ℕ → ℕ → List ℕ
sub bs start finish = take (finish - start) (drop start bs)

-- The loop of `chunkFunc`; the first argument counts the rounds left, `chunks - idx`.
pub chunk_loop : ℕ → List ℕ → ℕ → ℕ → ℕ → ℕ → ℕ → List (List ℕ)
chunk_loop zero bs size chunks idx start finish = []
chunk_loop (suc rounds) bs size chunks idx start finish =
    let finish' : ℕ = if idx + 1 == chunks then length bs else finish in
    sub bs start finish'
    ∷ chunk_loop rounds bs size chunks (idx + 1) (start + size) (finish' + size)

-- `math.Ceil` of the quotient, which is exact for every length that a slice can have here.
abbrev pub ceil_div : ℕ → ℕ → ℕ
ceil_div n size = (n + size - 1) / size

unfoldable pub chunk_func : List ℕ → ℕ → List (List ℕ)
unfolding chunk_loop
chunk_func bs size =
    if leb (length bs) size
    then bs ∷ []
    else chunk_loop (ceil_div (length bs) size) bs size (ceil_div (length bs) size) 0 0 size

unfoldable pub chunk : List ℕ → List (List ℕ)
chunk bs = chunk_func bs next_chunk_size

-- `[n]byte{}` with `part` copied into it.
unfoldable pub array_of : ℕ → List ℕ → List ℕ
array_of n part = copy (replicate n 0) part

-- A first frame that holds `chunk` and announces `total` bytes.
abbrev pub first_frame : ℕ → ℕ → List ℕ → HidFrame
first_frame channel total part = record {
  channel_id_inner = channel;
  tag_inner = hid_frame_tag;
  packet_index_inner = 0;
  data_length_inner = uint16 total;
  data_inner = array_of 57 part;
}

abbrev pub next_frame : ℕ → ℕ → List ℕ → HidFrameNext
next_frame channel i part = record {
  channel_id_inner = channel;
  tag_inner = hid_frame_tag;
  packet_index_inner = uint16 (i + 1);
  data_inner = array_of 59 part;
}

-- The loop of `FormatResponse` over the chunks, from index `i` on.
unfoldable pub format_chunks : ℕ → ℕ → List (List ℕ) → List (List ℕ)
format_chunks channel i [] = []
format_chunks channel i (part ∷ parts) =
    encode_frame_next (next_frame channel i part) ∷ format_chunks channel (i + 1) parts

unfoldable pub format_response : Session → List ℕ → List (List ℕ)
format_response s bs =
    if leb (length bs) default_chunk_size
    then encode_frame (first_frame s.channel (length bs) bs) ∷ []
    else let front = take default_chunk_size bs in
      let rest = drop default_chunk_size bs in
      encode_frame (first_frame s.channel (length rest + length front) front)
      ∷ format_chunks s.channel 0 (chunk rest)
