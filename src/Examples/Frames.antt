-- ===== src/Examples/Frames.antt =====
-- A masked text frame of nine bytes of payload, and the theorems about plugins/websocket at it.
use goreactor.Common.{
  ℕ, take, Bool, true, false, List, [], ◌∷◌, ◌++◌, some, ◌≡◌, ◌↔◌, refl, arith, leb, ◌&&◌, ◌||◌,
  if◌then◌else◌, ◌>>=◌,
}
use goreactor.RingBuffer.Defs.{RingBuffer, ring_length, virtual_length}
use goreactor.RingBuffer.Contents.{window, contents, virtual_contents, IsValid, IsSettled}
use goreactor.Websocket.Cipher.Defs.{cipher}
use goreactor.Websocket.Cipher.Laws.{mask_from, cipher_lem}
use goreactor.Websocket.Cipher.Words.{AreBytes}
use goreactor.Websocket.Frame.Defs.{
  Header, HeaderResult, write_header, virtual_read_header, frame_to_bytes, new_close_frame,
  new_close_frame_body, parse_close_frame_data, be_bytes, length_bytes, first_byte,
}
use goreactor.Websocket.Frame.RoundTrip.{IsWire, virtual_read_header-write_header}
use goreactor.Websocket.Frame.Reading.{ReadsHeader}
use goreactor.Websocket.Frame.Close.{parse-new_close_frame_body}
use goreactor.Websocket.Replies.Defs.{ProtocolErr, error_text, check_close_frame_data, handle_close}
use goreactor.Websocket.Replies.Laws.{accepts, check_accepts, handle_close_lem}
use goreactor.Common.{length}
use goreactor.Connection.Serving.{got, Side, handle_read}
use goreactor.Connection.Defs.{System, wrote}
use goreactor.Connection.Consuming.{IsGood}
use goreactor.Websocket.Protocol.Answering.{AnswersFrames, handle_read_frames}
use goreactor.Websocket.Replies.Defs.{MessageType, message_text, handle_ping}
use goreactor.Websocket.Frame.Defs.{new_frame, new_pong_frame}
use goreactor.Websocket.Frame.Codes.{is_control}
use goreactor.Websocket.Handler.{sends, or_fatal, on_control, on_message}
use goreactor.Websocket.Echo.{sent, unpack_frame-on_message}
use goreactor.Websocket.Protocol.Defs.{packet}
use goreactor.Websocket.Protocol.Serving.{
  Upgraded, IsClientFrame, encoded, un_packet_frames, on_frame,
}
use goreactor.Common.{◌+◌, Option}
use goreactor.Websocket.Protocol.Defs.{Unpacked, frame, waits, unpack_frame}
use goreactor.Websocket.Protocol.Frames.{Unpacks, on_wire}
use goreactor.Websocket.Protocol.Whole.{unpack_frame-whole, unpack_frame-part}
use goreactor.Websocket.Http.Defs.{is_blank, http_parse_header_line, canonicalize_header_key, btrim}
use goreactor.Websocket.Http.Lines.{http_parse_header_line_lem}

abbrev header : Header
header = record {
  fin = true;
  rsv = 0;
  op_code = 1;
  masked = true;
  mask = 1 ∷ 2 ∷ 3 ∷ 4 ∷ [];
  len = 9;
}

abbrev text : List ℕ
text = 10 ∷ 20 ∷ 30 ∷ 40 ∷ 50 ∷ 60 ∷ 70 ∷ 80 ∷ 90 ∷ []

abbrev scratch : List ℕ
scratch = 0 ∷ 0 ∷ 0 ∷ 0 ∷ 0 ∷ 0 ∷ 0 ∷ 0 ∷ 0 ∷ 0 ∷ 0 ∷ 0 ∷ []

-- The frame, and the first byte of the next.
abbrev whole : RingBuffer
whole = record {
  buf = 129 ∷ 137 ∷ 1 ∷ 2 ∷ 3 ∷ 4 ∷ 11 ∷ 22 ∷ 29 ∷ 44 ∷ 51 ∷ 62 ∷ 69 ∷ 84 ∷ 91 ∷ 129 ∷ [];
  size = 16;
  vr = 0;
  r = 0;
  w = 0;
  is_empty = false;
}

-- The header and three bytes.
abbrev part : RingBuffer
part = record {
  buf = 129 ∷ 137 ∷ 1 ∷ 2 ∷ 3 ∷ 4 ∷ 11 ∷ 22 ∷ 29 ∷ 0 ∷ [];
  size = 10;
  vr = 0;
  r = 0;
  w = 9;
  is_empty = false;
}

abbrev two : RingBuffer
two = record { buf = 137 ∷ 0 ∷ []; size = 2; vr = 0; r = 0; w = 0; is_empty = false }

header-IsWire : IsWire header
header-IsWire = ground arith

whole-IsValid : IsValid whole
whole-IsValid = ground arith

part-IsValid : IsValid part
part-IsValid = ground arith

text-AreBytes : AreBytes text
text-AreBytes = ground arith

mask-AreBytes : AreBytes (1 ∷ 2 ∷ 3 ∷ 4 ∷ [])
mask-AreBytes = ground arith

cipher_lem_example :
    cipher (1 ∷ 2 ∷ 3 ∷ 4 ∷ []) 3 text ≡ some (mask_from (1 ∷ 2 ∷ 3 ∷ 4 ∷ []) 3 text)
cipher_lem_example = cipher_lem 1 2 3 4 mask-AreBytes 3 text text-AreBytes

whole_holds : contents whole ≡ (write_header header).0 ++ (on_wire header text ++ 129 ∷ [])
unfolding contents window ring_length write_header length_bytes first_byte
whole_holds = refl

part_holds : contents part ≡ (write_header header).0 ++ (11 ∷ 22 ∷ 29 ∷ [])
unfolding contents window ring_length write_header length_bytes first_byte
part_holds = refl

virtual_read_header-write_header_example :
    (out : HeaderResult) × (virtual_read_header scratch part ≡ some out)
    × ReadsHeader part header (11 ∷ 22 ∷ 29 ∷ []) out
virtual_read_header-write_header_example =
    virtual_read_header-write_header header part scratch (11 ∷ 22 ∷ 29 ∷ []) header-IsWire
      part-IsValid (omega arith)
      (unfold virtual_contents window virtual_length write_header length_bytes first_byte in refl)
      (unfold ring_length in omega arith) (omega arith)

unpack_frame-whole_example :
    (got : Unpacked) × (unpack_frame scratch whole ≡ some got)
    × Unpacks (frame header text) (129 ∷ []) got
unpack_frame-whole_example =
    unpack_frame-whole header text (129 ∷ []) scratch whole header-IsWire refl text-AreBytes
      mask-AreBytes whole-IsValid refl (omega arith) whole_holds (unfold ring_length in omega arith)
      (omega arith)

unpack_frame-part_example :
    (got : Unpacked) × (unpack_frame scratch part ≡ some got)
    × Unpacks waits ((write_header header).0 ++ (11 ∷ 22 ∷ 29 ∷ [])) got
    × IsSettled got.ring
unpack_frame-part_example =
    unpack_frame-part header (11 ∷ 22 ∷ 29 ∷ []) scratch part header-IsWire (omega arith)
      (omega arith) part-IsValid refl (omega arith) part_holds (unfold ring_length in omega arith)

parse-new_close_frame_body_example :
    (new_close_frame_body 1000 text >>= parse_close_frame_data) ≡ some (1000, take 123 text)
parse-new_close_frame_body_example = parse-new_close_frame_body 1000 text (omega arith)

-- A check of texts that refuses the empty one only.
abbrev not_nil : List ℕ → Bool
not_nil [] = false
not_nil (c ∷ cs) = true

check_accepts_example : (check_close_frame_data not_nil 1001 text ≡ ProtocolErr.nil) ↔ (
    (not_nil text
      && ((leb 1000 1001 && leb 1001 1003) || (leb 1007 1001 && leb 1001 1011) || leb 3000 1001))
    ≡ true)
check_accepts_example = check_accepts not_nil 1001 text

handle_close_lem_example :
    handle_close not_nil header (be_bytes 2 1005 ++ text)
    ≡ some (
        frame_to_bytes (
          new_close_frame (
            if accepts (check_close_frame_data not_nil 1005 text)
            then be_bytes 2 1005 ++ take 123 text
            else be_bytes 2 1002
              ++ take 123 (error_text (check_close_frame_data not_nil 1005 text)))))
handle_close_lem_example =
    handle_close_lem not_nil header 1005 text (λ e. omega arith) (omega arith)

http_parse_header_line_lem_example :
    http_parse_header_line
      (((32 ∷ []) ++ ((104 ∷ []) ++ (9 ∷ []))) ++ 58 ∷ ((32 ∷ []) ++ ((97 ∷ 58 ∷ []) ++ [])))
    ≡ some (canonicalize_header_key (btrim (104 ∷ [])), btrim (97 ∷ 58 ∷ []))
http_parse_header_line_lem_example =
    http_parse_header_line_lem (32 ∷ []) (104 ∷ []) (9 ∷ []) (32 ∷ []) (97 ∷ 58 ∷ []) []
      (unfold is_blank in refl) (unfold is_blank in refl) (unfold is_blank in refl) refl refl

-- A callback that counts the frames and answers with their payload.
abbrev count : ℕ → Option Header → List ℕ → ℕ × Option (List ℕ)
count n ctx payload = (n + 1, some payload)

abbrev upgraded : Upgraded ℕ
upgraded = record { scratch = scratch; user = 0 }

text_frame : IsClientFrame header text
text_frame = record {
  wire = header-IsWire;
  masked = refl;
  size = refl;
  some_payload = omega arith;
  bytes = text-AreBytes;
  mask_bytes = mask-AreBytes;
}

-- The header and three bytes of the payload are in the input buffer.
abbrev side : Side (Upgraded ℕ)
side = record {
  conn = record {
    out_buf = record { buf = 0 ∷ 0 ∷ []; size = 2; vr = 0; r = 0; w = 0; is_empty = true };
    connected = true;
    writing = false;
    timed = false;
    written = 9 ∷ [];
    closings = [];
  };
  in_buf = part;
  buf = part;
  state = upgraded;
  in_buf_len = 9;
  out_buf_len = 0;
}

side-IsGood : IsGood side
side-IsGood = record {
  in_valid = part-IsValid;
  out_valid = ground arith;
  armed = refl;
  live = refl;
}

-- The kernel takes all bytes.
abbrev working : System
working = record {
  write_fd = λ bytes. wrote (length bytes);
  write_again = λ bytes. wrote (length bytes);
  modifies = true;
  deletes = true;
  closes = true;
}

frame_comes : contents part ++ 44 ∷ 51 ∷ 62 ∷ 69 ∷ 84 ∷ 91 ∷ [] ≡ encoded ((header, text) ∷ []) []
unfolding encoded contents window ring_length write_header length_bytes first_byte
frame_comes = refl

handle_read_frames_example :
    (side' : Side (Upgraded ℕ)) × (closed : Bool) × (handle_read
        (un_packet_frames count)
        (on_frame count)
        packet
        working
        (got (44 ∷ 51 ∷ 62 ∷ 69 ∷ 84 ∷ 91 ∷ []))
        side
      ≡ some (side', closed))
    × AnswersFrames count ((header, text) ∷ []) side side' closed
handle_read_frames_example =
    handle_read_frames count working side ((header, text) ∷ []) 44 (51 ∷ 62 ∷ 69 ∷ 84 ∷ 91 ∷ [])
      (refl, refl) side-IsGood refl (omega arith) (text_frame, tt) frame_comes

abbrev ping_header : Header
ping_header = record header { op_code = 9; len = 4 }

abbrev echo : List ℕ → MessageType × List ℕ
echo payload = (message_text, payload)

-- A pong with the payload of the ping, and a byte behind it.
abbrev ponged : RingBuffer
ponged = record {
  buf = 138 ∷ 4 ∷ 20 ∷ 30 ∷ 40 ∷ 50 ∷ 129 ∷ [];
  size = 7;
  vr = 0;
  r = 0;
  w = 0;
  is_empty = false;
}

ponged-IsValid : IsValid ponged
ponged-IsValid = ground arith

pong_there :
    contents ponged
    ≡ sent (on_message not_nil echo (some ping_header) (20 ∷ 30 ∷ 40 ∷ 50 ∷ [])) ++ 129 ∷ []
unfolding contents window ring_length on_message is_control on_control handle_ping new_pong_frame
    new_frame frame_to_bytes or_fatal write_header length_bytes first_byte
pong_there = refl

unpack_frame-on_message_example :
    (on_message not_nil echo (some ping_header) (20 ∷ 30 ∷ 40 ∷ 50 ∷ [])
      ≡ some (
          sends (sent (on_message not_nil echo (some ping_header) (20 ∷ 30 ∷ 40 ∷ 50 ∷ []))) false))
    × ((got : Unpacked) × (unpack_frame scratch ponged ≡ some got)
        × Unpacks
            (frame (new_pong_frame (20 ∷ 30 ∷ 40 ∷ 50 ∷ [])).header (20 ∷ 30 ∷ 40 ∷ 50 ∷ []))
            (129 ∷ [])
            got)
unpack_frame-on_message_example =
    unpack_frame-on_message not_nil echo ping_header (20 ∷ 30 ∷ 40 ∷ 50 ∷ []) (129 ∷ []) scratch
      ponged refl (omega arith) (omega arith) (ground arith) ponged-IsValid refl (omega arith)
      pong_there
