-- ===== src/Examples/Reactor.antt =====
-- The theorems about the reading side of connection.go at small inputs.
use goreactor.Common.{
  ℕ, ◌+◌, Bool, true, false, List, [], ◌∷◌, Option, some, ◌≡◌, refl, arith, length,
}
use goreactor.RingBuffer.Defs.{RingBuffer}
use goreactor.RingBuffer.Contents.{IsValid}
use goreactor.Connection.Defs.{System, WriteResult, wrote}
use goreactor.Connection.Serving.{got, Side, handle_read, handle_event}
use goreactor.Connection.Consuming.{IsGood}
use goreactor.Connection.Answering.{
  DefaultState, default_un_packet, default_on_message, Answers, handle_read_default,
}
use goreactor.Reactor.Events.{handle_event as dispatch}

abbrev waiting : RingBuffer
waiting = record { buf = 3 ∷ 0 ∷ 1 ∷ 2 ∷ []; size = 4; vr = 2; r = 2; w = 1; is_empty = false }

abbrev nothing : RingBuffer
nothing = record { buf = 0 ∷ 0 ∷ []; size = 2; vr = 0; r = 0; w = 0; is_empty = true }

waiting-IsValid : IsValid waiting
waiting-IsValid = ground arith

nothing-IsValid : IsValid nothing
nothing-IsValid = ground arith

-- A callback that counts its calls and answers with what it got.
abbrev echo : ℕ → List ℕ → ℕ × Option (List ℕ)
echo n bytes = (n + 1, some bytes)

abbrev as_is : List ℕ → List ℕ
as_is bytes = bytes

abbrev begun : DefaultState ℕ
begun = record { user_buf = 0 ∷ []; user = 0 }

abbrev side : Side (DefaultState ℕ)
side = record {
  conn = record {
    out_buf = nothing;
    connected = true;
    writing = false;
    timed = false;
    written = 9 ∷ [];
    closings = [];
  };
  in_buf = waiting;
  buf = nothing;
  state = begun;
  in_buf_len = 3;
  out_buf_len = 0;
}

side-IsGood : IsGood side
side-IsGood = record {
  in_valid = waiting-IsValid;
  out_valid = nothing-IsValid;
  armed = refl;
  live = refl;
}

abbrev all_bytes : List ℕ → WriteResult
all_bytes bs = wrote (length bs)

-- Every system call succeeds, and the kernel takes all bytes.
abbrev working : System
working = record {
  write_fd = all_bytes;
  write_again = all_bytes;
  modifies = true;
  deletes = true;
  closes = true;
}

handle_read_default_example :
    (side' : Side (DefaultState ℕ)) × (closed : Bool) × (handle_read
        (default_un_packet echo as_is)
        (default_on_message echo as_is)
        as_is
        working
        (got (7 ∷ []))
        side
      ≡ some (side', closed))
    × Answers echo as_is side (7 ∷ []) side' closed
handle_read_default_example =
    handle_read_default echo as_is working side 7 [] (refl, refl) side-IsGood
