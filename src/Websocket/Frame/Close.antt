-- ===== src/Websocket/Frame/Close.antt =====
-- The body of a close frame: `NewCloseFrameBody` and `ParseCloseFrameData`.
use goreactor.Common.{ℕ, ◌+◌, ◌-◌, ◌^◌, min, ◌≤◌, ◌<◌, List, ◌++◌, some, ◌≡◌, ap, ◌∙◌, arith}
use goreactor.Common.{◌>>=◌, length, take, replicate, slice, overwrite}
use goreactor.Common.{
  slice_lem, copy_at_lem, splice-overwrite, overwrite_full, length-replicate, length-take,
  length-overwrite, get_elem?-eq-get_or, take_min,
}
use goreactor.Websocket.Frame.Defs.{
  be_bytes, put_close_frame_body, new_close_frame_body, parse_close_frame_data, min_int,
  max_control_frame_payload_size,
}

-- The body that is put into a slice of just its length.
put_close_frame_body_lem :
    (n code : ℕ) (reason : List ℕ)
    → n ≡ 2 + length reason
    → put_close_frame_body (replicate n 0) code reason ≡ some (be_bytes 2 code ++ reason)
unfolding put_close_frame_body
put_close_frame_body_lem n code reason e =
    let zeros = replicate {A = ℕ} n 0 in
    let size : length zeros ≡ n = length-replicate n 0 in
    rw
      (
        get_elem?-eq-get_or zeros (1 + length reason) 0 (omega arith),
        copy_at_lem zeros 0 (be_bytes 2 code) (omega arith),
        copy_at_lem (overwrite zeros (be_bytes 2 code)) 2 reason
            (omega (arith, length-overwrite zeros (be_bytes 2 code))),
        splice-overwrite zeros (be_bytes 2 code) reason,
      )
      (ap some (overwrite_full zeros (be_bytes 2 code ++ reason) (omega arith)))

within_limit : (n m : ℕ) → m ≡ min 123 n → min_int (2 + n) 125 ≡ 2 + m
within_limit n m h = ground arith

cropped : (n : ℕ) → min_int 123 n - 0 ≡ min 123 n
cropped n = ground arith

cropped_le : (n : ℕ) → min_int 123 n ≤ n
cropped_le n = ground arith

-- `NewCloseFrameBody` does not panic: the body is the code in two bytes, highest first, and the
-- reason cut to 123 bytes, so that the whole stays within the limit of 125 bytes.
pub new_close_frame_body_lem :
    (code : ℕ) (reason : List ℕ)
    → (new_close_frame_body code reason ≡ some (be_bytes 2 code ++ take 123 reason))
      × (length (be_bytes 2 code ++ take 123 reason) ≤ max_control_frame_payload_size)
new_close_frame_body_lem code reason = (made, omega (arith, length-take 123 reason))
  where
    cut : slice reason 0 (min_int 123 (length reason)) ≡ some (take 123 reason)
    cut =
        slice_lem reason 0 (min_int 123 (length reason)) (omega arith) (cropped_le (length reason))
        ∙ ap some (take_min 123 reason (min_int 123 (length reason) - 0) (cropped (length reason)))

    fits : min_int (2 + length reason) 125 ≡ 2 + length (take 123 reason)
    fits = within_limit (length reason) (length (take 123 reason)) (length-take 123 reason)

    made : new_close_frame_body code reason ≡ some (be_bytes 2 code ++ take 123 reason)
    made =
        unfold new_close_frame_body in
        rw cut
          (put_close_frame_body_lem (min_int (2 + length reason) 125) code (take 123 reason) fits)

-- `ParseCloseFrameData` gives back the code and the reason, cut to 123 bytes, that
-- `NewCloseFrameBody` encoded, for every code of sixteen bits.
pub parse-new_close_frame_body :
    (code : ℕ) (reason : List ℕ)
    → code < 2 ^ 16
    → (new_close_frame_body code reason >>= parse_close_frame_data) ≡ some (code, take 123 reason)
parse-new_close_frame_body code reason h =
    rw ((new_close_frame_body_lem code reason).0) (unfold parse_close_frame_data in ground arith)
