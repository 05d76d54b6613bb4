-- ===== src/Websocket/Handshake/Laws/Cutting.antt =====
-- The cutting of a request into lines.
use goreactor.Common.{
  ℕ, ◌+◌, ◌<◌, Bool, true, ◌&&◌, List, [], ◌∷◌, ◌++◌, some, ◌≡◌, refl, ap, sym, ap₂, ◌∙◌, arith,
}
use goreactor.Common.{
  overwrite, slice_lem, overwrite_full, ltb, length, length-append, take, drop, replicate,
  length-replicate, drop-append_left, take-append_left,
}
use goreactor.RingBuffer.Defs.{RingBuffer, nil}
use goreactor.RingBuffer.Access.{peek_all}
use goreactor.RingBuffer.Contents.{contents, IsValid}
use goreactor.RingBuffer.Reading.{read_lem}
use goreactor.RingBuffer.Peeking.{peek_all_lem}
use mathlib.Core.List.{append_assoc, append-nil}
use goreactor.Websocket.Http.Lines.{lacks}
use goreactor.Websocket.Handshake.Upgrade.{
  has_prefix, index_of, cons_line, split_crlf, crlf_crlf, header_end, read_data,
}

-- A request: its lines, each with its line end, a blank line, and what follows.
abbrev pub request : List (List ℕ) → List ℕ → List ℕ
request [] rest = 13 ∷ 10 ∷ rest
request (l ∷ ls) rest = l ++ 13 ∷ 10 ∷ request ls rest

-- A line has bytes, and none is a carriage return.
abbrev pub is_line : List ℕ → Bool
is_line l = ltb 0 (length l) && lacks 13 l

abbrev pub are_lines : List (List ℕ) → Bool
are_lines [] = true
are_lines (l ∷ ls) = is_line l && are_lines ls

index_of-skip :
    (l xs : List ℕ) (i : ℕ)
    → lacks 13 l ≡ true
    → index_of xs crlf_crlf ≡ some i
    → index_of (l ++ xs) crlf_crlf ≡ some (length l + i)
unfolding index_of has_prefix
index_of-skip [] xs i h e = e ∙ ap some (omega arith)
index_of-skip (x ∷ l) xs i h e = ground (arith, index_of-skip l xs i)

index_of-request :
    (l : List ℕ) (ls : List (List ℕ)) (rest : List ℕ)
    → is_line l ≡ true
    → are_lines ls ≡ true
    → (i : ℕ) × (index_of (request (l ∷ ls) rest) crlf_crlf ≡ some i)
      × (i + 4 ≡ length (request (l ∷ ls) []))
unfolding index_of has_prefix
index_of-request l [] rest h hs = (
  length l + 0,
  index_of-skip l (13 ∷ 10 ∷ 13 ∷ 10 ∷ rest) 0 (ground arith) refl,
  omega (arith, length-append l (13 ∷ 10 ∷ 13 ∷ 10 ∷ [])),
)
index_of-request l ([] ∷ ls) rest h hs = absurd (ground arith)
index_of-request l ((x ∷ k) ∷ ls) rest h hs =
    let (i, found, at) = index_of-request (x ∷ k) ls rest (ground arith) (ground arith) in
    (
      length l + (2 + i),
      index_of-skip l (13 ∷ 10 ∷ request ((x ∷ k) ∷ ls) rest) (2 + i) (ground arith)
          (ground (arith, found)),
      omega (arith, at, length-append l (13 ∷ 10 ∷ request ((x ∷ k) ∷ ls) [])),
    )

split_crlf-line :
    (l xs : List ℕ) → lacks 13 l ≡ true → split_crlf (l ++ 13 ∷ 10 ∷ xs) ≡ l ∷ split_crlf xs
unfolding split_crlf cons_line
split_crlf-line [] xs h = refl
split_crlf-line (c ∷ []) xs h = ground arith
split_crlf-line (c ∷ d ∷ l) xs h = ground (arith, split_crlf-line (d ∷ l) xs)

pub split_crlf-request :
    (ls : List (List ℕ)) → are_lines ls ≡ true → split_crlf (request ls []) ≡ ls ++ [] ∷ [] ∷ []
unfolding split_crlf
split_crlf-request [] h = refl
split_crlf-request (l ∷ ls) h =
    split_crlf-line l (request ls []) (ground arith)
    ∙ ap (λ k. l ∷ k) (split_crlf-request ls (ground arith))

request-append : (ls : List (List ℕ)) (rest : List ℕ) → request ls rest ≡ request ls [] ++ rest
request-append [] rest = refl
request-append (l ∷ ls) rest =
    ap (λ k. l ++ 13 ∷ 10 ∷ k) (request-append ls rest)
    ∙ sym (append_assoc l (13 ∷ 10 ∷ request ls []) rest)

-- Where the readable bytes do not go round the end, `PeekAll` has them all in its first slice.
peek_all_straight : (s : RingBuffer) → IsValid s → s.r < s.w → peek_all s ≡ some (contents s, [])
peek_all_straight s v straight =
    let (first, end, peeks, same, parts) = peek_all_lem s v in
    let none_end : end ≡ [] = (unfold peek_all in ground (arith, slice_lem s.buf s.r s.w, peeks)) in
    peeks
    ∙ ap (λ l. some (first, l)) none_end
    ∙ ap (λ l. some (l, [])) (sym (append-nil first) ∙ ap (λ l. first ++ l) (sym none_end) ∙ parts)

header_end-first :
    (first end : List ℕ) (i : ℕ) → index_of first crlf_crlf ≡ some i → header_end first end ≡ some i
unfolding header_end
header_end-first first end i h = rw (h, header_end) refl

-- What is read of a buffer that begins with a request: its lines, and the rest stays.
pub read_request :
    (s : RingBuffer) (l : List ℕ) (ls : List (List ℕ)) (rest : List ℕ)
    → IsValid s
    → s.r < s.w
    → is_line l ≡ true
    → are_lines ls ≡ true
    → contents s ≡ request (l ∷ ls) rest
    → (s' : RingBuffer) × (peek_all s ≡ some (contents s, []))
      × (read_data (header_end (contents s) []) s ≡ some (request (l ∷ ls) [], nil, s'))
      × (contents s' ≡ rest)
      × IsValid s'
unfolding read_data
read_request s l ls rest v straight h hs holds =
    let (i, found, at) = index_of-request l ls rest h hs in
    let zeros : List ℕ = replicate (i + 4) 0 in
    let (out, returns, reads) = read_lem s zeros v in
    let whole = request (l ∷ ls) [] in
    let all : contents s ≡ whole ++ rest = holds ∙ request-append (l ∷ ls) rest in
    let room : length zeros ≡ length whole = length-replicate {A = ℕ} (i + 4) 0 ∙ at in
    let count : out.n ≡ length whole =
      omega (arith, reads.count, room, ap length all, length-append whole rest) in
    let taken : take out.n (contents s) ≡ whole =
      ap (take out.n) all ∙ take-append_left out.n whole rest count in
    let bytes : out.p ≡ whole =
      reads.bytes ∙ ap (overwrite zeros) taken ∙ overwrite_full zeros whole room in
    let no_err : out.err ≡ nil = ground (arith, reads.error) in
    (
      out.ring,
      peek_all_straight s v straight,
      rw
          (
            header_end-first (contents s) [] i (ap (λ c. index_of c crlf_crlf) holds ∙ found),
            read_data,
            returns,
          )
          ((ap₂ (λ p e. some (p, e, out.ring)) bytes no_err)),
      reads.rest ∙ ap (drop out.n) all ∙ drop-append_left out.n whole rest count,
      reads.keeps,
    )
