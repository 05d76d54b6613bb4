-- ===== src/Websocket/Http/Defs.antt =====
-- plugins/websocket/ws/utils.go, and of ws/http.go the request line, the version and the header
-- line. A slice of bytes is a list; `int` is kept modulo 2 ^ 64.
use goreactor.Common.{
  ℕ, zero, suc, ◌+◌, ◌-◌, ◌*◌, ◌/◌, ◌%◌, ◌^◌, Bool, true, false, not, ◌&&◌, ◌||◌, List, [], ◌∷◌,
  Option, some, none,
}
use goreactor.Common.{ltb, leb, ◌==◌, if◌then◌else◌, ◌>>=◌, length, take, drop}

-- `bytes.IndexByte`; -1 is `none`.
unfoldable pub index_byte : List ℕ → ℕ → Option ℕ
index_byte [] c = none
index_byte (b ∷ bs) c = if b == c then some 0 else index_byte bs c >>= λ i. some (suc i)

-- `bytes.Equal`
unfoldable pub equal : List ℕ → List ℕ → Bool
equal [] [] = true
equal [] (c ∷ cs) = false
equal (b ∷ bs) [] = false
equal (b ∷ bs) (c ∷ cs) = b == c && equal bs cs

-- The loop of `pow` with `p`, `a` and `b` as they are, for at most so many rounds.
unfoldable pub pow_loop : ℕ → ℕ → ℕ → ℕ → ℕ
pow_loop zero p a b = p
pow_loop (suc fuel) p a b =
    let rest = pow_loop fuel (if b % 2 == 0 then p else p * a % 2 ^ 64) (a * a % 2 ^ 64) (b / 2) in
    if b == 0 then p else rest

-- `pow`, with a round for each unit of `b`.
unfoldable pub pow : ℕ → ℕ → ℕ
pow a b = pow_loop b 1 a b

-- The loop of `asciiToInt`; `length bts` is `n-i-1`.
unfoldable pub ascii_loop : ℕ → List ℕ → Option ℕ
ascii_loop ret [] = some ret
ascii_loop ret (b ∷ bts) =
    if b / 16 == 3 then ascii_loop ((ret + b % 16 * pow 10 (length bts)) % 2 ^ 64) bts else none

-- `asciiToInt`; `none` is an error.
unfoldable pub ascii_to_int : List ℕ → Option ℕ
ascii_to_int [] = none
ascii_to_int (b ∷ bts) = ascii_loop 0 (b ∷ bts)

-- `bsplit3`; nil is the empty list.
unfoldable pub split_at : List ℕ → Option ℕ → Option ℕ → List ℕ × List ℕ × List ℕ
split_at bts (some a) (some b) = (take a bts, take b (drop (a + 1) bts), drop (a + 1 + b + 1) bts)
split_at bts _ _ = (bts, [], [])

-- Where there is no separator, `a` is -1 and the second search starts at 0.
unfoldable pub after_index : List ℕ → Option ℕ → List ℕ
after_index bts none = bts
after_index bts (some a) = drop (a + 1) bts

unfoldable pub bsplit3 : List ℕ → ℕ → List ℕ × List ℕ × List ℕ
bsplit3 bts sep = let a = index_byte bts sep in split_at bts a (index_byte (after_index bts a) sep)

-- ' ' or '\t'
unfoldable pub is_blank : ℕ → Bool
is_blank b = b == 32 || b == 9

-- The first loop of `btrim`.
unfoldable pub trim_left : List ℕ → List ℕ
trim_left [] = []
trim_left (b ∷ bs) = if is_blank b then trim_left bs else b ∷ bs

-- The second loop of `btrim`: a last byte is left out if it is blank.
unfoldable pub trim_right : List ℕ → List ℕ
trim_right [] = []
trim_right (b ∷ bs) = keep b (trim_right bs)
  where
    keep : ℕ → List ℕ → List ℕ
    keep b [] = if is_blank b then [] else b ∷ []
    keep b (c ∷ cs) = b ∷ c ∷ cs

unfoldable pub btrim : List ℕ → List ℕ
btrim bts = trim_right (trim_left bts)

-- A round of `canonicalizeHeaderKey`: `&= toUpper` and `|= toLower` on a letter.
unfoldable pub canonical_byte : Bool → ℕ → ℕ
canonical_byte upper c =
    if upper && leb 97 c && leb c 122
    then c - 32
    else if not upper && leb 65 c && leb c 90
    then c + 32
    else c

unfoldable pub canonical_loop : Bool → List ℕ → List ℕ
canonical_loop upper [] = []
canonical_loop upper (c ∷ k) = canonical_byte upper c ∷ canonical_loop (c == 45) k

-- `canonicalizeHeaderKey`
unfoldable pub canonicalize_header_key : List ℕ → List ℕ
canonicalize_header_key k = canonical_loop true k

-- `httpParseVersion` after the prefix: the numbers on both sides of the first dot.
unfoldable pub http_parse_numbers : List ℕ → Option (ℕ × ℕ)
http_parse_numbers bts = do
  dot ← index_byte bts 46
  major ← ascii_to_int (take dot bts)
  minor ← ascii_to_int (drop (dot + 1) bts)
  some (major, minor)

-- "HTTP/"
abbrev pub http_version_prefix : List ℕ
http_version_prefix = 72 ∷ 84 ∷ 84 ∷ 80 ∷ 47 ∷ []

-- "HTTP/1.0" and "HTTP/1.1"
abbrev pub http_version10 : List ℕ
http_version10 = 72 ∷ 84 ∷ 84 ∷ 80 ∷ 47 ∷ 49 ∷ 46 ∷ 48 ∷ []

abbrev pub http_version11 : List ℕ
http_version11 = 72 ∷ 84 ∷ 84 ∷ 80 ∷ 47 ∷ 49 ∷ 46 ∷ 49 ∷ []

-- `httpParseVersion`; `none` is a false `ok`.
unfoldable pub http_parse_version : List ℕ → Option (ℕ × ℕ)
http_parse_version bts =
    if equal bts http_version10
    then some (1, 0)
    else if equal bts http_version11
    then some (1, 1)
    else if ltb (length bts) 8
    then none
    else if not (equal (take 5 bts) http_version_prefix)
    then none
    else http_parse_numbers (drop 5 bts)

-- `httpParseHeaderLine`; `none` is a false `ok`.
unfoldable pub http_parse_header_line : List ℕ → Option (List ℕ × List ℕ)
http_parse_header_line line = do
  colon ← index_byte line 58
  some (canonicalize_header_key (btrim (take colon line)), btrim (drop (colon + 1) line))
