-- ===== src/Websocket/Http/Lines.antt =====
-- The cutting of lines into words, and of a header line into key and value.
use goreactor.Common.{
  ℕ, zero, suc, ◌+◌, Bool, true, false, not, ◌&&◌, List, [], ◌∷◌, ◌++◌, some, ◌≡◌, refl, ap, ap₂,
  ◌∙◌, arith,
}
use goreactor.Common.{inl, inr, ◌==◌, length, drop, Bool-cases, take-append_left}
use goreactor.Websocket.Http.Defs.{
  index_byte, is_blank, trim_left, trim_right, btrim, split_at, after_index, bsplit3,
  canonical_byte, canonical_loop, canonicalize_header_key, http_parse_header_line,
}

-- A byte does not occur.
abbrev pub lacks : ℕ → List ℕ → Bool
lacks c [] = true
lacks c (b ∷ bs) = not (b == c) && lacks c bs

pub index_byte-append :
    (xs ys : List ℕ) (c : ℕ) → lacks c xs ≡ true → index_byte (xs ++ c ∷ ys) c ≡ some (length xs)
unfolding index_byte
index_byte-append [] ys c h = ground arith
index_byte-append (x ∷ xs) ys c h = ground (arith, index_byte-append xs ys c)

drop_past : (n : ℕ) (xs ys : List ℕ) (c : ℕ) → n ≡ suc (length xs) → drop n (xs ++ c ∷ ys) ≡ ys
drop_past zero xs ys c h = absurd (omega arith)
drop_past (suc zero) [] ys c h = refl
drop_past (suc (suc n)) [] ys c h = absurd (omega arith)
drop_past (suc n) (x ∷ xs) ys c h = drop_past n xs ys c (omega arith)

drop_add : (k m n : ℕ) (xs : List ℕ) → k ≡ m + n → drop k xs ≡ drop n (drop m xs)
drop_add k zero n xs h = ap (λ i. drop i xs) (omega arith)
drop_add zero (suc m) n xs h = absurd (omega arith)
drop_add (suc k) (suc m) zero [] h = refl
drop_add (suc k) (suc m) (suc n) [] h = refl
drop_add (suc k) (suc m) n (x ∷ xs) h = drop_add k m n xs (omega arith)

-- `bsplit3` takes the three words apart that a separator joins, when it is in neither of the first two.
pub bsplit3_lem :
    (b1 b2 b3 : List ℕ) (sep : ℕ)
    → lacks sep b1 ≡ true
    → lacks sep b2 ≡ true
    → bsplit3 (b1 ++ sep ∷ (b2 ++ sep ∷ b3)) sep ≡ (b1, b2, b3)
unfolding bsplit3 split_at after_index
bsplit3_lem b1 b2 b3 sep h k =
    let rest : drop (length b1 + 1) (b1 ++ sep ∷ (b2 ++ sep ∷ b3)) ≡ b2 ++ sep ∷ b3 =
      drop_past (length b1 + 1) b1 (b2 ++ sep ∷ b3) sep (omega arith) in
    let rest' : drop (length b1 + 1 + length b2 + 1) (b1 ++ sep ∷ (b2 ++ sep ∷ b3)) ≡ b3 =
      drop_add _ (length b1 + 1) (length b2 + 1) _ (omega arith)
      ∙ ap (drop (length b2 + 1)) rest
      ∙ drop_past (length b2 + 1) b2 b3 sep (omega arith) in
    rw
      (
        index_byte-append b1 (b2 ++ sep ∷ b3) sep h,
        rest,
        index_byte-append b2 b3 sep k,
        rest,
        rest',
      )
      (ap₂ (λ l m. (l, m, b3)) (take-append_left (length b1) b1 (sep ∷ (b2 ++ sep ∷ b3)) refl)
        (take-append_left (length b2) b2 (sep ∷ b3) refl))

canonical_byte_twice :
    (upper : Bool) (c : ℕ) → canonical_byte upper (canonical_byte upper c) ≡ canonical_byte upper c
unfolding canonical_byte
canonical_byte_twice true c = ground arith
canonical_byte_twice false c = ground arith

canonical_byte_dash : (upper : Bool) (c : ℕ) → (canonical_byte upper c == 45) ≡ (c == 45)
unfolding canonical_byte
canonical_byte_dash true c = ground arith
canonical_byte_dash false c = ground arith

canonical_loop_twice :
    (upper : Bool) (k : List ℕ)
    → canonical_loop upper (canonical_loop upper k) ≡ canonical_loop upper k
unfolding canonical_loop canonical_byte
canonical_loop_twice upper [] = refl
canonical_loop_twice upper (c ∷ k) = ap₂ ◌∷◌ (canonical_byte_twice upper c) (
    ap (λ u. canonical_loop u (canonical_loop (c == 45) k)) (canonical_byte_dash upper c)
    ∙ canonical_loop_twice (c == 45) k)

-- All of the bytes are ' ' or '\t'.
abbrev pub blank : List ℕ → Bool
blank [] = true
blank (b ∷ bs) = is_blank b && blank bs

trim_left-blank : (pad xs : List ℕ) → blank pad ≡ true → trim_left (pad ++ xs) ≡ trim_left xs
unfolding trim_left
trim_left-blank [] xs h = refl
trim_left-blank (b ∷ pad) xs h = ground (arith, trim_left-blank pad xs)

trim_right-blank : (xs pad : List ℕ) → blank pad ≡ true → trim_right (xs ++ pad) ≡ trim_right xs
unfolding trim_right
trim_right-blank [] [] h = refl
trim_right-blank [] (b ∷ pad) h = ground (arith, trim_right-blank [] pad)
trim_right-blank (x ∷ xs) pad h = ground (arith, trim_right-blank xs pad)

btrim-pad_right : (xs pad : List ℕ) → blank pad ≡ true → btrim (xs ++ pad) ≡ btrim xs
unfolding btrim trim_left
btrim-pad_right [] [] h = refl
btrim-pad_right [] (b ∷ pad) h = ground (arith, btrim-pad_right [] pad)
btrim-pad_right (x ∷ xs) pad h = elim (Bool-cases (is_blank x)) [
  | inl e ↦ ground (arith, btrim-pad_right xs pad h)
  | inr e ↦ ground (arith, trim_right-blank (x ∷ xs) pad h)
]

btrim-pad :
    (pad xs pad' : List ℕ)
    → blank pad ≡ true
    → blank pad' ≡ true
    → btrim (pad ++ (xs ++ pad')) ≡ btrim xs
unfolding btrim
btrim-pad pad xs pad' h k =
    ap trim_right (trim_left-blank pad (xs ++ pad') h) ∙ btrim-pad_right xs pad' k

lacks-append : (c : ℕ) (xs ys : List ℕ) → lacks c (xs ++ ys) ≡ lacks c xs && lacks c ys
lacks-append c [] ys = refl
lacks-append c (x ∷ xs) ys = ground (arith, lacks-append c xs ys)

lacks-blank : (pad : List ℕ) → blank pad ≡ true → lacks 58 pad ≡ true
unfolding is_blank
lacks-blank [] h = refl
lacks-blank (b ∷ pad) h = ground (arith, lacks-blank pad)

lacks-pad :
    (a key b : List ℕ)
    → blank a ≡ true
    → blank b ≡ true
    → lacks 58 key ≡ true
    → lacks 58 (a ++ (key ++ b)) ≡ true
lacks-pad a key b ha hb h =
    ground (
      arith,
      lacks-append 58 a (key ++ b),
      lacks-append 58 key b,
      lacks-blank a ha,
      lacks-blank b hb,
    )

-- `httpParseHeaderLine` finds the key and the value around the first colon, whatever blanks stand
-- around each of them: it gives the canonical form of the trimmed key, and the trimmed value.
pub http_parse_header_line_lem :
    (a key b c value d : List ℕ)
    → blank a ≡ true
    → blank b ≡ true
    → blank c ≡ true
    → blank d ≡ true
    → lacks 58 key ≡ true
    → http_parse_header_line ((a ++ (key ++ b)) ++ 58 ∷ (c ++ (value ++ d)))
      ≡ some (canonicalize_header_key (btrim key), btrim value)
unfolding http_parse_header_line
http_parse_header_line_lem a key b c value d ha hb hc hd h =
    let before = a ++ (key ++ b) in
    let after = c ++ (value ++ d) in
    rw
      (
        index_byte-append before after 58 (lacks-pad a key b ha hb h),
        take-append_left (length before) before (58 ∷ after) refl,
        drop_past (length before + 1) before after 58 (omega arith),
        btrim-pad a key b ha hb,
        btrim-pad c value d hc hd,
      )
      refl

-- `canonicalizeHeaderKey` leaves a canonical key as it is.
pub canonicalize_header_key_twice :
    (k : List ℕ) → canonicalize_header_key (canonicalize_header_key k) ≡ canonicalize_header_key k
unfolding canonicalize_header_key
canonicalize_header_key_twice k = canonical_loop_twice true k
