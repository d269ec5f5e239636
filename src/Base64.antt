-- ===== src/Base64.antt =====
-- The Base64 codec of Python's `base64` and `binascii`, which camadmiral/auth.py and
-- camadmiral/crypto.py call. Bytes are numbers below 256.
pub mod Roundtrip
use reefy_camadmiral.Prelude.{
  ℕ, suc, ◌+◌, ◌-◌, ◌*◌, ◌/◌, ◌%◌, Bool, true, false, ◌&&◌, Option, none, some, List, [], ◌∷◌, ltb,
  leb, ◌==◌, if◌then◌else◌, ◌≤◌,
}

-- The two alphabets differ in the digits 62 and 63.
pub data Alphabet : Type 0 where
  standard urlsafe : Alphabet

unfoldable pub digit_62 : Alphabet → ℕ
digit_62 standard = b'+'
digit_62 urlsafe = b'-'

unfoldable pub digit_63 : Alphabet → ℕ
digit_63 standard = b'/'
digit_63 urlsafe = b'_'

unfoldable pub to_char : Alphabet → ℕ → ℕ
unfolding digit_62 digit_63
to_char a v =
    if ltb v 26
    then b'A' + v
    else if ltb v 52
    then b'a' + (v - 26)
    else if ltb v 62
    then b'0' + (v - 52)
    else if v == 62
    then digit_62 a
    else digit_63 a

pub data Symbol : Type 0 where
  value : ℕ → Symbol
  pad junk : Symbol

abbrev between : ℕ → ℕ → ℕ → Bool
between lo hi c = leb lo c && leb c hi

-- `urlsafe_b64decode` translates `-_` to `+/` first, so it reads all four.
abbrev reads_standard : Alphabet → ℕ → Symbol → Symbol
reads_standard a c other = if c == b'+' then value 62 else if c == b'/' then value 63 else other

abbrev reads_urlsafe : Alphabet → ℕ → Symbol
reads_urlsafe standard c = junk
reads_urlsafe urlsafe c = if c == b'-' then value 62 else if c == b'_' then value 63 else junk

unfoldable pub classify : Alphabet → ℕ → Symbol
classify a c =
    if between b'A' b'Z' c
    then value (c - b'A')
    else if between b'a' b'z' c
    then value (c - b'a' + 26)
    else if between b'0' b'9' c
    then value (c - b'0' + 52)
    else if c == b'='
    then pad
    else reads_standard a c (reads_urlsafe a c)

-- How many digits of a group of four are read, with the bits that are left over.
pub data Quad : Type 0 where
  none_read : Quad
  one_read two_read three_read : ℕ → Quad

abbrev pub quad_pos : Quad → ℕ
quad_pos none_read = 0
quad_pos (one_read _) = 1
quad_pos (two_read _) = 2
quad_pos (three_read _) = 3

abbrev pub next_quad : Quad → ℕ → Quad
next_quad none_read v = one_read v
next_quad (one_read l) v = two_read (v % 16)
next_quad (two_read l) v = three_read (v % 4)
next_quad (three_read l) v = none_read

-- Prepends the byte that a digit completes to what the rest decodes to.
abbrev pub emit : Quad → ℕ → Option (List ℕ) → Option (List ℕ)
emit q v none = none
emit none_read v (some rest) = some rest
emit (one_read l) v (some rest) = some ((l * 4 + v / 16) ∷ rest)
emit (two_read l) v (some rest) = some ((l * 16 + v / 4) ∷ rest)
emit (three_read l) v (some rest) = some ((l * 64 + v) ∷ rest)

abbrev finished : Quad → Option (List ℕ)
finished none_read = some []
finished _ = none

abbrev is_empty : List ℕ → Bool
is_empty [] = true
is_empty _ = false

-- The loop of `binascii.a2b_base64`: junk is skipped unless `strict`; a pad that completes the
-- group ends the input; strict mode wants nothing behind it and no digit after a pad.
unfoldable pub a2b : Alphabet → Bool → Bool → ℕ → Quad → List ℕ → Option (List ℕ)
unfolding classify
a2b a strict padding pads q [] = finished q
a2b a strict padding pads q (c ∷ cs) = elim (classify a c) [
  | value v ↦ elim (strict && padding) [
    | true ↦ none
    | false ↦ emit q v (a2b a strict padding 0 (next_quad q v) cs)
  ]
  | pad ↦ elim (leb 2 (quad_pos q) && leb 4 (quad_pos q + suc pads)) [
    | true ↦ if strict then (if is_empty cs then some [] else none) else some []
    | false ↦ a2b a strict true (if leb 2 (quad_pos q) then suc pads else pads) q cs
  ]
  | junk ↦ elim strict [ true ↦ none | false ↦ a2b a strict padding pads q cs ]
]

abbrev leads_with_pad : List ℕ → Bool
leads_with_pad [] = false
leads_with_pad (c ∷ _) = c == b'='

-- `base64.b64decode(text, validate=True)`; `none` stands for `binascii.Error`
unfoldable pub b64decode_validate : List ℕ → Option (List ℕ)
unfolding a2b
b64decode_validate text =
    if leads_with_pad text then none else a2b standard true false 0 none_read text

-- `base64.urlsafe_b64decode(text)`
unfoldable pub urlsafe_b64decode : List ℕ → Option (List ℕ)
unfolding a2b
urlsafe_b64decode text = a2b urlsafe false false 0 none_read text

-- `base64.b64encode` and `base64.urlsafe_b64encode`
unfoldable pub encode : Alphabet → List ℕ → List ℕ
encode a [] = []
encode a (x ∷ []) = to_char a (x / 4) ∷ to_char a (x % 4 * 16) ∷ b'=' ∷ b'=' ∷ []
encode a (x ∷ y ∷ []) =
    to_char a (x / 4) ∷ to_char a (x % 4 * 16 + y / 16) ∷ to_char a (y % 16 * 4) ∷ b'=' ∷ []
encode a (x ∷ y ∷ z ∷ rest) =
    to_char a (x / 4)
    ∷ to_char a (x % 4 * 16 + y / 16)
    ∷ to_char a (y % 16 * 4 + z / 64)
    ∷ to_char a (z % 64)
    ∷ encode a rest

abbrev pub AreBytes : List ℕ → Type 0
AreBytes [] = Unit
AreBytes (x ∷ xs) = (suc x ≤ 256) × AreBytes xs
