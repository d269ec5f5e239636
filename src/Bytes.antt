-- ===== src/Bytes.antt =====
-- Byte strings as lists of numbers below 256: the operations of Python's `bytes` and `str` that
-- camadmiral/auth.py, camadmiral/config.py and camadmiral/crypto.py use.
use Prim.Native.Char.{code}
use Prim.Native.String.{String}
use reefy_camadmiral.Prelude.{
  ℕ, zero, suc, ◌≡◌, refl, ◌↔◌, Bool, true, false, ◌&&◌, ◌||◌, Option, none, some, List, [], ◌∷◌,
  ◌++◌, leb, ltb, ◌==◌, if◌then◌else◌, arith, all,
}

abbrev pub bytes_eq : List ℕ → List ℕ → Bool
bytes_eq [] [] = true
bytes_eq [] (_ ∷ _) = false
bytes_eq (_ ∷ _) [] = false
bytes_eq (x ∷ xs) (y ∷ ys) = x == y && bytes_eq xs ys

pub bytes_eq_iff : (xs ys : List ℕ) → (bytes_eq xs ys ≡ true) ↔ (xs ≡ ys)
bytes_eq_iff [] [] = (λ _. refl, λ _. refl)
bytes_eq_iff [] (y ∷ ys) = (λ h. cc, λ h. cc)
bytes_eq_iff (x ∷ xs) [] = (λ h. cc, λ h. cc)
bytes_eq_iff (x ∷ xs) (y ∷ ys) =
    (λ h. ground (arith, bytes_eq_iff xs ys), λ h. ground (arith, bytes_eq_iff xs ys))

abbrev pub is_ascii : List ℕ → Bool
is_ascii = all (λ c. ltb c 128)

-- `bytes.strip()` removes these at both ends; `str.strip()` removes all white space of Unicode.
abbrev pub is_space_byte : ℕ → Bool
is_space_byte c = c == 32 || leb 9 c && leb c 13

abbrev pub is_space : ℕ → Bool
is_space c =
    is_space_byte c
    || leb 28 c && leb c 31
    || c == 133
    || c == 160
    || c == 0x1680
    || leb 0x2000 c && leb c 0x200a
    || c == 0x2028
    || c == 0x2029
    || c == 0x202f
    || c == 0x205f
    || c == 0x3000

unfoldable pub strip_front : (ℕ → Bool) → List ℕ → List ℕ
strip_front space [] = []
strip_front space (c ∷ cs) = if space c then strip_front space cs else c ∷ cs

-- Drops what ends the text: a character is kept if it is no space or something is kept behind it.
abbrev keep_if : Bool → ℕ → List ℕ → List ℕ
keep_if true c [] = []
keep_if _ c rest = c ∷ rest

unfoldable pub strip_back : (ℕ → Bool) → List ℕ → List ℕ
strip_back space [] = []
strip_back space (c ∷ cs) = keep_if (space c) c (strip_back space cs)

unfoldable pub strip : (ℕ → Bool) → List ℕ → List ℕ
unfolding strip_front strip_back
strip space text = strip_front space (strip_back space text)

-- The bytes that may follow a lead byte: how many, and the range of the first of them.
abbrev utf8_lead : ℕ → Option (ℕ × ℕ × ℕ)
utf8_lead c =
    if ltb c 0x80
    then some (0, 0x80, 0xbf)
    else if ltb c 0xc2
    then none
    else if ltb c 0xe0
    then some (1, 0x80, 0xbf)
    else if ltb c 0xf0
    then some (2, (if c == 0xe0 then 0xa0 else 0x80), (if c == 0xed then 0x9f else 0xbf))
    else if ltb c 0xf5
    then some (3, (if c == 0xf0 then 0x90 else 0x80), (if c == 0xf4 then 0x8f else 0xbf))
    else none

utf8_from : ℕ → ℕ → ℕ → List ℕ → Bool
utf8_from zero lo hi [] = true
utf8_from (suc n) lo hi [] = false
utf8_from zero lo hi (c ∷ cs) = elim (utf8_lead c) [
  | none ↦ false
  | some (n, lo', hi') ↦ utf8_from n lo' hi' cs
]
utf8_from (suc n) lo hi (c ∷ cs) = leb lo c && leb c hi && utf8_from n 0x80 0xbf cs

-- Whether `bytes.decode("utf-8")` succeeds.
unfoldable pub is_utf8 : List ℕ → Bool
unfolding utf8_from
is_utf8 = utf8_from 0 0 0

-- `text.split(":", 1)`, `none` where there is no colon
abbrev pub before_after : ℕ → Option (List ℕ × List ℕ) → Option (List ℕ × List ℕ)
before_after c none = none
before_after c (some (before, after)) = some (c ∷ before, after)

unfoldable pub split_colon : List ℕ → Option (List ℕ × List ℕ)
split_colon [] = none
split_colon (c ∷ cs) =
    let rest = split_colon cs in if c == b':' then some ([], cs) else before_after c rest

-- The first colon is where the text is split.
pub split_colon-append :
    (user password : List ℕ)
    → all (λ c. if c == b':' then false else true) user ≡ true
    → split_colon (user ++ b':' ∷ password) ≡ some (user, password)
unfolding split_colon
split_colon-append [] password h = refl
split_colon-append (c ∷ user) password h = ground (arith, split_colon-append user password)

-- The code points of a text.
abbrev pub codes : String → List ℕ
codes String.[] = []
codes (String.◌∷◌ c s) = code c ∷ codes s
