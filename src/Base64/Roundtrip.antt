-- ===== src/Base64/Roundtrip.antt =====
-- Decoding what the encoder wrote.
use mathlib.Core.Path.{ap₂}
use reefy_camadmiral.Prelude.{
  ℕ, ◌+◌, ◌*◌, ◌/◌, ◌%◌, ◌<◌, ◌≡◌, ap, refl, Bool, true, false, Option, some, List, [], ◌∷◌, arith,
}
use reefy_camadmiral.Base64.{
  Alphabet, standard, urlsafe, to_char, classify, value, Quad, none_read, one_read, two_read,
  three_read, next_quad, emit, a2b, encode, AreBytes,
}

-- Every digit is read back from its character.
classify-to_char : (a : Alphabet) (v : ℕ) → v < 64 → classify a (to_char a v) ≡ value v
unfolding classify to_char
classify-to_char standard v h = ground arith
classify-to_char urlsafe v h = ground arith

-- One digit of an encoded text is one step of the decoder.
a2b-digit :
    (a : Alphabet) (strict : Bool) (pads : ℕ) (q : Quad) (v : ℕ) (cs : List ℕ)
    → v < 64
    → a2b a strict false pads q (to_char a v ∷ cs)
      ≡ emit q v (a2b a strict false 0 (next_quad q v) cs)
unfolding a2b
a2b-digit a true pads q v cs h = rw (classify-to_char a v h, a2b)
a2b-digit a false pads q v cs h = rw (classify-to_char a v h, a2b)

module _ (a : Alphabet) (strict : Bool) where
  abbrev read : Quad → List ℕ → Option (List ℕ)
  read q cs = a2b a strict false 0 q cs

  two_pads : (l : ℕ) → read (two_read l) (b'=' ∷ b'=' ∷ []) ≡ some []
  unfolding a2b
  two_pads l = ground arith

  one_pad : (l : ℕ) → read (three_read l) (b'=' ∷ []) ≡ some []
  unfolding a2b
  one_pad l = ground arith

  -- The bits that two neighbouring digits carry are put together again.
  first_byte : (x y : ℕ) → y < 256 → x / 4 * 4 + (x % 4 * 16 + y / 16) / 16 ≡ x
  first_byte x y h = omega arith

  second_byte :
      (x y z : ℕ)
      → y < 256
      → z < 256
      → (x % 4 * 16 + y / 16) % 16 * 16 + (y % 16 * 4 + z / 64) / 4 ≡ y
  second_byte x y z h k = omega arith

  third_byte : (y z : ℕ) → z < 256 → (y % 16 * 4 + z / 64) % 4 * 64 + z % 64 ≡ z
  third_byte y z k = omega arith

  -- What is encoded is decoded to the same bytes, in both alphabets, strict or not.
  pub a2b-encode : (bs : List ℕ) → AreBytes bs → read none_read (encode a bs) ≡ some bs
  unfolding encode
  a2b-encode [] h = unfold a2b in refl
  a2b-encode (x ∷ []) h = rw (a2b-digit a strict 0 none_read (x / 4) _ (omega arith)) (
      rw (a2b-digit a strict 0 (one_read (x / 4)) (x % 4 * 16) _ (omega arith))
        (rw (two_pads (x % 4 * 16 % 16)) (ap (λ n. some (n ∷ [])) (omega arith))))
  a2b-encode (x ∷ y ∷ []) h = rw (a2b-digit a strict 0 none_read (x / 4) _ (omega arith)) (
      rw (a2b-digit a strict 0 (one_read (x / 4)) (x % 4 * 16 + y / 16) _ (omega arith)) (
        rw
          (a2b-digit a strict 0 (two_read ((x % 4 * 16 + y / 16) % 16)) (y % 16 * 4) _
            (omega arith))
          (rw (one_pad (y % 16 * 4 % 4))
            (ap₂ (λ m n. some (m ∷ n ∷ [])) (first_byte x y h.1.0) (omega arith)))))
  a2b-encode (x ∷ y ∷ z ∷ rest) h = rw (a2b-digit a strict 0 none_read (x / 4) _ (omega arith)) (
      rw (a2b-digit a strict 0 (one_read (x / 4)) (x % 4 * 16 + y / 16) _ (omega arith)) (
        rw
          (a2b-digit a strict 0 (two_read ((x % 4 * 16 + y / 16) % 16)) (y % 16 * 4 + z / 64) _
            (omega arith))
          (rw
            (a2b-digit a strict 0 (three_read ((y % 16 * 4 + z / 64) % 4)) (z % 64) _ (omega arith))
            (rw (
              a2b-encode rest h.1.1.1,
              first_byte x y h.1.0,
              second_byte x y z h.1.0 h.1.1.0,
              third_byte y z h.1.1.0,
            )))))
