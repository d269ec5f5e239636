-- ===== src/Crypto/Passwords.antt =====
-- A sealed password is opened with its own key and credential, and only then (camadmiral/crypto.py).
use reefy_camadmiral.Prelude.{
  ℕ, zero, suc, ◌+◌, ◌≤◌, ◌≡◌, refl, true, Option, none, some, List, [], ◌∷◌, ◌++◌, arith, length,
  length-append, leb,
}
use reefy_camadmiral.Bytes.{is_utf8}
use reefy_camadmiral.Crypto.{
  ok, Aesgcm, IsCipher, take, drop, encrypt_password, decrypt_password, as_text,
}

take-append : (n : ℕ) (xs ys : List ℕ) → length xs ≡ n → take n (xs ++ ys) ≡ xs
take-append zero [] ys h = refl
take-append zero (x ∷ xs) ys h = absurd (omega arith)
take-append (suc n) [] ys h = absurd (omega arith)
take-append (suc n) (x ∷ xs) ys h = rw (take-append n xs ys (omega arith))

drop-append : (n : ℕ) (xs ys : List ℕ) → length xs ≡ n → drop n (xs ++ ys) ≡ ys
drop-append zero [] ys h = refl
drop-append zero (x ∷ xs) ys h = absurd (omega arith)
drop-append (suc n) [] ys h = absurd (omega arith)
drop-append (suc n) (x ∷ xs) ys h = drop-append n xs ys (omega arith)

pub take-append-drop : (n : ℕ) (xs : List ℕ) → take n xs ++ drop n xs ≡ xs
take-append-drop zero xs = refl
take-append-drop (suc n) [] = refl
take-append-drop (suc n) (x ∷ xs) = rw (take-append-drop n xs)

long :
    (nonce sealed : List ℕ)
    → 28 ≤ length nonce + length sealed
    → leb 29 (suc (length (nonce ++ sealed))) ≡ true
long nonce sealed h = ground (arith, length-append nonce sealed)

-- What is accepted is what sealing makes.
as_text-ok : (o : Option (List ℕ)) {password : List ℕ} → as_text o ≡ ok password → o ≡ some password
as_text-ok none h = cc
as_text-ok (some plain) h = ground arith

module _ (cipher : Aesgcm) (laws : IsCipher cipher) where
  -- What is sealed for a credential is opened for it with the same key.
  pub decrypt-encrypt :
      (nonce password uuid key : List ℕ)
      → length nonce ≡ 12
      → is_utf8 password ≡ true
      → decrypt_password cipher (encrypt_password cipher nonce password uuid key) uuid key
        ≡ ok password
  unfolding encrypt_password decrypt_password
  decrypt-encrypt nonce password uuid key size text =
      let sealed : List ℕ = cipher.seal key nonce password uuid in
      rw (long nonce sealed (omega (arith, laws.tag key nonce password uuid))) (
        rw (take-append 12 nonce sealed size, drop-append 12 nonce sealed size)
          (rw (laws.opens key nonce password uuid, text)))

  -- Whatever opens is what sealing the same password makes: with its version byte, some nonce,
  -- the same key and the same credential.
  pub decrypt-only_sealed :
      (payload uuid key : List ℕ) {password : List ℕ}
      → decrypt_password cipher payload uuid key ≡ ok password
      → (nonce : List ℕ) × (payload ≡ encrypt_password cipher nonce password uuid key)
  unfolding encrypt_password decrypt_password
  decrypt-only_sealed [] uuid key h = cc
  decrypt-only_sealed (v ∷ rest) uuid key {password} h =
      let facts : (leb 29 (suc (length rest)) ≡ true)
          × (v ≡ 1)
          × (as_text (cipher.unseal key (take 12 rest) (drop 12 rest) uuid) ≡ ok password) =
        (ground arith, ground arith, ground arith) in
      (take 12 rest, opened facts.1 (as_text-ok _ facts.2))
    where
      opened :
          v ≡ 1
          → cipher.unseal key (take 12 rest) (drop 12 rest) uuid ≡ some password
          → ◌≡◌ {A = List ℕ}
              (v ∷ rest)
              (1 ∷ (take 12 rest ++ cipher.seal key (take 12 rest) password uuid))
      opened one e = rw (
        one,
        ← laws.only key (take 12 rest) (drop 12 rest) uuid password e,
        take-append-drop 12 rest,
      )
