-- ===== src/Crypto/Keys.antt =====
-- A generated master key is read back, and an existing one is never replaced (camadmiral/crypto.py).
use reefy_camadmiral.Prelude.{
  ℕ, ◌+◌, ◌*◌, ◌/◌, ◌%◌, ◌<◌, ◌≡◌, ◌≢◌, refl, Bool, true, false, ◌&&◌, Option, none, some, List, [],
  ◌∷◌, arith, length, all, ltb,
}
use reefy_camadmiral.Bytes.{is_ascii, is_space_byte, strip}
use reefy_camadmiral.Base64.{Alphabet, urlsafe, encode, to_char, urlsafe_b64decode, AreBytes}
use reefy_camadmiral.Base64.Roundtrip.{a2b-encode}
use reefy_camadmiral.Crypto.{
  Result, ok, err, non_empty, or_missing, load_generated, load_mounted, File, missing, unreadable,
  contents, Files, decoded_key, read_secret_file, generate_master_key, load_master_key,
}

-- Four characters for each three bytes, the last group filled up.
length-encode : (a : Alphabet) (bs : List ℕ) → length (encode a bs) ≡ 4 * ((length bs + 2) / 3)
unfolding encode
length-encode a [] = omega arith
length-encode a (x ∷ []) = omega arith
length-encode a (x ∷ y ∷ []) = omega arith
length-encode a (x ∷ y ∷ z ∷ rest) = omega (arith, length-encode a rest)

abbrev plain_char : ℕ → Bool
plain_char c = ltb 32 c && ltb c 128

to_char-plain : (v : ℕ) → v < 64 → plain_char (to_char urlsafe v) ≡ true
unfolding to_char
to_char-plain v h = ground arith

encode-plain : (bs : List ℕ) → AreBytes bs → all plain_char (encode urlsafe bs) ≡ true
unfolding encode
encode-plain [] h = refl
encode-plain (x ∷ []) h =
    rw (to_char-plain (x / 4) (omega arith), to_char-plain (x % 4 * 16) (omega arith))
encode-plain (x ∷ y ∷ []) h = rw (
  to_char-plain (x / 4) (omega arith),
  to_char-plain (x % 4 * 16 + y / 16) (omega arith),
  to_char-plain (y % 16 * 4) (omega arith),
)
encode-plain (x ∷ y ∷ z ∷ rest) h = rw (
  to_char-plain (x / 4) (omega arith),
  to_char-plain (x % 4 * 16 + y / 16) (omega arith),
  to_char-plain (y % 16 * 4 + z / 64) (omega arith),
  to_char-plain (z % 64) (omega arith),
  encode-plain rest h.1.1.1,
)

plain-ascii : (cs : List ℕ) → all plain_char cs ≡ true → is_ascii cs ≡ true
plain-ascii [] h = refl
plain-ascii (c ∷ cs) h = ground (arith, plain-ascii cs)

-- No key is mounted or configured.
abbrev pub HasNoMount : Files → Type 0
HasNoMount fs = (fs.mounted ≡ missing) × (fs.explicit ≡ false)

-- The first start of an installation: no key, no database, and nothing goes wrong.
pub record IsFirstStart (fs : Files) : Type 0 where
  pub no_mount : HasNoMount fs
  pub no_key : fs.generated ≡ missing
  pub no_database : fs.database_exists ≡ false
  pub alone : fs.raced ≡ missing
  pub may_write : fs.writable ≡ true
  pub writes : fs.cut_off ≡ none

module _ (key : List ℕ) (bytes : AreBytes key) (size : length key ≡ 32) where
  length-encoded : length (encode urlsafe key) ≡ 44
  length-encoded = omega (arith, length-encode urlsafe key)

  urlsafe-encode : urlsafe_b64decode (encode urlsafe key) ≡ some key
  unfolding urlsafe_b64decode
  urlsafe-encode = a2b-encode urlsafe false key bytes

  -- The text that `_generate_master_key` writes, without its line end, is read as the same key.
  pub decoded_key-encode : decoded_key (encode urlsafe key) ≡ ok key
  unfolding decoded_key
  decoded_key-encode =
      rw (length-encoded, plain-ascii _ (encode-plain key bytes), urlsafe-encode, size)

non_empty-ne : (text : List ℕ) → non_empty text ≢ ok none
non_empty-ne [] h = cc
non_empty-ne (c ∷ cs) h = cc

read-none : (f : File) → read_secret_file f false ≡ ok none → f ≡ missing
unfolding read_secret_file
read-none missing h = refl
read-none unreadable h = cc
read-none (contents text) h = absurd (non_empty-ne (strip is_space_byte text) h)

-- A generated key that is there is never written to, whatever it holds.
pub load-keeps_generated :
    (fs : Files) (random : List ℕ) → fs.generated ≢ missing → (load_master_key fs random).1 ≡ fs
unfolding load_master_key
load-keeps_generated fs random h = ground (arith, read-none fs.generated)

abbrev pub is_ok {ℓ} : {A : Type ℓ} → Result A → Bool
is_ok (ok a) = true
is_ok (err e) = false

abbrev pub is_missing : File → Bool
is_missing missing = true
is_missing _ = false

module _ (fs : Files) (random other : List ℕ) (d : fs.database_exists ≡ true) where
  generated-same :
      (r : Result (Option (List ℕ)))
      → (load_generated fs random r ≡ load_generated fs other r)
        × ((load_generated fs random r).1 ≡ fs)
  generated-same (ok (some value)) = (refl, refl)
  generated-same (ok none) = rw d (refl, refl)
  generated-same (err e) = (refl, refl)

  mounted-same :
      (r : Result (Option (List ℕ)))
      → (load_mounted fs random r ≡ load_mounted fs other r) × ((load_mounted fs random r).1 ≡ fs)
  mounted-same (ok (some value)) = (refl, refl)
  mounted-same (ok none) = generated-same (read_secret_file fs.generated false)
  mounted-same (err e) = (refl, refl)

  generated-needed :
      (f : File)
      → (is_ok (load_generated fs random (read_secret_file f false)).0 && is_missing f) ≡ false
  unfolding read_secret_file
  generated-needed missing = rw d refl
  generated-needed unreadable = refl
  generated-needed (contents text) = ground arith

  mounted-needed :
      (f : File) (explicit : Bool)
      → (is_ok (load_mounted fs random (read_secret_file f explicit)).0
          && is_missing f
          && is_missing fs.generated)
        ≡ false
  unfolding read_secret_file
  mounted-needed missing true = refl
  mounted-needed missing false = ground (arith, generated-needed fs.generated)
  mounted-needed unreadable explicit = refl
  mounted-needed (contents text) explicit = ground arith

-- Where there is a database no key is ever made: whatever is mounted or stands in the key's file,
-- a start uses no random bytes, leaves every file as it is, and has no key where both are missing.
pub database_needs_its_key :
    (fs : Files) (random other : List ℕ)
    → fs.database_exists ≡ true
    → (load_master_key fs random ≡ load_master_key fs other)
      × ((load_master_key fs random).1 ≡ fs)
      × ((is_ok (load_master_key fs random).0 && is_missing fs.mounted && is_missing fs.generated)
          ≡ false)
unfolding load_master_key
database_needs_its_key fs random other d = (
  (mounted-same fs random other d (read_secret_file fs.mounted fs.explicit)).0,
  (mounted-same fs random other d (read_secret_file fs.mounted fs.explicit)).1,
  mounted-needed fs random other d fs.mounted fs.explicit,
)

decoded_key-length : (value : List ℕ) {key : List ℕ} → decoded_key value ≡ ok key → length key ≡ 32
unfolding decoded_key
decoded_key-length value h = ground arith

read_key-length :
    (r : Result (Option (List ℕ))) {key : List ℕ} → or_missing r ≡ ok key → length key ≡ 32
read_key-length (ok (some value)) h = decoded_key-length value h
read_key-length (ok none) h = cc
read_key-length (err e) h = cc

generate-length :
    (fs : Files) (random : List ℕ) {key : List ℕ}
    → length random ≡ 32
    → (generate_master_key fs random).0 ≡ ok key
    → length key ≡ 32
unfolding generate_master_key
generate-length fs random {key} size h =
    ground (arith, read_key-length (read_secret_file fs.generated true) {key = key})

module _ (fs : Files) (random : List ℕ) (size : length random ≡ 32) {key : List ℕ} where
  load_generated-length :
      (r : Result (Option (List ℕ))) → (load_generated fs random r).0 ≡ ok key → length key ≡ 32
  load_generated-length (ok (some value)) h = decoded_key-length value h
  load_generated-length (ok none) h =
      ground (arith, generate-length (record fs { generated = fs.raced }) random {key = key} size)
  load_generated-length (err e) h = cc

  load_mounted-length :
      (r : Result (Option (List ℕ))) → (load_mounted fs random r).0 ≡ ok key → length key ≡ 32
  load_mounted-length (ok (some value)) h = decoded_key-length value h
  load_mounted-length (ok none) h = load_generated-length (read_secret_file fs.generated false) h
  load_mounted-length (err e) h = cc

-- Every key that is loaded, mounted or generated, has 32 bytes.
pub load-length :
    (fs : Files) (random : List ℕ) {key : List ℕ}
    → length random ≡ 32
    → (load_master_key fs random).0 ≡ ok key
    → length key ≡ 32
unfolding load_master_key
load-length fs random size h =
    load_mounted-length fs random size (read_secret_file fs.mounted fs.explicit) h
