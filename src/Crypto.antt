-- ===== src/Crypto.antt =====
-- camadmiral/crypto.py: the master key's formats, where it is loaded from, and how a password is
-- sealed. Byte strings are lists of numbers below 256, and a text is its UTF-8 bytes.
pub mod Keys
pub mod Passwords
pub mod Tests
use reefy_camadmiral.Prelude.{
  ℕ, zero, suc, ◌+◌, ◌-◌, ◌*◌, ◌%◌, Bool, true, false, ◌&&◌, Option, none, some, List, [], ◌∷◌,
  ◌++◌, leb, ltb, ◌==◌, if◌then◌else◌, length, ◌≡◌,
}
use reefy_camadmiral.Bytes.{is_ascii, is_space_byte, is_utf8, strip}
use reefy_camadmiral.Base64.{urlsafe, encode, urlsafe_b64decode}

-- The ways in which `SecretConfigurationError` is raised, and the `ValueError` of a sealed password.
pub data Error : Type 0 where
  key_length key_format file_missing file_unreadable file_empty key_missing : Error
  cannot_create cannot_write unsupported_format invalid_tag invalid_text : Error

pub data Result {ℓ} (A : Type ℓ) : Type ℓ where
  ok : A → Result A
  err : Error → Result A

-- `text + "=" * (4 - len(text) % 4)` where the length is no multiple of 4
abbrev padded : List ℕ → ℕ → List ℕ
padded text zero = text
padded text (suc zero) = text ++ b'=' ∷ b'=' ∷ b'=' ∷ []
padded text (suc (suc zero)) = text ++ b'=' ∷ b'=' ∷ []
padded text (suc (suc (suc _))) = text ++ b'=' ∷ []

abbrev hex_digit : ℕ → Option ℕ
hex_digit c =
    if leb b'0' c && leb c b'9'
    then some (c - b'0')
    else if leb b'a' c && leb c b'f'
    then some (c - b'a' + 10)
    else if leb b'A' c && leb c b'F'
    then some (c - b'A' + 10)
    else none

abbrev hex_byte : Option ℕ → Option ℕ → Option (List ℕ) → Option (List ℕ)
hex_byte (some h) (some l) (some rest) = some ((h * 16 + l) ∷ rest)
hex_byte _ _ _ = none

-- `bytes.fromhex`: pairs of digits, with white space allowed between them
unfoldable pub fromhex : List ℕ → Option (List ℕ)
fromhex [] = some []
fromhex (h ∷ []) = if is_space_byte h then some [] else none
fromhex (h ∷ l ∷ rest) = elim (is_space_byte h) [
  | true ↦ fromhex (l ∷ rest)
  | false ↦ hex_byte (hex_digit h) (hex_digit l) (fromhex rest)
]

abbrev or_bad : Option (List ℕ) → Result (List ℕ)
or_bad none = err key_length
or_bad (some key) = if length key == 32 then ok key else err key_length

-- The candidates in their order, then hexadecimal digits.
abbrev first_key : Option (List ℕ) → Option (List ℕ) → Option (List ℕ) → Result (List ℕ)
first_key (some plain) filled hex = if length plain == 32 then ok plain else elim filled [
  | none ↦ or_bad hex
  | some key ↦ if length key == 32 then ok key else or_bad hex
]
first_key none filled hex = elim filled [
  | none ↦ or_bad hex
  | some key ↦ if length key == 32 then ok key else or_bad hex
]

-- `_decoded_key`; a text that is not ASCII is the `UnicodeDecodeError` that it translates.
unfoldable pub decoded_key : List ℕ → Result (List ℕ)
decoded_key value =
    if length value == 32
    then ok value
    else if is_ascii value
    then first_key (urlsafe_b64decode value) (urlsafe_b64decode (padded value (length value % 4)))
        (fromhex value)
    else err key_format

-- What stands at a path: nothing, a file, or something that cannot be read.
pub data File : Type 0 where
  missing unreadable : File
  contents : List ℕ → File

abbrev non_empty : List ℕ → Result (Option (List ℕ))
non_empty [] = err file_empty
non_empty (c ∷ cs) = ok (some (c ∷ cs))

-- `read_secret_file` of camadmiral/config.py
unfoldable pub read_secret_file : File → Bool → Result (Option (List ℕ))
unfolding strip
read_secret_file missing required = if required then err file_missing else ok none
read_secret_file unreadable required = err file_unreadable
read_secret_file (contents text) required = non_empty (strip is_space_byte text)

-- The files that `load_master_key` looks at, and what may happen while it creates one: `raced` is
-- what another process has put at the path of the generated key by then, `writable` says whether
-- the directory can be made ready and takes a new file, and `cut_off` is what a failed write leaves in it.
pub record Files : Type 0 where
  pub mounted : File
  pub explicit : Bool
  pub generated : File
  pub database_exists : Bool
  pub raced : File
  pub writable : Bool
  pub cut_off : Option (List ℕ)

abbrev or_missing : Result (Option (List ℕ)) → Result (List ℕ)
or_missing (ok (some value)) = decoded_key value
or_missing (ok none) = err file_missing
or_missing (err e) = err e

abbrev write_key : Files → List ℕ → Option (List ℕ) → Result (List ℕ) × Files
write_key fs key none = (ok key, record fs { generated = contents (encode urlsafe key ++ 10 ∷ []) })
write_key fs key (some part) = (err cannot_write, record fs { generated = contents part })

-- `os.open` with `O_EXCL` makes a new file, or finds that of another process and reads it.
unfoldable pub generate_master_key : Files → List ℕ → Result (List ℕ) × Files
generate_master_key fs key =
    if fs.writable
    then elim fs.generated [
      | missing ↦ write_key fs key fs.cut_off
      | unreadable ↦ (err file_unreadable, fs)
      | contents text ↦ (or_missing (read_secret_file (contents text) true), fs)
    ]
    else (err cannot_create, fs)

abbrev load_generated : Files → List ℕ → Result (Option (List ℕ)) → Result (List ℕ) × Files
load_generated fs random (ok (some value)) = (decoded_key value, fs)
load_generated fs random (ok none) =
    if fs.database_exists
    then (err key_missing, fs)
    else generate_master_key (record fs { generated = fs.raced }) random
load_generated fs random (err e) = (err e, fs)

abbrev load_mounted : Files → List ℕ → Result (Option (List ℕ)) → Result (List ℕ) × Files
load_mounted fs random (ok (some value)) = (decoded_key value, fs)
load_mounted fs random (ok none) = load_generated fs random (read_secret_file fs.generated false)
load_mounted fs random (err e) = (err e, fs)

-- `random` is what `os.urandom(32)` returns.
unfoldable pub load_master_key : Files → List ℕ → Result (List ℕ) × Files
load_master_key fs random = load_mounted fs random (read_secret_file fs.mounted fs.explicit)

-- `cryptography`'s AES-GCM: encryption with a key, a nonce, a text and associated data, and
-- decryption, which fails where the tag does not fit.
pub record Aesgcm : Type 0 where
  pub seal : List ℕ → List ℕ → List ℕ → List ℕ → List ℕ
  pub unseal : List ℕ → List ℕ → List ℕ → List ℕ → Option (List ℕ)

-- What the library documents: a sealed text is opened again, nothing else is, and a sealed text
-- is 16 bytes longer than the text.
pub record IsCipher (cipher : Aesgcm) : Type 0 where
  pub opens : (k n text a : List ℕ) → cipher.unseal k n (cipher.seal k n text a) a ≡ some text
  pub only :
      (k n sealed a text : List ℕ)
      → cipher.unseal k n sealed a ≡ some text
      → sealed ≡ cipher.seal k n text a
  pub tag : (k n text a : List ℕ) → length (cipher.seal k n text a) ≡ length text + 16

-- `payload[:n]` and `payload[n:]`
abbrev pub take : ℕ → List ℕ → List ℕ
take zero xs = []
take (suc n) [] = []
take (suc n) (x ∷ xs) = x ∷ take n xs

abbrev pub drop : ℕ → List ℕ → List ℕ
drop zero xs = xs
drop (suc n) [] = []
drop (suc n) (x ∷ xs) = drop n xs

abbrev starts_with_one : List ℕ → Bool
starts_with_one [] = false
starts_with_one (b ∷ _) = b == 1

abbrev as_text : Option (List ℕ) → Result (List ℕ)
as_text none = err invalid_tag
as_text (some plain) = if is_utf8 plain then ok plain else err invalid_text

-- `nonce` is what `os.urandom(12)` returns.
unfoldable pub encrypt_password : Aesgcm → List ℕ → List ℕ → List ℕ → List ℕ → List ℕ
encrypt_password cipher nonce password uuid key = 1 ∷ (nonce ++ cipher.seal key nonce password uuid)

unfoldable pub decrypt_password : Aesgcm → List ℕ → List ℕ → List ℕ → Result (List ℕ)
decrypt_password cipher payload uuid key =
    if leb 29 (length payload) && starts_with_one payload
    then as_text (cipher.unseal key (take 12 (drop 1 payload)) (drop 13 payload) uuid)
    else err unsupported_format
