-- ===== src/Crypto/Tests.antt =====
-- One installation's key, and a cipher that only adds a tag of zeros.
use reefy_camadmiral.Prelude.{
  ℕ, ◌≡◌, refl, sym, ◌∙◌, true, false, ◌&&◌, Option, none, some, List, [], ◌∷◌, ◌++◌, arith,
  if◌then◌else◌,
}
use mathlib.Core.Path.{ap₂}
use reefy_camadmiral.Bytes.{codes, bytes_eq, bytes_eq_iff, is_utf8}
use reefy_camadmiral.Base64.{urlsafe, encode}
use reefy_camadmiral.Crypto.{
  ok, missing, Files, Aesgcm, IsCipher, decoded_key, load_master_key, take, drop, encrypt_password,
  decrypt_password,
}
use reefy_camadmiral.Crypto.Keys.{database_needs_its_key, is_ok, is_missing, decoded_key-encode}
use reefy_camadmiral.Crypto.Passwords.{decrypt-encrypt, decrypt-only_sealed, take-append-drop}

abbrev key : List ℕ
key = codes "0123456789abcdefghijklmnopqrstuv"

abbrev empty_host : Files
empty_host = record {
  mounted = missing;
  explicit = false;
  generated = missing;
  database_exists = false;
  raced = missing;
  writable = true;
  cut_off = none;
}

decoded_example : decoded_key (encode urlsafe key) ≡ ok key
decoded_example = decoded_key-encode key (omega arith) refl

abbrev used_host : Files
used_host = record empty_host { database_exists = true }

lost_example :
    (load_master_key used_host key ≡ load_master_key used_host [])
    × ((load_master_key used_host key).1 ≡ used_host)
    × ((is_ok (load_master_key used_host key).0
          && is_missing used_host.mounted
          && is_missing used_host.generated)
        ≡ false)
lost_example = database_needs_its_key used_host key [] refl

abbrev zeros : List ℕ
zeros = 0 ∷ 0 ∷ 0 ∷ 0 ∷ 0 ∷ 0 ∷ 0 ∷ 0 ∷ 0 ∷ 0 ∷ 0 ∷ 0 ∷ 0 ∷ 0 ∷ 0 ∷ 0 ∷ []

abbrev strip_tag : List ℕ → Option (List ℕ)
strip_tag sealed = if bytes_eq (take 16 sealed) zeros then some (drop 16 sealed) else none

abbrev pub toy : Aesgcm
toy = record { seal = λ k n text a. zeros ++ text; unseal = λ k n sealed a. strip_tag sealed }

toy_only : (sealed text : List ℕ) → strip_tag sealed ≡ some text → sealed ≡ zeros ++ text
toy_only sealed text h =
    sym (take-append-drop 16 sealed)
    ∙ ap₂ (λ xs ys. xs ++ ys) ((bytes_eq_iff (take 16 sealed) zeros).0 (ground arith))
        (ground arith)

pub toy-IsCipher : IsCipher toy
toy-IsCipher = record {
  opens = λ k n text a. refl;
  only = λ k n sealed a text h. toy_only sealed text h;
  tag = λ k n text a. omega arith;
}

abbrev nonce : List ℕ
nonce = codes "nonce-nonce!"

decrypt-encrypt_example :
    decrypt_password toy
      (encrypt_password toy nonce (codes "secret") (codes "id") key)
      (codes "id")
      key
    ≡ ok (codes "secret")
unfolding is_utf8
decrypt-encrypt_example =
    decrypt-encrypt toy toy-IsCipher nonce (codes "secret") (codes "id") key refl refl

only_sealed_example :
    (n : List ℕ) × (encrypt_password toy nonce (codes "secret") (codes "id") key
      ≡ encrypt_password toy n (codes "secret") (codes "id") key)
only_sealed_example =
    decrypt-only_sealed toy toy-IsCipher
      (encrypt_password toy nonce (codes "secret") (codes "id") key) (codes "id") key
      {password = codes "secret"} decrypt-encrypt_example
