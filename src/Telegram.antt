-- ===== src/Telegram.antt =====
-- The connection with a Telegram bot: the settings of notifications in camadmiral/storage.py. A text
-- is its UTF-8 bytes, and times are numbers.
pub mod Polling
pub mod Pairing
pub mod Settings
mod Tests
use reefy_camadmiral.Prelude.{
  ℕ, zero, suc, ◌+◌, ◌≤◌, max, Bool, true, false, not, ◌&&◌, ◌||◌, Option, none, some, List, [],
  ◌∷◌, ◌++◌, ◌==◌, leb, if◌then◌else◌,
}
use reefy_camadmiral.Bytes.{codes, bytes_eq}
use reefy_camadmiral.Crypto.{Aesgcm, Result, ok, err, encrypt_password, decrypt_password}

abbrev pub Text : Type 0
Text = List ℕ

-- The row of `notification_settings`.
pub record NotificationSettings : Type 0 where
  pub enabled : Bool
  pub bot_token_ciphertext : Option (List ℕ)
  pub bot_id : Option Text
  pub bot_username : Option Text
  pub chat_id : Option Text
  pub chat_label : Option Text
  pub pairing_token_ciphertext : Option (List ℕ)
  pub pairing_expires_at : Option ℕ
  pub update_offset : Option ℕ
  pub created_at : ℕ
  pub updated_at : ℕ

-- The cipher, the master key and what `os.urandom(12)` returns for either token.
pub record Sealing : Type 0 where
  pub cipher : Aesgcm
  pub master_key : List ℕ
  pub bot_nonce : List ℕ
  pub pairing_nonce : List ℕ

abbrev pub for_bot : Text
for_bot = codes "notification-telegram-bot"

abbrev pub for_pairing : Text
for_pairing = codes "notification-telegram-pairing"

-- The arguments of `save_telegram_settings`.
pub record TelegramSettings : Type 0 where
  pub enable : Bool
  pub bot_token : Option Text
  pub new_bot_id : Option Text
  pub new_bot_username : Option Text
  pub pairing_token : Option Text
  pub new_pairing_expires_at : Option ℕ

-- What is kept of the row that exists, where no token replaces it.
abbrev kept {ℓ} :
    {A : Type ℓ} → (NotificationSettings → Option A) → Option NotificationSettings → Option A
kept field none = none
kept field (some existing) = field existing

abbrev created : ℕ → Option NotificationSettings → ℕ
created now none = now
created now (some existing) = existing.created_at

abbrev sealed : Sealing → List ℕ → Text → Text → List ℕ
sealed s nonce uuid token = encrypt_password s.cipher nonce token uuid s.master_key

abbrev either {ℓ κ} : {A : Type ℓ} {B : Type κ} → Option A → B → B → B
either none given missing = missing
either (some _) given missing = given

unfoldable pub save_telegram_settings :
    Sealing → TelegramSettings → ℕ → Option NotificationSettings → NotificationSettings
save_telegram_settings s new now existing = record {
  enabled = new.enable;
  bot_token_ciphertext = elim new.bot_token [
    | none ↦ kept (λ row. row.bot_token_ciphertext) existing
    | some token ↦ some (sealed s s.bot_nonce for_bot token)
  ];
  bot_id = either new.bot_token new.new_bot_id (kept (λ row. row.bot_id) existing);
  bot_username =
      either new.bot_token new.new_bot_username (kept (λ row. row.bot_username) existing);
  chat_id = either new.bot_token none (kept (λ row. row.chat_id) existing);
  chat_label = either new.bot_token none (kept (λ row. row.chat_label) existing);
  pairing_token_ciphertext = elim new.pairing_token [
    | none ↦ kept (λ row. row.pairing_token_ciphertext) existing
    | some token ↦ some (sealed s s.pairing_nonce for_pairing token)
  ];
  pairing_expires_at =
      either new.pairing_token new.new_pairing_expires_at
        (kept (λ row. row.pairing_expires_at) existing);
  update_offset = either new.bot_token none (kept (λ row. row.update_offset) existing);
  created_at = created now existing;
  updated_at = now;
}

-- `notification_credentials`: the row with its tokens opened
pub record Credentials : Type 0 where
  pub row : NotificationSettings
  pub opened_bot_token : Option Text
  pub opened_pairing_token : Option Text

abbrev pub as_token : Result (List ℕ) → Result (Option Text)
as_token (ok token) = ok (some token)
as_token (err e) = err e

abbrev pub open_token : Sealing → Text → Option (List ℕ) → Result (Option Text)
open_token s uuid none = ok none
open_token s uuid (some payload) = as_token (decrypt_password s.cipher payload uuid s.master_key)

abbrev pub opened :
    NotificationSettings → Result (Option Text) → Result (Option Text) → Result Credentials
opened row (ok bot) (ok pairing) =
    ok (record { row = row; opened_bot_token = bot; opened_pairing_token = pairing })
opened row (ok bot) (err e) = err e
opened row (err e) pairing = err e

unfoldable pub notification_credentials : Sealing → NotificationSettings → Result Credentials
notification_credentials s row =
    opened row (open_token s for_bot row.bot_token_ciphertext)
      (open_token s for_pairing row.pairing_token_ciphertext)

unfoldable pub complete_telegram_pairing :
    Text → Text → ℕ → ℕ → NotificationSettings → NotificationSettings
complete_telegram_pairing chat label offset now row = record row {
  chat_id = some chat;
  chat_label = some label;
  pairing_token_ciphertext = none;
  pairing_expires_at = none;
  update_offset = some offset;
  updated_at = now;
}

unfoldable pub update_telegram_offset : ℕ → ℕ → NotificationSettings → NotificationSettings
update_telegram_offset offset now row = record row { update_offset = some offset; updated_at = now }
