-- ===== src/Telegram/Tests.antt =====
-- A bot, the chat that pairs with it, and a cipher that only adds a tag of zeros.
use reefy_camadmiral.Prelude.{ℕ, ◌≤◌, ◌≡◌, refl, true, false, Option, none, some, List, [], ◌∷◌}
use reefy_camadmiral.Bytes.{codes, is_utf8}
use reefy_camadmiral.Telegram.{
  NotificationSettings, Credentials, complete_telegram_pairing, Sealing, TelegramSettings,
  save_telegram_settings, notification_credentials,
}
use reefy_camadmiral.Telegram.Polling.{
  Update, Str, poll_telegram_pairing, read_updates, is_start, is_idle, offset_or_zero, next_offset,
  pairing_message, label_of,
}
use reefy_camadmiral.Crypto.Tests.{toy, toy-IsCipher}
use reefy_camadmiral.Telegram.Settings.{connection, new_bot_is_unpaired, saving_keeps_connection}
use reefy_camadmiral.Telegram.Pairing.{link, linked, first_invited, polled_chat, polled_offset}

abbrev row : NotificationSettings
row = record {
  enabled = true;
  bot_token_ciphertext = some [];
  bot_id = none;
  bot_username = none;
  chat_id = none;
  chat_label = none;
  pairing_token_ciphertext = some [];
  pairing_expires_at = some 900;
  update_offset = some 5;
  created_at = 1;
  updated_at = 1;
}

abbrev credentials : Credentials
credentials = record {
  row = row;
  opened_bot_token = some (codes "bot");
  opened_pairing_token = some (codes "t0k");
}

abbrev py : Str
py = record { strip = λ s. s; cut = λ s. s }

abbrev from_chat : ℕ → List ℕ → Update
from_chat id text = record {
  update_id = some id;
  message = some (record {
    text = text;
    chat = some (record {
      id = some (codes "77");
      title = [];
      first_name = codes "Ada";
      last_name = codes "L";
      username = [];
    });
  });
}

abbrev updates : List Update
updates = from_chat 6 (codes "/start") ∷ from_chat 8 (codes "/start@cam t0k") ∷ []

abbrev fetch : Option ℕ → Option (List Update)
fetch offset = some updates

-- The message with the token pairs, and its update is behind.
polled_run : poll_telegram_pairing py 800 fetch credentials row ≡ record row {
  chat_id = some (codes "77");
  chat_label = some (codes "Ada L");
  pairing_token_ciphertext = none;
  pairing_expires_at = none;
  update_offset = some 9;
  updated_at = 800;
}
unfolding poll_telegram_pairing is_idle read_updates pairing_message is_start next_offset label_of
    complete_telegram_pairing
polled_run = refl

polled_chat_example :
    link (poll_telegram_pairing py 800 fetch credentials row)
    ≡ linked (first_invited py (codes "t0k") updates) row
unfolding is_idle
polled_chat_example = polled_chat py 800 fetch credentials (codes "t0k") updates refl refl refl

polled_offset_example :
    offset_or_zero row.update_offset
    ≤ offset_or_zero (poll_telegram_pairing py 800 fetch credentials row).update_offset
polled_offset_example = polled_offset py 800 fetch credentials

abbrev sealing : Sealing
sealing = record {
  cipher = toy;
  master_key = codes "key";
  bot_nonce = codes "twelve bytes";
  pairing_nonce = codes "other twelve";
}

abbrev new_bot : TelegramSettings
new_bot = record {
  enable = true;
  bot_token = some (codes "bot2");
  new_bot_id = some (codes "2");
  new_bot_username = some (codes "cam2");
  pairing_token = some (codes "t1k");
  new_pairing_expires_at = some 1900;
}

abbrev paired_row : NotificationSettings
paired_row = record row { chat_id = some (codes "77"); bot_token_ciphertext = none }

new_bot_example :
    (connection (
        notification_credentials sealing
          (save_telegram_settings sealing new_bot 1000 (some paired_row)))
      ≡ some (some (codes "bot2"), some (codes "t1k"), none))
    × ((save_telegram_settings sealing new_bot 1000 (some paired_row)).update_offset ≡ none)
unfolding is_utf8
new_bot_example =
    new_bot_is_unpaired sealing new_bot 1000 (some paired_row) (codes "bot2") (codes "t1k")
      toy-IsCipher refl refl refl refl refl refl

abbrev switch_off : TelegramSettings
switch_off = record new_bot { enable = false; bot_token = none; pairing_token = none }

saved_example :
    (connection (
        notification_credentials sealing
          (save_telegram_settings sealing switch_off 1000 (some paired_row)))
      ≡ connection (notification_credentials sealing paired_row))
    × ((save_telegram_settings sealing switch_off 1000 (some paired_row)).update_offset
        ≡ paired_row.update_offset)
saved_example = saving_keeps_connection sealing switch_off 1000 paired_row refl refl
