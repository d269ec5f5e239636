-- ===== src/Telegram/Settings.antt =====
-- What saving the settings of the bot changes (camadmiral/storage.py).
use reefy_camadmiral.Prelude.{◌≡◌, refl, true, Option, none, some, List, length, ℕ}
use reefy_camadmiral.Bytes.{is_utf8}
use reefy_camadmiral.Crypto.{IsCipher, Result, ok, err}
use reefy_camadmiral.Crypto.Passwords.{decrypt-encrypt}
use reefy_camadmiral.Telegram.{
  Text, NotificationSettings, Sealing, TelegramSettings, Credentials, for_bot, for_pairing,
  as_token, opened, save_telegram_settings, notification_credentials,
}

-- The connection that the credentials show.
abbrev pub connection : Result Credentials → Option (Option Text × Option Text × Option Text)
connection (err e) = none
connection (ok c) = some (c.opened_bot_token, c.opened_pairing_token, c.row.chat_id)

opened-connection :
    (row : NotificationSettings) (a b : Result (List ℕ)) (bot pairing : Text)
    → a ≡ ok bot
    → b ≡ ok pairing
    → connection (opened row (as_token a) (as_token b)) ≡ some (some bot, some pairing, row.chat_id)
opened-connection row a b bot pairing e f = rw (e, f) refl

connection-row :
    (r q : NotificationSettings) (a b : Result (Option Text))
    → r.chat_id ≡ q.chat_id
    → connection (opened r a b) ≡ connection (opened q a b)
connection-row r q (ok bot) (ok pairing) e = rw e refl
connection-row r q (ok bot) (err x) e = refl
connection-row r q (err x) b e = refl

-- A new bot token that is saved with a pairing token is read back with it, and the chat of the bot
-- before is forgotten, with the offset of its updates; the tokens are texts, the nonces are twelve
-- bytes long, and the cipher opens what it sealed.
pub new_bot_is_unpaired :
    (s : Sealing) (new : TelegramSettings) (now : ℕ) (existing : Option NotificationSettings)
    (bot pairing : Text)
    → IsCipher s.cipher
    → length s.bot_nonce ≡ 12
    → length s.pairing_nonce ≡ 12
    → is_utf8 bot ≡ true
    → is_utf8 pairing ≡ true
    → new.bot_token ≡ some bot
    → new.pairing_token ≡ some pairing
    → (connection (notification_credentials s (save_telegram_settings s new now existing))
        ≡ some (some bot, some pairing, none))
      × ((save_telegram_settings s new now existing).update_offset ≡ none)
unfolding save_telegram_settings notification_credentials
new_bot_is_unpaired s new now existing bot pairing laws one two b p e f = (
  rw (e, f)
      (opened-connection _ _ _ bot pairing
        (decrypt-encrypt s.cipher laws s.bot_nonce bot for_bot s.master_key one b)
        (decrypt-encrypt s.cipher laws s.pairing_nonce pairing for_pairing s.master_key two p)),
  rw e refl,
)

-- Saving without a new bot token and without a pairing token changes nothing of a connection: the
-- same tokens are read back, for the same chat, and its updates go on where they stood.
pub saving_keeps_connection :
    (s : Sealing) (new : TelegramSettings) (now : ℕ) (row : NotificationSettings)
    → new.bot_token ≡ none
    → new.pairing_token ≡ none
    → (connection (notification_credentials s (save_telegram_settings s new now (some row)))
        ≡ connection (notification_credentials s row))
      × ((save_telegram_settings s new now (some row)).update_offset ≡ row.update_offset)
unfolding save_telegram_settings notification_credentials
saving_keeps_connection s new now row e f = (rw (e, f) (connection-row _ row _ _ refl), rw e refl)
