-- ===== src/Telegram/Polling.antt =====
-- `pairing_message` of camadmiral/notifications.py and `_poll_telegram_pairing` of
-- camadmiral/app.py: how a chat comes to be the destination of the notifications.
use reefy_camadmiral.Prelude.{
  ℕ, ◌+◌, max, Bool, true, false, not, ◌&&◌, ◌||◌, Option, none, some, List, [], ◌∷◌, ◌++◌, ◌==◌,
  leb, if◌then◌else◌,
}
use reefy_camadmiral.Bytes.{codes, bytes_eq}
use reefy_camadmiral.Telegram.{
  Text, NotificationSettings, Credentials, complete_telegram_pairing, update_telegram_offset,
}

-- `message["chat"]`: `str(chat["id"])` where it is not null, and its names, empty where falsy.
pub record Chat : Type 0 where
  pub id : Option Text
  pub title : Text
  pub first_name : Text
  pub last_name : Text
  pub username : Text

-- `message`: its `str(text or "")`, and its chat where that is an object
pub record Message : Type 0 where
  pub text : Text
  pub chat : Option Chat

-- An update of Telegram: its number where that is an integer, its message where that is an object.
pub record Update : Type 0 where
  pub update_id : Option ℕ
  pub message : Option Message

-- What the code takes from Python's str: `s.strip()` and `s[:160]`.
pub record Str : Type 0 where
  pub strip : Text → Text
  pub cut : Text → Text

-- `s.partition(c)`, without the separator
abbrev pub before_byte : ℕ → Text → Text
before_byte c [] = []
before_byte c (x ∷ xs) = let rest = before_byte c xs in if x == c then [] else x ∷ rest

abbrev pub after_byte : ℕ → Text → Text
after_byte c [] = []
after_byte c (x ∷ xs) = let rest = after_byte c xs in if x == c then xs else rest

abbrev is_empty : Text → Bool
is_empty [] = true
is_empty (x ∷ xs) = false

-- `a or b`
abbrev or_text : Text → Text → Text
or_text a b = if is_empty a then b else a

abbrev joined : Text → Text → Text
joined [] b = b
joined (x ∷ a) [] = x ∷ a
joined (x ∷ a) (y ∷ b) = x ∷ (a ++ b' ' ∷ y ∷ b)

unfoldable pub label_of : Str → Chat → Text
label_of py chat = py.cut (
    or_text chat.title (
      or_text (joined chat.first_name chat.last_name)
        (or_text chat.username (codes "Telegram chat"))))

-- The command, without the name of the bot, and what it is supplied with.
unfoldable pub is_start : Str → Message → Text → Bool
is_start py message pairing_token =
    let stripped = py.strip message.text in
    bytes_eq (before_byte b'@' (before_byte b' ' stripped)) (codes "/start")
    && bytes_eq (py.strip (after_byte b' ' stripped)) pairing_token

abbrev pub destination : Str → Option Chat → Option (Text × Text)
destination py none = none
destination py (some chat) = elim chat.id [ none ↦ none | some id ↦ some (id, label_of py chat) ]

abbrev pub paired : Str → Option Message → Text → Option (Text × Text)
paired py none pairing_token = none
paired py (some message) pairing_token =
    if is_start py message pairing_token then destination py message.chat else none

unfoldable pub pairing_message : Str → Update → Text → Option (Text × Text)
pairing_message py update pairing_token = paired py update.message pairing_token

-- `int(next_offset or 0)`
abbrev pub offset_or_zero : Option ℕ → ℕ
offset_or_zero none = 0
offset_or_zero (some n) = n

unfoldable pub next_offset : Option ℕ → Option ℕ → Option ℕ
next_offset offset none = offset
next_offset offset (some id) = some (max (offset_or_zero offset) (id + 1))

abbrev pub same_offset : Option ℕ → Option ℕ → Bool
same_offset none none = true
same_offset (some a) (some b) = a == b
same_offset _ _ = false

-- After the loop: the offset is written where it changed.
abbrev pub finish : Option ℕ → Option ℕ → ℕ → NotificationSettings → NotificationSettings
finish before none now row = row
finish before (some n) now row =
    if same_offset (some n) before then row else update_telegram_offset n now row

-- The loop ends with the first update that pairs.
abbrev pub completed :
    ℕ
    → Option (Text × Text)
    → Option ℕ
    → NotificationSettings
    → NotificationSettings
    → NotificationSettings
completed now none offset row later = later
completed now (some (chat, label)) offset row later =
    complete_telegram_pairing chat label (offset_or_zero offset) now row

unfoldable pub read_updates :
    Str → Text → Option ℕ → ℕ → List Update → Option ℕ → NotificationSettings → NotificationSettings
read_updates py token before now [] offset row = finish before offset now row
read_updates py token before now (update ∷ updates) offset row =
    completed now (pairing_message py update token) (next_offset offset update.update_id) row
      (read_updates py token before now updates (next_offset offset update.update_id) row)

abbrev pub is_expired : ℕ → Option ℕ → Bool
is_expired now none = true
is_expired now (some at) = leb at now

abbrev pub is_text : Option Text → Bool
is_text none = false
is_text (some t) = not (is_empty t)

abbrev pub text_or_empty : Option Text → Text
text_or_empty none = []
text_or_empty (some t) = t

-- Nothing is polled: there is no bot, no token to pair with, a chat already, or the time is over.
unfoldable pub is_idle : ℕ → Credentials → Bool
is_idle now credentials =
    not (is_text credentials.opened_bot_token)
    || not (is_text credentials.opened_pairing_token)
    || is_text credentials.row.chat_id
    || is_expired now credentials.row.pairing_expires_at

-- A TelegramError leaves the row as it is.
abbrev pub fetched :
    Str → ℕ → Credentials → Option (List Update) → NotificationSettings → NotificationSettings
fetched py now credentials none row = row
fetched py now credentials (some updates) row =
    read_updates py (text_or_empty credentials.opened_pairing_token) credentials.row.update_offset
      now updates credentials.row.update_offset row

-- The updates are what Telegram answers for the offset.
unfoldable pub poll_telegram_pairing :
    Str
    → ℕ
    → (Option ℕ → Option (List Update))
    → Credentials
    → NotificationSettings
    → NotificationSettings
poll_telegram_pairing py now fetch credentials row =
    if is_idle now credentials
    then row
    else fetched py now credentials (fetch credentials.row.update_offset) row
