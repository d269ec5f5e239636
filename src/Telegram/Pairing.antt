-- ===== src/Telegram/Pairing.antt =====
-- Which chat a poll pairs, and where it goes on (`_poll_telegram_pairing` of camadmiral/app.py).
use reefy_camadmiral.Prelude.{
  if◌then◌else◌, ℕ, ◌≤◌, ◌≡◌, refl, Bool, false, ◌&&◌, Option, none, some, ◌∙◌, List, [], ◌∷◌, ◌==◌,
  arith, Bool-cases, inl, inr, ap,
}
use reefy_camadmiral.Bytes.{codes, bytes_eq}
use reefy_camadmiral.Telegram.{
  Text, NotificationSettings, Credentials, complete_telegram_pairing, update_telegram_offset,
}
use reefy_camadmiral.Telegram.Polling.{
  before_byte, after_byte, Chat, Message, Update, Str, is_start, destination, paired,
  pairing_message, label_of, offset_or_zero, next_offset, same_offset, finish, completed,
  read_updates, is_idle, fetched, text_or_empty, poll_telegram_pairing,
}

-- A text is the command /start, to whatever bot, and what follows its first space is the token.
unfoldable pub starts_with : Str → Text → Text → Bool
starts_with py token text =
    let stripped = py.strip text in
    bytes_eq (before_byte b'@' (before_byte b' ' stripped)) (codes "/start")
    && bytes_eq (py.strip (after_byte b' ' stripped)) token

abbrev number_of : Option Chat → Option Text
number_of none = none
number_of (some chat) = chat.id

-- The number of the chat from which the update starts the bot with the token.
unfoldable pub invited : Str → Text → Update → Option Text
invited py token update = elim update.message [
  | none ↦ none
  | some message ↦ if starts_with py token message.text then number_of message.chat else none
]

abbrev pub earlier : Option Text → Option Text → Option Text
earlier none later = later
earlier (some id) later = some id

-- The first chat that does.
unfoldable pub first_invited : Str → Text → List Update → Option Text
first_invited py token [] = none
first_invited py token (update ∷ updates) =
    earlier (invited py token update) (first_invited py token updates)

-- The destination of a row, and the token that it can be paired with.
abbrev pub link : NotificationSettings → Option Text × Option (List ℕ)
link row = (row.chat_id, row.pairing_token_ciphertext)

-- A chat becomes the destination and uses the token up; without one the row keeps both.
abbrev pub linked : Option Text → NotificationSettings → Option Text × Option (List ℕ)
linked none row = link row
linked (some id) row = (some id, none)

abbrev chat_of : Option (Text × Text) → Option Text
chat_of none = none
chat_of (some found) = some found.0

invited-pairing :
    (py : Str) (token : Text) (update : Update)
    → chat_of (pairing_message py update token) ≡ invited py token update
unfolding pairing_message invited is_start starts_with
invited-pairing py token update = go update.message
  where
    of_chat : (o : Option Chat) → chat_of (destination py o) ≡ number_of o
    of_chat none = refl
    of_chat (some chat) = of_id chat.id
      where
        of_id :
            (o : Option Text)
            → chat_of (elim o as (λ _. Option (Text × Text)) [
              | none ↦ none
              | some id ↦ some (id, label_of py chat)
            ])
              ≡ o
        of_id none = refl
        of_id (some id) = refl

    go :
        (o : Option Message)
        → chat_of (paired py o token) ≡ elim o [
          | none ↦ none
          | some message ↦
              if starts_with py token message.text then number_of message.chat else none
        ]
    go none = refl
    go (some message) = elim (Bool-cases (starts_with py token message.text)) [
      | inl e ↦ rw e (of_chat message.chat)
      | inr e ↦ rw e refl
    ]

link-finish :
    (before offset : Option ℕ) (now : ℕ) (row : NotificationSettings)
    → link (finish before offset now row) ≡ link row
unfolding update_telegram_offset
link-finish before none now row = refl
link-finish before (some n) now row = elim (Bool-cases (same_offset (some n) before)) [
  | inl e ↦ rw e refl
  | inr e ↦ rw e refl
]

link-completed :
    (now : ℕ) (found : Option (Text × Text)) (offset : Option ℕ) (row later : NotificationSettings)
    (next : Option Text)
    → link later ≡ linked next row
    → link (completed now found offset row later) ≡ linked (earlier (chat_of found) next) row
unfolding complete_telegram_pairing
link-completed now none offset row later next h = h
link-completed now (some (chat, label)) offset row later next h = refl

offset-completed :
    (now n : ℕ) (found : Option (Text × Text)) (offset : Option ℕ)
    (row later : NotificationSettings)
    → n ≤ offset_or_zero offset
    → n ≤ offset_or_zero later.update_offset
    → n ≤ offset_or_zero (completed now found offset row later).update_offset
unfolding complete_telegram_pairing
offset-completed now n none offset row later h g = g
offset-completed now n (some (chat, label)) offset row later h g = h

offset-finish :
    (before offset : Option ℕ) (now : ℕ) (row : NotificationSettings)
    → row.update_offset ≡ before
    → offset_or_zero offset ≤ offset_or_zero (finish before offset now row).update_offset
unfolding update_telegram_offset
offset-finish before none now row e = omega arith
offset-finish none (some n) now row e = omega arith
offset-finish (some m) (some n) now row e = elim (Bool-cases (n == m)) [
  | inl q ↦ rw q (rw e (ground (arith, q)))
  | inr q ↦ rw q (omega arith)
]

offset-next :
    (offset id : Option ℕ) → offset_or_zero offset ≤ offset_or_zero (next_offset offset id)
unfolding next_offset
offset-next offset none = omega arith
offset-next offset (some id) = omega arith

module _ (py : Str) (token : Text) (before : Option ℕ) (now : ℕ) where
  read-linked :
      (updates : List Update) (offset : Option ℕ) (row : NotificationSettings)
      → link (read_updates py token before now updates offset row)
        ≡ linked (first_invited py token updates) row
  unfolding read_updates first_invited
  read-linked [] offset row = link-finish before offset now row
  read-linked (update ∷ updates) offset row =
      link-completed now (pairing_message py update token) (next_offset offset update.update_id) row
        (read_updates py token before now updates (next_offset offset update.update_id) row)
        (first_invited py token updates)
        (read-linked updates (next_offset offset update.update_id) row)
      ∙ ap (λ id. linked (earlier id (first_invited py token updates)) row)
          (invited-pairing py token update)

  read-offset :
      (updates : List Update) (offset : Option ℕ) (row : NotificationSettings)
      → row.update_offset ≡ before
      → offset_or_zero offset
        ≤ offset_or_zero (read_updates py token before now updates offset row).update_offset
  unfolding read_updates
  read-offset [] offset row e = offset-finish before offset now row e
  read-offset (update ∷ updates) offset row e = omega (
    arith,
    offset-next offset update.update_id,
    offset-completed now (offset_or_zero (next_offset offset update.update_id))
        (pairing_message py update token) (next_offset offset update.update_id) row
        (read_updates py token before now updates (next_offset offset update.update_id) row)
        (omega arith) (read-offset updates (next_offset offset update.update_id) row e),
  )

-- A poll makes the first chat the destination that starts the bot with the pairing token, and the
-- token is used up; where no update of Telegram does, the destination and the token stay as they
-- are. There is a bot without a destination, a token that has not expired, and Telegram answers.
pub polled_chat :
    (py : Str) (now : ℕ) (fetch : Option ℕ → Option (List Update)) (credentials : Credentials)
    (token : Text) (updates : List Update)
    → is_idle now credentials ≡ false
    → credentials.opened_pairing_token ≡ some token
    → fetch credentials.row.update_offset ≡ some updates
    → link (poll_telegram_pairing py now fetch credentials credentials.row)
      ≡ linked (first_invited py token updates) credentials.row
unfolding poll_telegram_pairing
polled_chat py now fetch credentials token updates p o f =
    rw (p, f, o)
      (read-linked py token credentials.row.update_offset now updates credentials.row.update_offset
        credentials.row)

-- A poll never goes back: the offset from which updates are fetched only grows.
pub polled_offset :
    (py : Str) (now : ℕ) (fetch : Option ℕ → Option (List Update)) (credentials : Credentials)
    → offset_or_zero credentials.row.update_offset
      ≤ offset_or_zero
          (poll_telegram_pairing py now fetch credentials credentials.row).update_offset
unfolding poll_telegram_pairing
polled_offset py now fetch credentials = elim (Bool-cases (is_idle now credentials)) [
  | inl e ↦ rw e (omega arith)
  | inr e ↦ rw e (answered (fetch credentials.row.update_offset))
]
  where
    answered :
        (o : Option (List Update))
        → offset_or_zero credentials.row.update_offset
          ≤ offset_or_zero (fetched py now credentials o credentials.row).update_offset
    answered none = omega arith
    answered (some updates) =
        read-offset py (text_or_empty credentials.opened_pairing_token)
          credentials.row.update_offset now updates credentials.row.update_offset credentials.row
          refl
