-- ===== src/Repository/Outbox.antt =====
-- The delivery of queued notifications: `due_notifications`, `complete_notification_delivery`,
-- `fail_notification_delivery` and `set_camera_notifications_silenced` of camadmiral/storage.py.
pub mod Delivery
use reefy_camadmiral.Prelude.{
  ℕ, zero, suc, ◌+◌, ◌-◌, ◌*◌, ◌^◌, ◌≤◌, ◌<◌, ◌≡◌, ◌≢◌, refl, sym, ◌∙◌, ap, min, max, String, Bool,
  true, false, not, ◌&&◌, ◌||◌, Option, none, some, List, [], ◌∷◌, ◌++◌, arith, any, keep, find_row,
  update_rows, All, length, leb, ltb, ◌==◌, if◌then◌else◌, inl, inr, Bool-cases, Option-cases,
  ==_iff,
}
use reefy_camadmiral.Repository.{
  OutboxStatus, pending, retry, sent, failed, OutboxItem, Camera, Incident, Database,
}
use reefy_camadmiral.Repository.Incidents.{find_incident}
use reefy_camadmiral.Repository.Health.{find_camera}

-- `status IN ('pending', 'retry')`
abbrev pub is_waiting : OutboxStatus → Bool
is_waiting pending = true
is_waiting retry = true
is_waiting _ = false

abbrev pub is_due : ℕ → OutboxItem → Bool
is_due now item = is_waiting item.status && leb item.next_attempt_at now

-- `ORDER BY created_at`, items of one time in the order of insertion
unfoldable pub insert_by_created : OutboxItem → List OutboxItem → List OutboxItem
insert_by_created item [] = item ∷ []
insert_by_created item (x ∷ xs) =
    if leb item.created_at x.created_at then item ∷ x ∷ xs else x ∷ insert_by_created item xs

unfoldable pub order_by_created : List OutboxItem → List OutboxItem
unfolding insert_by_created
order_by_created [] = []
order_by_created (item ∷ items) = insert_by_created item (order_by_created items)

abbrev pub take : ℕ → List OutboxItem → List OutboxItem
take zero xs = []
take (suc n) [] = []
take (suc n) (x ∷ xs) = x ∷ take n xs

unfoldable pub due_notifications : Database → ℕ → ℕ → List OutboxItem
unfolding order_by_created
due_notifications db limit now =
    take (max 1 (min 100 limit)) (order_by_created (keep (is_due now) db.outbox))

abbrev pub is_item : ℕ → OutboxItem → Bool
is_item uuid item = item.outbox_uuid == uuid

unfoldable pub deliver : String → ℕ → OutboxItem → OutboxItem
deliver message now item = record item {
  status = sent;
  attempt_count = item.attempt_count + 1;
  provider_message_id = some message;
  last_error_code = none;
  sent_at = some now;
}

unfoldable pub complete_notification_delivery : Database → ℕ → String → ℕ → Database
unfolding deliver
complete_notification_delivery db uuid message now = record db {
  outbox = update_rows (is_item uuid) (deliver message now) db.outbox;
}

-- `min(3600, 30 * (2 ** max(0, attempts - 1)))`
unfoldable pub exponential : ℕ → ℕ
exponential attempts = min 3600 (30 * 2 ^ (attempts - 1))

-- `retry_after_seconds or …`: zero counts as absent
unfoldable pub delay : Option ℕ → ℕ → ℕ
unfolding exponential
delay none attempts = exponential attempts
delay (some zero) attempts = exponential attempts
delay (some (suc n)) attempts = suc n

abbrev may_retry : Option ℕ → ℕ → Bool
may_retry none attempts = false
may_retry (some _) attempts = ltb attempts 8

-- The row that is found and the row that is updated are the same one: `outbox_uuid` is the key.
unfoldable pub refuse : String → Option ℕ → ℕ → OutboxItem → OutboxItem
unfolding delay
refuse code retry_after now item =
    let attempts = item.attempt_count + 1 in
    record item {
      status = if may_retry retry_after attempts then retry else failed;
      attempt_count = attempts;
      next_attempt_at = now + delay retry_after attempts;
      last_error_code = some code;
    }

unfoldable pub fail_notification_delivery : Database → ℕ → String → Option ℕ → ℕ → Database
unfolding refuse
fail_notification_delivery db uuid code retry_after now = record db {
  outbox = update_rows (is_item uuid) (refuse code retry_after now) db.outbox;
}

-- `incident_uuid IN (SELECT incident_uuid FROM camera_incidents WHERE camera_uuid = ?)`
abbrev concerns_incident : List Incident → ℕ → Option ℕ → Bool
concerns_incident incidents camera none = false
concerns_incident incidents camera (some uuid) =
    any (λ i. i.incident_uuid == uuid && i.incident_camera == camera) incidents

abbrev pub concerns : List Incident → ℕ → OutboxItem → Bool
concerns incidents camera item = concerns_incident incidents camera item.item_incident

abbrev silence_rows : Database → ℕ → Bool → Database
silence_rows db camera silenced = record db {
  cameras =
      update_rows (λ c. c.camera_uuid == camera)
        (λ c. record c { notifications_silenced = silenced }) db.cameras;
}

abbrev drop_queued : Database → ℕ → Database
drop_queued db camera = record db {
  outbox =
      keep (λ item. not (is_waiting item.status && concerns db.incidents camera item)) db.outbox;
}

abbrev silence_found : Database → ℕ → Bool → Option Camera → Database × Bool
silence_found db camera silenced none = (db, false)
silence_found db camera silenced (some _) = (
  if silenced
      then drop_queued (silence_rows db camera silenced) camera
      else silence_rows db camera silenced,
  true,
)

unfoldable pub set_camera_notifications_silenced : Database → ℕ → Bool → Database × Bool
set_camera_notifications_silenced db camera silenced =
    silence_found db camera silenced (find_camera db camera)
