-- ===== src/Notify/Delivery.antt =====
-- The delivery of notifications in backend/app/modules/notify/service.py: `_send_sms`, `_devices_for`,
-- `_send_push`, `deliver_pending` and `record_delivery`. A provider is a function on a state of its
-- own that answers what it took or why it failed; a call that succeeds comes with the reading of the
-- clock after it. Rows that are passed on together are different rows.
pub mod Settled
use Prim.Native.String.{String, slice, ◌++◌ as append}
use package.text.Mathlib.Text.{◌==◌ as str_eq}
use poctamat_back.Common.{
  ℕ, Bool, true, false, not, ◌&&◌, Option, none, some, is_some, List, [], ◌∷◌, ◌++◌, select, first,
  ◌==◌, if◌then◌else◌, map, put,
}
use poctamat_back.Notify.{Notification, NotificationChannel, sms, push}
use poctamat_back.Identity.PushTokens.{PushToken}

-- A row of the notifications, with what the delivery writes.
pub record Row : Type 0 where
  pub id : ℕ
  pub notice : Notification
  pub title : String
  pub body : String
  pub sent_at : Option ℕ
  pub error : Option String
  pub provider_message_id : Option String
  pub delivered_at : Option ℕ
  pub delivery_status : Option String

-- A call of the push provider.
pub data Attempt : Type 0 where
  took : ℕ → Attempt
  failed : String → Attempt

-- A call of the SMS provider, which answers the id of the message.
pub data Texted : Type 0 where
  accepted : String → ℕ → Texted
  rejected : String → Texted

abbrev pub is_push : NotificationChannel → Bool
is_push push = true
is_push _ = false

abbrev pub is_sms : NotificationChannel → Bool
is_sms sms = true
is_sms _ = false

abbrev pub texted : Row → Texted → Row
texted row (accepted id now) = record row { provider_message_id = some id; sent_at = some now }
texted row (rejected why) = record row { error = some (slice why 0 500) }

-- The active tokens of one client, in the order of the table.
abbrev pub is_active_for : ℕ → PushToken → Bool
is_active_for client_id t = t.client_id == client_id && not (is_some t.revoked_at)

unfoldable pub devices_for : Option ℕ → List PushToken → List PushToken
devices_for none tokens = []
devices_for (some client_id) tokens = select (is_active_for client_id) tokens

-- `"; ".join(errors)`
abbrev pub join : List String → String
join [] = ""
join (e ∷ []) = e
join (e ∷ f ∷ errors) = append e (append "; " (join (f ∷ errors)))

-- One device: the row is stamped, or the error kept.
abbrev pub attempted : Row → List String → Attempt → Row × List String
attempted row errors (took now) = (record row { sent_at = some now }, errors)
attempted row errors (failed why) = (row, errors ++ slice why 0 200 ∷ [])

-- An error is stored only if no device was reached.
abbrev pub with_errors : Row × List String → Row
with_errors (row, []) = row
with_errors (row, e ∷ errors) =
    if is_some row.sent_at
    then row
    else record row { error = some (slice (join (e ∷ errors)) 0 500) }

abbrev pub is_pending : Row → Bool
is_pending row =
    is_push row.notice.channel && (not (is_some row.sent_at) && not (is_some row.error))

module _ {W : Type 0} (text : String → String → W → W × Texted) where
  abbrev pub send_text : Row → String → Option String → W → W × Row
  send_text row message none w = (w, record row { error = some "no phone number" })
  send_text row message (some phone) w =
      let (w', answer) = text phone message w in
      if str_eq phone ""
      then (w, record row { error = some "no phone number" })
      else (w', texted row answer)

  -- `_send_sms`.
  unfoldable pub send_sms : Row → String → W → W × Row
  send_sms row message w = send_text row message row.notice.phone w

abbrev pub mark_failed : String → Row → Row
mark_failed message row =
    if is_pending row then record row { error = some (slice message 0 500) } else row

-- What the query of the tokens answers: the rows, or the text of an exception.
pub data Lookup : Type 0 where
  found : List PushToken → Lookup
  broken : String → Lookup

module _ {W : Type 0} (send : String → String → String → W → W × Attempt) where
  unfoldable pub send_each : List PushToken → Row → List String → W → W × Row × List String
  send_each [] row errors w = (w, row, errors)
  send_each (device ∷ devices) row errors w =
      let (w', answer) = send device.token row.title row.body w in
      let (row', errors') = attempted row errors answer in send_each devices row' errors' w'

  abbrev pub send_all : Row → List PushToken → W → W × Row
  send_all row [] w = (w, record row { error = some "no push tokens" })
  send_all row (device ∷ devices) w =
      let (w', sent, errors) = send_each (device ∷ devices) row [] w in
      (w', with_errors (sent, errors))

  abbrev pub send_to : Row → Option ℕ → List PushToken → W → W × Row
  send_to row none devices w = (w, record row { error = some "no client" })
  send_to row (some client_id) devices w = send_all row devices w

  -- `_send_push`.
  unfoldable pub send_push : Row → List PushToken → W → W × Row
  send_push row devices w = send_to row row.notice.client_id devices w

  -- The last loop of `deliver_pending`, on all rows: one that is not pending is passed over.
  unfoldable pub push_each : List PushToken → List Row → W → W × List Row
  push_each tokens [] w = (w, [])
  push_each tokens (row ∷ rows) w =
      let (w', row') = send_push row (devices_for row.notice.client_id tokens) w in
      let (w₁, sent) = push_each tokens rows w' in
      let (w₂, rest) = push_each tokens rows w in
      if is_pending row then (w₁, row' ∷ sent) else (w₂, row ∷ rest)

  abbrev pub deliver_found : Lookup → List Row → W → W × List Row
  deliver_found (found tokens) rows w = push_each tokens rows w
  deliver_found (broken message) rows w = (w, map (mark_failed message) rows)

  -- `deliver_pending`.
  unfoldable pub deliver_pending : Lookup → List Row → W → W × List Row
  deliver_pending lookup rows w = deliver_found lookup rows w

-- A delivery report of the SMS gateway.
pub record DeliveryEvent : Type 0 where
  pub provider_message_id : String
  pub delivered : Bool
  pub status : String
  pub error : Option String

abbrev pub has_message_id : String → Option String → Bool
has_message_id id none = false
has_message_id id (some mine) = str_eq mine id

abbrev pub is_reported : String → Row → Bool
is_reported id row = has_message_id id row.provider_message_id && is_sms row.notice.channel

abbrev pub with_problem : Option String → Row → Row
with_problem none row = row
with_problem (some why) row =
    if str_eq why "" then row else record row { error = some (slice why 0 500) }

abbrev pub reported : DeliveryEvent → ℕ → Row → Row
reported event now row =
    let marked = record row { delivery_status = some (slice event.status 0 16) } in
    if event.delivered
    then record marked { delivered_at = some now }
    else with_problem event.error marked

abbrev pub write_report : DeliveryEvent → ℕ → List Row → Option Row → List Row
write_report event now rows none = rows
write_report event now rows (some row) = put (λ (r : Row). r.id) (reported event now row) rows

-- `record_delivery`.
unfoldable pub record_delivery : DeliveryEvent → ℕ → List Row → List Row
record_delivery event now rows =
    write_report event now rows (first (is_reported event.provider_message_id) rows)
