-- ===== src/Mobile/Codes.antt =====
-- The rotation of the two codes and the transfer of the pickup, with the cooling-off window between
-- two rotations: backend/app/api/mobile/bookings.py.
pub mod Reissue
use Prim.Native.String.{String}
use package.text.Mathlib.Text.{◌==◌ as str_eq}
use poctamat_back.Common.{
  ℕ, Bool, true, false, not, ◌&&◌, Option, none, some, List, [], ◌∷◌, first, ◌==◌, if◌then◌else◌,
  or_text, is_some, get, Result, ok, err, ◌>>=◌, ◌>>◌, raise, raise_if, or_raise, not_found,
  profile_incomplete, recipient_phone_same_as_sender, postamat_blocked, duration_not_supported,
  booking_already_cancelled, booking_not_cancellable, grant_already_used, grant_expired,
  code_resend_too_soon, pickup_code_not_issued_yet, transfer_not_allowed, transfer_phone_same,
}
use poctamat_back.Settings.{Settings}
use poctamat_back.Catalog.{PostamatStatus, Postamat, Tariff}
use poctamat_back.Catalog.Cells.{cell_number}
use poctamat_back.Booking.{
  BookingStatus, pending_payment, awaiting_deposit, Depositor, CodePurpose, deposit, pickup, Step,
  actor_only, Booking,
}
use poctamat_back.Booking.Machine.{same_status}
use poctamat_back.Booking.Codes.{code_expiry, issue_code}
use poctamat_back.Booking.Service.{record_event, extend_hold, cancel}
use poctamat_back.Allocation.{Request, create_booking}
use poctamat_back.Notify.{Notification, NotificationKind, sms, add_notice}
use poctamat_back.Payments.Service.{save_booking}
use poctamat_back.KeyValue.{
  Key, code_resend, text, Fields, has_value, KeyValueStore, put_value, get_value,
}
use poctamat_back.Identity.{Client}
use poctamat_back.Store.{Store, booking_key}
use poctamat_back.Mobile.{
  Desk, is_cancellable, is_text, profile_complete, own_booking, kind_of, code_sms, send_code,
  cancel_booking, extend_own_hold,
}

-- `if payload and payload.phone:` of the rotation.
abbrev pub with_courier : Option String → Booking → Booking
with_courier none b = b
with_courier (some phone) b =
    if str_eq phone ""
    then b
    else record b { courier_phone = some phone; depositor = Depositor.courier }

pub record CodeIssued : Type 0 where
  pub code : String
  pub expires_at : ℕ
  pub resend_after : ℕ

-- `_guard_resend`.
unfoldable pub guard_resend :
    Settings → ℕ → ℕ → ℕ → CodePurpose → KeyValueStore → KeyValueStore × Result ℕ
guard_resend s now put_at booking_id purpose kv =
    let (kv', sent) = get_value now (code_resend booking_id purpose) kv in
    if has_value sent then (kv', raise code_resend_too_soon 429) else (
      put_value put_at (code_resend booking_id purpose) (("sent", text "1") ∷ [])
          s.code_resend_seconds kv',
      ok s.code_resend_seconds,
    )

-- What the two rotations refuse before the cooling-off window is looked at.
abbrev pub deposit_open : Client → ℕ → List Booking → Result Booking
deposit_open client booking_id bookings = do
  b ← own_booking client booking_id bookings
  raise_if (is_some b.deposited_at) grant_already_used 409
  raise_if (not (is_cancellable b.status)) grant_expired 409
  ok b

abbrev pub pickup_open : Client → ℕ → List Booking → Result Booking
pickup_open client booking_id bookings = do
  b ← own_booking client booking_id bookings
  raise_if (not (is_some b.pickup_code_sent_at)) pickup_code_not_issued_yet 409
  raise_if (is_some b.collected_at) grant_already_used 409
  ok b

module _ (hash_pin : String → String) (s : Settings) where
  -- The booking with a fresh deposit code; `now` is read for the end of the code.
  abbrev pub deposit_reissued : ℕ → Option String → String → Booking → Booking
  deposit_reissued now phone code b =
      record_event (issue_code hash_pin s (with_courier phone b) deposit code now) b.status
        "PIN для закладки выпущен заново" none none

  -- With a fresh pickup code, issued at `now` and sent at `sent`.
  abbrev pub pickup_issued : ℕ → ℕ → String → Booking → Booking
  pickup_issued now sent code b = record (issue_code hash_pin s b pickup code now) {
    pickup_code_sent_at = some sent;
  }

  abbrev pub pickup_reissued : ℕ → ℕ → String → Booking → Booking
  pickup_reissued now sent code b =
      record_event (pickup_issued now sent code b) b.status "PIN для получения выпущен заново" none
        (some Step.pickup_code_sent)

  abbrev pub transferred : ℕ → ℕ → String → Option String → String → Booking → Booking
  transferred now sent phone name code b =
      record_event
        (pickup_issued now sent code (record b { recipient_phone = phone; recipient_name = name }))
        b.status "Право получения передано" (some (actor_only "client")) none

  -- The end of a rotation, when the guard has answered: the changed booking is written back and the
  -- code goes to `phone`.
  abbrev pub answer_rotation :
      Desk
      → Booking
      → CodePurpose
      → String
      → String
      → ℕ
      → KeyValueStore × Result ℕ
      → Desk × Result CodeIssued
  answer_rotation desk b' purpose phone code answered (kv, err problem) =
      (record desk { kv = kv }, err problem)
  answer_rotation desk b' purpose phone code answered (kv, ok resend_after) = (
    record desk { kv = kv; store = send_code b' purpose phone (save_booking b' desk.store) },
    ok (record {
      code = code;
      expires_at = code_expiry s b' purpose answered;
      resend_after = resend_after;
    }),
  )

  abbrev pub rotate_deposit :
      ℕ
      → ℕ
      → ℕ
      → ℕ
      → Client
      → Option String
      → String
      → Desk
      → Result Booking
      → Desk × Result CodeIssued
  rotate_deposit kv_now kv_put now answered client phone code desk (err problem) =
      (desk, err problem)
  rotate_deposit kv_now kv_put now answered client phone code desk (ok b) =
      let b' = deposit_reissued now phone code b in
      answer_rotation desk b' deposit (or_text b'.courier_phone client.phone) code answered
        (guard_resend s kv_now kv_put b.id deposit desk.kv)

  unfoldable pub rotate_deposit_code :
      ℕ → ℕ → ℕ → ℕ → Client → ℕ → Option String → String → Desk → Desk × Result CodeIssued
  rotate_deposit_code kv_now kv_put now answered client booking_id phone code desk =
      rotate_deposit kv_now kv_put now answered client phone code desk
        (deposit_open client booking_id desk.store.bookings)

  abbrev pub rotate_pickup :
      ℕ → ℕ → ℕ → ℕ → ℕ → String → Desk → Result Booking → Desk × Result CodeIssued
  rotate_pickup kv_now kv_put now sent answered code desk (err problem) = (desk, err problem)
  rotate_pickup kv_now kv_put now sent answered code desk (ok b) =
      let b' = pickup_reissued now sent code b in
      answer_rotation desk b' pickup b'.recipient_phone code answered
        (guard_resend s kv_now kv_put b.id pickup desk.kv)

  unfoldable pub rotate_pickup_code :
      ℕ → ℕ → ℕ → ℕ → ℕ → Client → ℕ → String → Desk → Desk × Result CodeIssued
  rotate_pickup_code kv_now kv_put now sent answered client booking_id code desk =
      rotate_pickup kv_now kv_put now sent answered code desk
        (pickup_open client booking_id desk.store.bookings)

  unfoldable pub transfer_pickup :
      ℕ → ℕ → Client → ℕ → String → Option String → String → Store → Result Store
  transfer_pickup now sent client booking_id new_phone new_name code st = do
    b ← own_booking client booking_id st.bookings
    raise_if (is_some b.collected_at) transfer_not_allowed 409
    raise_if (not (is_some b.pickup_code_sent_at)) pickup_code_not_issued_yet 409
    raise_if (str_eq new_phone b.recipient_phone) transfer_phone_same 422
    let b' = transferred now sent new_phone new_name code b
    ok (send_code b' pickup b'.recipient_phone (save_booking b' st))
