-- ===== src/Workers/Overdue.antt =====
-- backend/app/workers/overdue.py: parcels walk through the late stages. `client_id` is never null in
-- a booking, so the tests of it are left out.
pub mod Deadlines
pub mod Runs
pub mod Patience
pub mod Progress
use Prim.Native.String.{String}
use poctamat_back.Common.{
  ℕ, ◌+◌, ◌*◌, Bool, true, false, ◌&&◌, Option, none, some, List, [], ◌∷◌, ◌++◌, leb, ◌==◌, select,
  is_some, get, put, Result, ok, err, ◌>>=◌, if◌then◌else◌,
}
use poctamat_back.Settings.{Settings, hours}
use poctamat_back.Catalog.{Postamat, Cell}
use poctamat_back.Catalog.Opening.{is_open_at, next_opening_after}
use poctamat_back.Catalog.Cells.{cell_number}
use poctamat_back.Booking.{BookingStatus, awaiting_pickup, grace, overdue, Booking}
use poctamat_back.Booking.Machine.{has_status}
use poctamat_back.Booking.Service.{expire, to_grace, to_overdue, flag_removal}
use poctamat_back.Notify.{
  Notification, NotificationKind, booking_expired, booking_expiring, booking_overdue, in_app, push,
  add_notice,
}
use poctamat_back.Store.{Store, booking_key}

abbrev pub watched : List BookingStatus
watched = awaiting_pickup ∷ BookingStatus.expired ∷ grace ∷ overdue ∷ []

-- The rows of `notification_settings`: client id and `push_expiring_soon`. A client without a row
-- gets the push.
abbrev pub push_enabled : List (ℕ × Bool) → ℕ → Bool
push_enabled [] client_id = true
push_enabled ((id, wanted) ∷ rows) client_id =
    if id == client_id then wanted else push_enabled rows client_id

abbrev pub postamat_key : Postamat → ℕ
postamat_key p = p.id

unfoldable pub reachable : Option Postamat → ℕ → ℕ
reachable none moment = moment
reachable (some p) moment =
    if is_open_at p moment
    then moment
    else elim (next_opening_after p moment) [ none ↦ moment | some opening ↦ opening ]

-- `counts`.
pub record Counts : Type 0 where
  pub reminded : ℕ
  pub expired : ℕ
  pub grace : ℕ
  pub overdue : ℕ
  pub to_remove : ℕ

abbrev pub no_counts : Counts
no_counts = record { reminded = 0; expired = 0; grace = 0; overdue = 0; to_remove = 0 }

-- What a round of the loop leaves: the booking, the rows of notifications, those of them that wait
-- for `deliver_pending`, and the counts.
pub record Round : Type 0 where
  pub booking : Booking
  pub notices : List Notification
  pub pushes : List Notification
  pub counts : Counts

abbrev pub notice_of : Booking → NotificationKind → ℕ → Option ℕ → Notification
notice_of b kind number hours_left = record {
  client_id = some b.client_id;
  booking_id = some b.id;
  kind = kind;
  channel = in_app;
  phone = some b.recipient_phone;
  cell_number = some number;
  hours = hours_left;
}

abbrev pub push_of : Booking → ℕ → ℕ → Notification
push_of b number hours_left = record (notice_of b booking_expiring number (some hours_left)) {
  channel = push;
  phone = none;
}

-- `remove_after is not None and moment >= remove_after`
abbrev pub has_passed : Option ℕ → ℕ → Bool
has_passed none moment = false
has_passed (some limit) moment = leb limit moment

abbrev pub if_timed : {A : Type 0} → Option ℕ → A → (ℕ → A) → A
if_timed none skip go = skip
if_timed (some ends) skip go = go ends

abbrev pub is_live_parcel : Booking → Bool
is_live_parcel b = has_status b.status watched && is_some b.expires_at

module _ (s : Settings) (moment : ℕ) where
  -- `booking.reminded_at is None and moment >= expires_at - timedelta(hours=...)`, with the hours
  -- on the other side.
  abbrev pub wants_reminder : Booking → ℕ → Bool
  wants_reminder b ends =
      if is_some b.reminded_at then false else leb ends (moment + hours s.reminder_hours_before)

  -- The branch of a parcel that waits and whose storage has not ended.
  unfoldable pub remind : ℕ → (ℕ → Bool) → ℕ → Booking → Round → Round
  remind number wants_push ends b r =
      if wants_reminder b ends
      then (let notices =
            add_notice r.notices
              (notice_of b booking_expiring number (some s.reminder_hours_before)) in
          let row = push_of b number s.reminder_hours_before in
          record {
            booking = record b { reminded_at = some moment };
            notices = if wants_push b.client_id then add_notice notices row else notices;
            pushes = if wants_push b.client_id then add_notice r.pushes row else r.pushes;
            counts = record r.counts { reminded = r.counts.reminded + 1 };
          })
      else record r { booking = b }

  -- One round, by the booking's status. `clock` is read by `to_overdue`.
  unfoldable pub escalate_by :
      BookingStatus → Option Postamat → ℕ → (ℕ → Bool) → ℕ → ℕ → Booking → Round → Result Round
  escalate_by awaiting_pickup place number wants_push clock ends b r =
      if leb ends moment
      then (do
        b' ← expire b
        ok (record r {
          booking = b';
          notices = add_notice r.notices (notice_of b' booking_expired number none);
          counts = record r.counts { expired = r.counts.expired + 1 };
        }))
      else ok (remind number wants_push ends b r)
  escalate_by BookingStatus.expired place number wants_push clock ends b r =
      if leb (reachable place (ends + hours s.grace_hours)) moment
      then (do
        b' ← to_grace b
        ok (record r { booking = b'; counts = record r.counts { grace = r.counts.grace + 1 } }))
      else ok (record r { booking = b })
  escalate_by grace place number wants_push clock ends b r =
      if leb (reachable place (ends + hours (s.grace_hours * 2))) moment
      then (do
        b' ← to_overdue s clock b
        ok (record r {
          booking = b';
          notices = add_notice r.notices (notice_of b' booking_overdue number none);
          counts = record r.counts { overdue = r.counts.overdue + 1 };
        }))
      else ok (record r { booking = b })
  escalate_by overdue place number wants_push clock ends b r =
      if has_passed b.remove_after moment
      then (do
        b' ← flag_removal b
        ok (record r {
          booking = b';
          counts = record r.counts { to_remove = r.counts.to_remove + 1 };
        }))
      else ok (record r { booking = b })
  escalate_by _ place number wants_push clock ends b r = ok (record r { booking = b })

  unfoldable pub escalate :
      Option Postamat → ℕ → (ℕ → Bool) → ℕ → ℕ → Booking → Round → Result Round
  escalate place number wants_push clock ends b r =
      escalate_by b.status place number wants_push clock ends b r

  -- The loop. A row without an end is not selected, so the `none` is never met. The round's booking
  -- is written back to the table.
  unfoldable pub escalate_each :
      (ℕ → Bool)
      → (ℕ → ℕ)
      → List Booking
      → Store
      → List Notification
      → Counts
      → Result (Store × List Notification × Counts)
  escalate_each wants_push clock [] st pushes counts = ok (st, pushes, counts)
  escalate_each wants_push clock (b ∷ live) st pushes counts =
      if_timed b.expires_at (escalate_each wants_push clock live st pushes counts) (λ ends.
        escalate (get postamat_key b.postamat_id st.postamats) (cell_number st.cells b.cell_id)
          wants_push (clock b.id) ends b
          (record { booking = b; notices = st.notices; pushes = pushes; counts = counts })
        >>= λ r.
            escalate_each wants_push clock live
              (record st { bookings = put booking_key r.booking st.bookings; notices = r.notices })
              r.pushes r.counts)

  -- The whole run up to its commit; the pushes are then handed to the provider.
  unfoldable pub run_escalation :
      List (ℕ × Bool) → (ℕ → ℕ) → Store → Result (Store × List Notification × Counts)
  run_escalation settings_rows clock st =
      escalate_each (push_enabled settings_rows) clock (select is_live_parcel st.bookings) st []
        no_counts
