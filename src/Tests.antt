-- ===== src/Tests.antt =====
-- Rows for the examples of its children: one site that opens on Mondays and Wednesdays from nine to
-- six, two cells of one size, and bookings at several points of their lives.
mod Bookings
mod Sites
mod Payments
mod Tables
mod Workers
mod Sessions
mod Codes
mod Desk
mod Cabinet
mod Wire
mod Staff
use Prim.Native.String.{String, ◌++◌ as append}
use poctamat_back.Common.{
  ℕ, ◌+◌, ◌*◌, Bool, true, false, Option, none, some, List, [], ◌∷◌, Result, ok, err, ◌≡◌, refl,
  arith, ◌≤◌, if◌then◌else◌,
}
use poctamat_back.Settings.{Settings, default_settings, us_hour, us_day}
use poctamat_back.Catalog.{PostamatStatus, PostamatSchedule, Postamat, Cell}
use poctamat_back.Catalog.Opening.Calendar.{IsWindow, IsSchedule}
use poctamat_back.Booking.{
  BookingStatus, pending_payment, awaiting_deposit, awaiting_pickup, to_remove, Depositor, Booking,
  BookingEvent, AccessCode, CodePurpose, pickup,
}
use poctamat_back.Payments.{PaymentStatus, Payment, StartedPayment, PaymentProvider, WebhookEvent}
use poctamat_back.Payments.Service.{live_for}
use poctamat_back.Payments.Opening.{IsSingleLive}
use poctamat_back.Custody.{CustodyStatus, CustodyRecord}
use poctamat_back.Store.{Store}

abbrev pub value_or {ℓ} : {A : Type ℓ} → A → Result A → A
value_or a (ok x) = x
value_or a (err e) = a

-- A keyed digest of the kind that `hash_pin` stands for.
abbrev pub digest : String → String
digest text = append "pepper:" text

abbrev pub settings : Settings
settings = default_settings

abbrev pub site : Postamat
site = record {
  id = 1;
  name = "Ashgabat 1";
  city_id = 1;
  status = PostamatStatus.active;
  round_the_clock = false;
  schedule =
      record { weekday = 0; opens_at = 9 * us_hour; closes_at = 18 * us_hour }
      ∷ record { weekday = 2; opens_at = 9 * us_hour; closes_at = 18 * us_hour }
      ∷ [];
}

monday : IsWindow (record { weekday = 0; opens_at = 9 * us_hour; closes_at = 18 * us_hour })
monday = record { ordered = omega arith; same_day = omega arith; numbered = omega arith }

wednesday : IsWindow (record { weekday = 2; opens_at = 9 * us_hour; closes_at = 18 * us_hour })
wednesday = record { ordered = omega arith; same_day = omega arith; numbered = omega arith }

pub site-IsSchedule : IsSchedule site.schedule
site-IsSchedule = ((monday, refl), ((wednesday, refl), tt))

abbrev pub closed_site : Postamat
closed_site = record site { schedule = [] }

abbrev pub low_cell : Cell
low_cell = record {
  id = 10;
  postamat_id = 1;
  cell_type_id = 5;
  number = 1;
  row = some 1;
  col = some 1;
  row_span = none;
  col_span = none;
  board = 1;
  output = 1;
  is_blocked = false;
  is_maintenance = false;
  blocked_reason = none;
  status_changed_at = none;
}

abbrev pub high_cell : Cell
high_cell = record low_cell { id = 11; number = 2; col = some 2; output = 2 }

abbrev pub cells : List Cell
cells = high_cell ∷ low_cell ∷ []

abbrev pub unpaid : Booking
unpaid = record {
  id = 100;
  client_id = 7;
  postamat_id = 1;
  cell_id = 10;
  cell_type_id = 5;
  duration_hours = 24;
  amount_minor = 1500;
  currency = "TMT";
  status = pending_payment;
  depositor = Depositor.owner;
  courier_phone = none;
  recipient_phone = "+99365000000";
  recipient_name = none;
  hold_expires_at = some (600 * 1_000_000);
  paid_at = none;
  deposited_at = none;
  expires_at = none;
  collected_at = none;
  cancelled_reason = none;
  remove_after = none;
  reminded_at = none;
  pickup_code_sent_at = none;
  hold_extensions = 0;
  events = [];
  codes = [];
}

abbrev pub paid_for : Booking
paid_for = record unpaid { status = awaiting_deposit; hold_expires_at = none; paid_at = some 5 }

-- Stored from a Monday noon for 24 hours.
abbrev pub waiting : Booking
waiting = record unpaid {
  id = 101;
  cell_id = 11;
  status = awaiting_pickup;
  hold_expires_at = none;
  paid_at = some 5;
  deposited_at = some (12 * us_hour);
  expires_at = some (36 * us_hour);
  codes =
      record {
        booking_id = 101;
        purpose = pickup;
        code_hash = "pepper:4711";
        attempts = 0;
        expires_at = some (60 * us_hour);
        used_at = none;
      }
      ∷ [];
}

abbrev pub flagged : Booking
flagged = record waiting { status = to_remove; remove_after = some (64 * us_hour) }

abbrev pub bank : PaymentProvider
bank = record {
  name = "stub";
  start = λ id amount currency url. record { provider_payment_id = "stub-1"; redirect_url = url };
}

abbrev pub open_payment : Payment
open_payment = record {
  id = 500;
  booking_id = 100;
  client_id = 7;
  provider = "stub";
  provider_payment_id = some "stub-1";
  amount_minor = 1500;
  currency = "TMT";
  status = PaymentStatus.pending;
  bank_code = some "halk";
  redirect_url = some "https://bank.invalid";
  expires_at = some 900_000_000;
  settled_at = none;
  failure_reason = none;
}

abbrev pub success : WebhookEvent
success = record {
  payment_id = 500;
  provider_payment_id = "stub-1";
  succeeded = true;
  reason = none;
  amount_minor = some 1500;
}

abbrev pub refusal : WebhookEvent
refusal = record success { succeeded = false; reason = some "declined" }

abbrev pub store : Store
store = record {
  postamats = site ∷ [];
  cells = cells;
  bookings = unpaid ∷ waiting ∷ [];
  payments = open_payment ∷ [];
  custody = [];
  audits = [];
  notices = [];
}

abbrev pub late_store : Store
late_store = record store { bookings = unpaid ∷ flagged ∷ [] }

at_most_one : (b : Bool) → (if b then 1 else 0) ≤ 1
at_most_one true = omega arith
at_most_one false = omega arith

pub store-IsSingleLive : IsSingleLive store.payments
store-IsSingleLive k = at_most_one (live_for k open_payment)
