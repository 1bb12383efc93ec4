-- ===== src/Notify.antt =====
-- Notifications as the booking, payment and custody code records them: the arguments of `notify` in
-- backend/app/modules/notify/service.py. The row's title and body are texts that the templates give
-- for the kind, and are left out; an in-app row is only recorded.
pub mod Delivery
use Prim.Native.String.{String}
use poctamat_back.Common.{ℕ, Option, List, [], ◌∷◌, ◌++◌}

pub data NotificationChannel : Type 0 where
  in_app sms push : NotificationChannel

pub data NotificationKind : Type 0 where
  otp deposit_code pickup_code_sent pickup_transferred booking_paid : NotificationKind
  booking_expiring booking_expired booking_overdue parcel_removed : NotificationKind

pub record Notification : Type 0 where
  pub client_id : Option ℕ
  pub booking_id : Option ℕ
  pub kind : NotificationKind
  pub channel : NotificationChannel
  pub phone : Option String
  pub cell_number : Option ℕ
  pub hours : Option ℕ

abbrev pub add_notice : List Notification → Notification → List Notification
add_notice rows row = rows ++ row ∷ []
