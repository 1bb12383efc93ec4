-- ===== src/Payments.antt =====
-- Payment rows and the provider's interface: backend/app/modules/payments/models.py and provider.py.
pub mod Service
pub mod Settling
pub mod Outcome
pub mod Effects
pub mod Opening
use Prim.Native.String.{String}
use text.Mathlib.Text.{◌==◌ as str_eq}
use poctamat_back.Common.{ℕ, Bool, true, false, Option, List, [], ◌∷◌, if◌then◌else◌}

pub data PaymentStatus : Type 0 where
  pending authorized succeeded failed cancelled expired : PaymentStatus

-- `LIVE_STATUSES`, as a test.
abbrev pub is_live : PaymentStatus → Bool
is_live pending = true
is_live authorized = true
is_live _ = false

abbrev pub bank_codes : List String
bank_codes = "halk" ∷ "senagat" ∷ "rysgal" ∷ []

abbrev pub has_text : String → List String → Bool
has_text t [] = false
has_text t (x ∷ xs) = if str_eq x t then true else has_text t xs

pub record Payment : Type 0 where
  pub id : ℕ
  pub booking_id : ℕ
  pub client_id : ℕ
  pub provider : String
  pub provider_payment_id : Option String
  pub amount_minor : ℕ
  pub currency : String
  pub status : PaymentStatus
  pub bank_code : Option String
  pub redirect_url : Option String
  pub expires_at : Option ℕ
  pub settled_at : Option ℕ
  pub failure_reason : Option String

pub record StartedPayment : Type 0 where
  pub provider_payment_id : String
  pub redirect_url : String

pub record WebhookEvent : Type 0 where
  pub payment_id : ℕ
  pub provider_payment_id : String
  pub succeeded : Bool
  pub reason : Option String
  pub amount_minor : Option ℕ

-- The protocol `PaymentProvider`: its name, and what it answers when a payment is opened.
pub record PaymentProvider : Type 0 where
  pub name : String
  pub start : ℕ → ℕ → String → String → StartedPayment
