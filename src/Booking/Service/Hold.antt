-- ===== src/Booking/Service/Hold.antt =====
-- The payment hold: `extend_hold` keeps a cell for an unpaid booking a bounded number of times.
use poctamat_back.Common.{
  ℕ, ◌+◌, ◌*◌, ◌≤◌, ◌<◌, ◌≡◌, refl, ap, false, List, [], ◌∷◌, ◌>>=◌, >>=-eq-ok, ok_injective, subst,
  none, some, arith, length, Result, ok, ◌↔◌,
}
use poctamat_back.Settings.{Settings, minutes}
use poctamat_back.Booking.{pending_payment, extension, Booking}
use poctamat_back.Booking.Service.{record_event, extend_hold, hold_is_over, push_out}

abbrev pub pushed : Settings → Booking → Booking
pushed s b = record b {
  hold_extensions = b.hold_extensions + 1;
  hold_expires_at = push_out b.hold_expires_at (minutes s.hold_minutes);
}

-- What an extension that does not raise has tested, and what it has done.
pub extend_hold-ok :
    (s : Settings) (now : ℕ) (b b' : Booking)
    → extend_hold s now b ≡ ok b'
    → (b.status ≡ pending_payment)
      × (hold_is_over b.hold_expires_at now ≡ false)
      × (b.hold_extensions < s.hold_extensions_max)
      × (record_event
            (pushed s b)
            b.status
            "Бронь продлена"
            (some (extension (b.hold_extensions + 1)))
            none
          ≡ b')
unfolding extend_hold
extend_hold-ok s now b b' e = (ground arith, ground arith, ground arith, ground arith)

-- An extension succeeds exactly for an unpaid booking whose hold still runs and has extensions
-- left.
pub extend_hold_iff :
    (s : Settings) (now : ℕ) (b : Booking)
    → ((b' : Booking) × (extend_hold s now b ≡ ok b')) ↔ (
        (b.status ≡ pending_payment)
        × (hold_is_over b.hold_expires_at now ≡ false)
        × (b.hold_extensions < s.hold_extensions_max))
unfolding extend_hold
extend_hold_iff s now b = (
  λ r. let (pending, runs, left, _) = extend_hold-ok s now b r.0 r.1 in (pending, runs, left),
  λ h. (
    record_event (pushed s b) b.status "Бронь продлена" (some (extension (b.hold_extensions + 1)))
        none,
    ground arith,
  ),
)

-- The hold began at `start` and has been extended as often as the booking counts, within the limit.
pub record IsHoldFrom (s : Settings) (start : ℕ) (b : Booking) : Type 0 where
  pub until : b.hold_expires_at ≡ some (start + (b.hold_extensions + 1) * minutes s.hold_minutes)
  pub limited : b.hold_extensions ≤ s.hold_extensions_max

pushed-IsHoldFrom :
    (s : Settings) (start : ℕ) (b : Booking)
    → b.hold_extensions < s.hold_extensions_max
    → IsHoldFrom s start b
    → IsHoldFrom s start (pushed s b)
pushed-IsHoldFrom s start b left h = record {
  until = rw h.until (ap some (omega arith));
  limited = omega arith;
}

extend_hold-IsHoldFrom :
    (s : Settings) (start now : ℕ) (b b' : Booking)
    → extend_hold s now b ≡ ok b'
    → IsHoldFrom s start b
    → IsHoldFrom s start b' × (b'.hold_extensions ≡ b.hold_extensions + 1)
unfolding record_event
extend_hold-IsHoldFrom s start now b b' e h =
    let (_, _, left, done) = extend_hold-ok s now b b' e in
    subst (λ (x : Booking). IsHoldFrom s start x × (x.hold_extensions ≡ b.hold_extensions + 1)) done
      (record { until = (pushed-IsHoldFrom s start b left h).until; limited = omega arith }, refl)

-- Extensions at the given instants, one after the other.
abbrev pub extend_all : Settings → List ℕ → Booking → Result Booking
extend_all s [] b = ok b
extend_all s (now ∷ nows) b = extend_hold s now b >>= extend_all s nows

-- From a hold that began at `start`, extensions that all succeed leave a hold that ends as many
-- periods after `start` as it counts and one more, and never more of them than
-- `hold_extensions_max`.
pub extend_all-bounded :
    (s : Settings) (start : ℕ) (nows : List ℕ) (b b' : Booking)
    → extend_all s nows b ≡ ok b'
    → IsHoldFrom s start b
    → IsHoldFrom s start b' × (length nows + b.hold_extensions ≤ s.hold_extensions_max)
extend_all-bounded s start [] b b' e h =
    (subst (λ x. IsHoldFrom s start x) (ok_injective e) h, omega (arith, h.limited))
extend_all-bounded s start (now ∷ nows) b b' e h =
    let (x, first, rest) = >>=-eq-ok (extend_hold s now b) (extend_all s nows) e in
    let (hx, counted) = extend_hold-IsHoldFrom s start now b x first h in
    let (hb, bound) = extend_all-bounded s start nows x b' rest hx in (hb, omega arith)
