-- ===== src/Store/Runs.antt =====
-- A run of the hold worker, backend/app/workers/holds.py, as steps of the tables.
use Prim.Native.String.{String}
use poctamat_back.Common.{
  ℕ, ◌≡◌, refl, subst, ◌∙◌, ◌≢◌, some, List, [], ◌∷◌, get, put, get-put_ne, select, All, All-mono,
  All-both, All-select_sub, All-stored, IsDistinct, select-IsDistinct, ok, >>=-eq-ok, ok_injective,
}
use poctamat_back.Settings.{Settings}
use poctamat_back.Booking.{Booking}
use poctamat_back.Booking.Service.{cancel}
use poctamat_back.Booking.Service.Calls.{cancels, perform, perform-Change}
use poctamat_back.Payments.{PaymentProvider}
use poctamat_back.Workers.Holds.{is_stale, release_reason, release_each, release_expired_holds}
use poctamat_back.Store.{Store, booking_key}
use poctamat_back.Store.Steps.{calls, Reaches, stays, goes_on}

module _ (hash_pin : String → String) (s : Settings) (provider : PaymentProvider) where
  release_each-Reaches :
      (todo : List Booking) (start st : Store) (rows' : List Booking) (ids : List ℕ)
      → IsDistinct booking_key todo
      → All (λ b. get booking_key b.id st.bookings ≡ some b) todo
      → release_each todo st.bookings ≡ ok (rows', ids)
      → Reaches hash_pin s provider start st
      → Reaches hash_pin s provider start (record st { bookings = rows' })
  unfolding release_each perform
  release_each-Reaches [] start st rows' ids d h e before =
      subst
        (λ (r : List Booking × List ℕ).
          Reaches hash_pin s provider start (record st { bookings = r.0 }))
        (ok_injective e) before
  release_each-Reaches (b ∷ todo) start st rows' ids d h e before =
      let (b', cancelled, rest) = >>=-eq-ok (cancel release_reason (some "system") b) _ e in
      let ((rows₂, ids₂), looped, done) =
        >>=-eq-ok (release_each todo (put booking_key b' st.bookings)) _ rest in
      let key =
        (perform-Change hash_pin s (cancels release_reason (some "system")) b b'
          cancelled).same_id in
      let still =
        All-mono (λ c. (c.id ≢ b.id) × (get booking_key c.id st.bookings ≡ some c))
          (λ c. get booking_key c.id (put booking_key b' st.bookings) ≡ some c) todo
          (λ c f. get-put_ne booking_key c.id b' st.bookings (λ q. f.0 (q ∙ key)) ∙ f.1)
          (All-both (λ c. c.id ≢ b.id) (λ c. get booking_key c.id st.bookings ≡ some c) todo d.0
            h.1) in
      let next : Store = record st { bookings = put booking_key b' st.bookings } in
      subst
        (λ (r : List Booking × List ℕ).
          Reaches hash_pin s provider start (record st { bookings = r.0 }))
        (ok_injective done)
        (release_each-Reaches todo start next rows₂ ids₂ d.1 still looped (
          goes_on st next before
            (calls (cancels release_reason (some "system")) b b' refl h.0 cancelled)))

  -- On a table with distinct ids, whatever a run of the hold worker makes of the bookings is
  -- reached by steps of the tables.
  release_expired_holds-Reaches :
      (moment : ℕ) (st : Store) (rows' : List Booking) (ids : List ℕ)
      → IsDistinct booking_key st.bookings
      → release_expired_holds moment st.bookings ≡ ok (rows', ids)
      → Reaches hash_pin s provider st (record st { bookings = rows' })
  unfolding release_expired_holds
  release_expired_holds-Reaches moment st rows' ids d e =
      release_each-Reaches (select (is_stale moment) st.bookings) st st rows' ids
        (select-IsDistinct booking_key (is_stale moment) st.bookings d)
        (All-select_sub (λ b. get booking_key b.id st.bookings ≡ some b) (is_stale moment)
          st.bookings (All-stored booking_key st.bookings d))
        e stays
