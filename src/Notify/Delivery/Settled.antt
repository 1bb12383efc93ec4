-- ===== src/Notify/Delivery/Settled.antt =====
-- No push is stranded, and none is sent twice.
use Prim.Native.String.{String, slice}
use poctamat_back.Common.{
  ℕ, ◌≡◌, refl, ap, ◌∙◌, inl, inr, Bool, true, false, not, Option, none, some, is_some, List, [],
  ◌∷◌, ◌++◌, Bool-cases, arith, map,
}
use poctamat_back.Identity.PushTokens.{PushToken}
use poctamat_back.Notify.Delivery.{
  Row, Attempt, took, failed, is_pending, attempted, with_errors, devices_for, send_each, send_all,
  send_to, send_push, push_each, mark_failed, Lookup, found, broken, deliver_pending,
}

-- A pending row is sent or has an error, never both; any other row is as it was.
abbrev pub IsDelivered : Row → Row → Type 0
IsDelivered old new =
    (is_pending old ≡ true
      → (is_some new.sent_at ≡ not (is_some new.error)) × (new.notice ≡ old.notice))
    × (is_pending old ≡ false → new ≡ old)

abbrev pub AreDelivered : List Row → List Row → Type 0
AreDelivered [] [] = Unit {0}
AreDelivered (old ∷ olds) (new ∷ news) = IsDelivered old new × AreDelivered olds news
AreDelivered _ _ = ⊥

abbrev is_tried : Row → List String → Bool
is_tried row [] = is_some row.sent_at
is_tried row (e ∷ errors) = true

is_tried-append :
    (row : Row) (errors : List String) (e : String) → is_tried row (errors ++ e ∷ []) ≡ true
is_tried-append row [] e = refl
is_tried-append row (f ∷ errors) e = refl

abbrev IsSent : Row → Type 0
IsSent row = (is_some row.sent_at ≡ true) × (row.error ≡ none)

-- What a row and the collected errors keep of the row they began with.
record Tries (row row' : Row) : Type 0 where
  same_notice : row'.notice ≡ row.notice
  same_error : row'.error ≡ row.error

attempted-Tries :
    (row : Row) (errors : List String) (a : Attempt)
    → Tries row (attempted row errors a).0
      × (is_tried (attempted row errors a).0 (attempted row errors a).1 ≡ true)
attempted-Tries row [] (took now) = (record { same_notice = refl; same_error = refl }, refl)
attempted-Tries row (e ∷ errors) (took now) =
    (record { same_notice = refl; same_error = refl }, refl)
attempted-Tries row errors (failed why) =
    (record { same_notice = refl; same_error = refl }, is_tried-append row errors (slice why 0 200))

not_some : {A : Type 0} (o : Option A) → is_some o ≡ false → o ≡ none
not_some none h = refl
not_some (some a) h = cc

pending-clean : (row : Row) → is_pending row ≡ true → (row.sent_at ≡ none) × (row.error ≡ none)
pending-clean row h =
    (not_some row.sent_at (ground (arith, h)), not_some row.error (ground (arith, h)))

mark_failed-IsDelivered : (message : String) (row : Row) → IsDelivered row (mark_failed message row)
mark_failed-IsDelivered message row = elim (Bool-cases (is_pending row)) [
  | inl due ↦
      rw due (λ h. (rw (pending-clean row due).0 refl, refl), λ h. absurd (ground (arith, due, h)))
  | inr done ↦ rw done (λ h. absurd (ground (arith, done, h)), λ h. refl)
]

mark_failed-delivers :
    (message : String) (rows : List Row) → AreDelivered rows (map (mark_failed message) rows)
mark_failed-delivers message [] = tt
mark_failed-delivers message (row ∷ rows) =
    (mark_failed-IsDelivered message row, mark_failed-delivers message rows)

IsDelivered-done : (old new : Row) → IsDelivered old new → is_pending new ≡ false
IsDelivered-done old new (due, done) = elim (Bool-cases (is_pending old)) [
  | inl h ↦ ground (arith, (due h).0)
  | inr h ↦ rw (done h) h
]

module _ {W : Type 0} (send : String → String → String → W → W × Attempt) where
  send_each-Tries :
      (devices : List PushToken) (row : Row) (errors : List String) (w : W)
      → is_tried row errors ≡ true
      → let r = send_each send devices row errors w in Tries row r.1 × (is_tried r.1 r.2 ≡ true)
  unfolding send_each
  send_each-Tries [] row errors w h = (record { same_notice = refl; same_error = refl }, h)
  send_each-Tries (d ∷ devices) row errors w h =
      let (w', answer) = send d.token row.title row.body w in
      let (kept, tried) = attempted-Tries row errors answer in
      let (later, done) =
        send_each-Tries devices (attempted row errors answer).0 (attempted row errors answer).1 w'
          tried in
      (
        record {
          same_notice = later.same_notice ∙ kept.same_notice;
          same_error = later.same_error ∙ kept.same_error;
        },
        done,
      )

  with_errors-settles :
      (row : Row) (errors : List String)
      → row.error ≡ none
      → is_tried row errors ≡ true
      → (is_some (with_errors (row, errors)).sent_at
          ≡ not (is_some (with_errors (row, errors)).error))
        × ((with_errors (row, errors)).notice ≡ row.notice)
  with_errors-settles row [] e h = (rw (e, h) refl, refl)
  with_errors-settles row (x ∷ errors) e h = elim (Bool-cases (is_some row.sent_at)) [
    | inl sent ↦ rw sent (rw (sent, e) refl, refl)
    | inr unsent ↦ rw unsent (rw unsent refl, refl)
  ]

  send_all-settles :
      (row : Row) (devices : List PushToken) (w : W)
      → row.error ≡ none
      → row.sent_at ≡ none
      → let r = (send_all send row devices w).1 in
        (is_some r.sent_at ≡ not (is_some r.error)) × (r.notice ≡ row.notice)
  unfolding send_each
  send_all-settles row [] w e n = (rw n refl, refl)
  send_all-settles row (d ∷ devices) w e n =
      let (w', answer) = send d.token row.title row.body w in
      let (kept, tried) = attempted-Tries row [] answer in
      let (later, done) =
        send_each-Tries devices (attempted row [] answer).0 (attempted row [] answer).1 w' tried in
      let (settled, same) =
        with_errors-settles _ _ (later.same_error ∙ (kept.same_error ∙ e)) done in
      (settled, same ∙ (later.same_notice ∙ kept.same_notice))

  send_to-settles :
      (row : Row) (client_id : Option ℕ) (devices : List PushToken) (w : W)
      → row.error ≡ none
      → row.sent_at ≡ none
      → let r = (send_to send row client_id devices w).1 in
        (is_some r.sent_at ≡ not (is_some r.error)) × (r.notice ≡ row.notice)
  send_to-settles row none devices w e n = (rw n refl, refl)
  send_to-settles row (some client_id) devices w e n = send_all-settles row devices w e n

  send_push-settles :
      (row : Row) (devices : List PushToken) (w : W)
      → is_pending row ≡ true
      → let r = (send_push send row devices w).1 in
        (is_some r.sent_at ≡ not (is_some r.error)) × (r.notice ≡ row.notice)
  unfolding send_push
  send_push-settles row devices w h =
      let (unsent, clean) = pending-clean row h in
      send_to-settles row row.notice.client_id devices w clean unsent

  push_each-delivers :
      (tokens : List PushToken) (rows : List Row) (w : W)
      → AreDelivered rows (push_each send tokens rows w).1
  unfolding push_each
  push_each-delivers tokens [] w = tt
  push_each-delivers tokens (row ∷ rows) w = elim (Bool-cases (is_pending row)) [
    | inl due ↦ rw due (
        (
          (
            λ h. send_push-settles row (devices_for row.notice.client_id tokens) w due,
            λ h. absurd (ground (arith, due, h)),
          ),
          push_each-delivers tokens rows
              (send_push send row (devices_for row.notice.client_id tokens) w).0,
        ))
    | inr done ↦
        rw done
          (((λ h. absurd (ground (arith, done, h)), λ h. refl), push_each-delivers tokens rows w))
  ]

  -- After a delivery each pushed row that was pending has either a time of sending or an error, and
  -- not both, and every other row is as it was.
  pub deliver_pending-settles :
      (lookup : Lookup) (rows : List Row) (w : W)
      → AreDelivered rows (deliver_pending send lookup rows w).1
  unfolding deliver_pending
  deliver_pending-settles (found tokens) rows w = push_each-delivers tokens rows w
  deliver_pending-settles (broken message) rows w = mark_failed-delivers message rows

  push_each-done :
      (tokens : List PushToken) (olds news : List Row) (w : W)
      → AreDelivered olds news
      → push_each send tokens news w ≡ (w, news)
  unfolding push_each
  push_each-done tokens [] [] w d = refl
  push_each-done tokens (old ∷ olds) (new ∷ news) w (d, ds) =
      rw (IsDelivered-done old new d) (rw (push_each-done tokens olds news w ds) refl)
  push_each-done tokens [] (new ∷ news) w d = absurd d
  push_each-done tokens (old ∷ olds) [] w d = absurd d

  mark_failed-done :
      (message : String) (olds news : List Row)
      → AreDelivered olds news
      → map (mark_failed message) news ≡ news
  mark_failed-done message [] [] d = refl
  mark_failed-done message (old ∷ olds) (new ∷ news) (d, ds) =
      rw (IsDelivered-done old new d)
        (ap (λ rows. new ∷ rows) (mark_failed-done message olds news ds))
  mark_failed-done message [] (new ∷ news) d = absurd d
  mark_failed-done message (old ∷ olds) [] d = absurd d

  -- However the tokens were looked up and whatever the provider answered, a second delivery of the
  -- same rows calls no provider and changes no row.
  pub deliver_pending-again :
      (lookup other : Lookup) (rows : List Row) (w w' : W)
      → let sent = (deliver_pending send lookup rows w).1 in
        deliver_pending send other sent w' ≡ (w', sent)
  unfolding deliver_pending
  deliver_pending-again lookup (found tokens) rows w w' =
      push_each-done tokens rows _ w' (deliver_pending-settles lookup rows w)
  deliver_pending-again lookup (broken message) rows w w' =
      ap (λ r. (w', r)) (mark_failed-done message rows _ (deliver_pending-settles lookup rows w))
