-- ===== src/Booking/Service/Calls.antt =====
-- Every operation of the service, as one data type of calls, and what each does to a booking if it
-- does not raise.
use Prim.Native.String.{String}
use poctamat_back.Common.{
  ℕ, ◌≡◌, refl, sym, ap, subst, inl, inr, true, Option, none, some, arith, Result, ok, err, ◌>>=◌,
}
use poctamat_back.Settings.{Settings}
use poctamat_back.Catalog.{Postamat}
use poctamat_back.Booking.{
  BookingStatus, pending_payment, awaiting_deposit, awaiting_pickup, EventDetails, Step, paid,
  pickup_code_sent, Booking,
}
use poctamat_back.Booking.Machine.{can_transition}
use poctamat_back.Booking.Codes.{issue_code}
use poctamat_back.Booking.Service.{
  record_event, move, mark_paid, mark_deposited, mark_collected, expire, extend_hold, to_grace,
  fail_payment, flag_removal, to_overdue, mark_removed, close_custody, cancel,
}
use poctamat_back.Booking.Service.Hold.{pushed, extend_hold-ok}
use poctamat_back.Booking.Service.History.{IsTimeline, IsMove, record_event-IsTimeline, move-ok}

pub data Call : Type 0 where
  pays : ℕ → Call
  deposits : Postamat → ℕ → ℕ → String → Call
  collects : ℕ → Call
  expires graces flags removes closes : Call
  extends : ℕ → Call
  fails : Option String → Call
  runs_over : ℕ → Call
  cancels : String → Option String → Call

-- What stays the same, and how the status and the timeline go on.
pub record Change (b b' : Booking) : Type 0 where
  pub same_id : b'.id ≡ b.id
  pub same_client : b'.client_id ≡ b.client_id
  pub same_postamat : b'.postamat_id ≡ b.postamat_id
  pub same_cell : b'.cell_id ≡ b.cell_id
  pub moved : IsMove b.status b'.status
  pub timeline : IsTimeline b → IsTimeline b'

-- An edit of other fields leaves the status and the events alone.
pub record Edit (b c : Booking) : Type 0 where
  pub same_id : c.id ≡ b.id
  pub same_client : c.client_id ≡ b.client_id
  pub same_postamat : c.postamat_id ≡ b.postamat_id
  pub same_cell : c.cell_id ≡ b.cell_id
  pub same_status : c.status ≡ b.status
  pub same_events : c.events ≡ b.events

Edit-IsTimeline : (b c : Booking) → Edit b c → IsTimeline b → IsTimeline c
Edit-IsTimeline b c d h = record {
  numbered = rw d.same_events h.numbered;
  walks = rw (d.same_events, d.same_status) h.walks;
}

pub Edit-Change : (b c : Booking) → Edit b c → Change b c
Edit-Change b c d = record {
  same_id = d.same_id;
  same_client = d.same_client;
  same_postamat = d.same_postamat;
  same_cell = d.same_cell;
  moved = inl d.same_status;
  timeline = Edit-IsTimeline b c d;
}

-- An event for the status that a booking has.
pub event-Change :
    (b c : Booking) (t : BookingStatus) (message : String) (details : Option EventDetails)
    (step : Option Step)
    → Change b c
    → c.status ≡ t
    → Change b (record_event c t message details step)
unfolding record_event
event-Change b c t message details step d q = record {
  same_id = d.same_id;
  same_client = d.same_client;
  same_postamat = d.same_postamat;
  same_cell = d.same_cell;
  moved = d.moved;
  timeline = λ h.
      subst (λ st. IsTimeline (record (record_event c t message details step) { status = st }))
        (sym q) (record_event-IsTimeline c t message details step (d.timeline h) (inl (sym q)));
}

-- A move after an edit.
pub move-Change :
    (b c b' : Booking) (t : BookingStatus) (message : String) (details : Option EventDetails)
    (step : Option Step)
    → move c t message details step ≡ ok b'
    → Change b c
    → c.status ≡ b.status
    → Change b b'
unfolding record_event
move-Change b c b' t message details step e d q =
    let (can, done) = move-ok c b' t message details step e in
    subst (λ x. Change b x) done
      (record {
        same_id = d.same_id;
        same_client = d.same_client;
        same_postamat = d.same_postamat;
        same_cell = d.same_cell;
        moved = inr (subst (λ st. can_transition st t ≡ true) q can);
        timeline = λ h. record_event-IsTimeline c t message details step (d.timeline h) (inr can);
      })

pub edited_move-Change :
    (b c b' : Booking) (t : BookingStatus) (message : String) (details : Option EventDetails)
    (step : Option Step)
    → move c t message details step ≡ ok b'
    → Edit b c
    → Change b b'
edited_move-Change b c b' t message details step e d =
    move-Change b c b' t message details step e (Edit-Change b c d) d.same_status

move-status :
    (c b' : Booking) (t : BookingStatus) (message : String) (details : Option EventDetails)
    (step : Option Step)
    → move c t message details step ≡ ok b'
    → b'.status ≡ t
unfolding record_event
move-status c b' t message details step e =
    let (can, done) = move-ok c b' t message details step e in
    ap (λ (x : Booking). x.status) (sym done)

to_deposit : (s : BookingStatus) → can_transition s awaiting_deposit ≡ true → s ≡ pending_payment
to_deposit s e = ground arith

mark_paid-Change : (now : ℕ) (b b' : Booking) → mark_paid now b ≡ ok b' → Change b b'
unfolding mark_paid record_event
mark_paid-Change now b b' e =
    let c : Booking = record b { paid_at = some now; hold_expires_at = none } in
    let (can, _) =
      move-ok (record_event c pending_payment "Оплачено" none (some paid)) b' _ _ _ _ e in
    move-Change b (record_event c pending_payment "Оплачено" none (some paid)) b' _ _ _ _ e
      (event-Change b c pending_payment _ _ _ (Edit-Change b c (ground arith))
        (to_deposit b.status can))
      refl

-- The end of `mark_deposited`, after the move.
abbrev notice : String → Result Booking → Result (Booking × String)
notice code m = m >>= λ moved. ok (
  record_event moved awaiting_pickup "Код получения отправлен" none (some pickup_code_sent),
  code,
)

notice-ok :
    (code : String) (m : Result Booking) (b' : Booking)
    → (notice code m >>= λ r. ok r.0) ≡ ok b'
    → (x : Booking) × (m ≡ ok x)
      × (record_event x awaiting_pickup "Код получения отправлен" none (some pickup_code_sent) ≡ b')
notice-ok code (ok x) b' e = (x, refl, cc)
notice-ok code (err x) b' e = cc

mark_deposited-Change :
    (hash_pin : String → String) (s : Settings) (p : Postamat) (at now : ℕ) (code : String)
    (b b' : Booking)
    → (mark_deposited hash_pin s p at now code b >>= λ r. ok r.0) ≡ ok b'
    → Change b b'
unfolding mark_deposited issue_code
mark_deposited-Change hash_pin s p at now code b b' e =
    let (x, moved, done) = notice-ok code _ b' e in
    subst (λ y. Change b y) done
      (event-Change b x awaiting_pickup _ _ _
        (edited_move-Change b _ x _ _ _ _ moved (ground arith)) (move-status _ x _ _ _ _ moved))

extend_hold-Change :
    (s : Settings) (now : ℕ) (b b' : Booking) → extend_hold s now b ≡ ok b' → Change b b'
extend_hold-Change s now b b' e =
    let (_, _, _, done) = extend_hold-ok s now b b' e in
    subst (λ y. Change b y) done
      (event-Change b (pushed s b) b.status _ _ _ (Edit-Change b (pushed s b) (ground arith)) refl)

module _ (hash_pin : String → String) (s : Settings) where
  unfoldable pub perform : Call → Booking → Result Booking
  perform (pays now) b = mark_paid now b
  perform (deposits p at now code) b = mark_deposited hash_pin s p at now code b >>= λ r. ok r.0
  perform (collects at) b = mark_collected at b
  perform expires b = expire b
  perform graces b = to_grace b
  perform flags b = flag_removal b
  perform removes b = mark_removed b
  perform closes b = close_custody b
  perform (extends now) b = extend_hold s now b
  perform (fails reason) b = fail_payment reason b
  perform (runs_over now) b = to_overdue s now b
  perform (cancels reason actor) b = cancel reason actor b

  -- An operation of the booking service that succeeds keeps the booking's id, client, postamat and
  -- cell, moves its status by one allowed transition or not at all, and keeps its timeline well
  -- formed.
  pub perform-Change : (c : Call) (b b' : Booking) → perform c b ≡ ok b' → Change b b'
  unfolding perform mark_collected expire to_grace flag_removal mark_removed close_custody
      fail_payment to_overdue cancel
  perform-Change (pays now) b b' e = mark_paid-Change now b b' e
  perform-Change (deposits p at now code) b b' e =
      mark_deposited-Change hash_pin s p at now code b b' e
  perform-Change (collects at) b b' e = edited_move-Change b _ b' _ _ _ _ e (ground arith)
  perform-Change expires b b' e = edited_move-Change b _ b' _ _ _ _ e (ground arith)
  perform-Change graces b b' e = edited_move-Change b _ b' _ _ _ _ e (ground arith)
  perform-Change flags b b' e = edited_move-Change b _ b' _ _ _ _ e (ground arith)
  perform-Change removes b b' e = edited_move-Change b _ b' _ _ _ _ e (ground arith)
  perform-Change closes b b' e = edited_move-Change b _ b' _ _ _ _ e (ground arith)
  perform-Change (extends now) b b' e = extend_hold-Change s now b b' e
  perform-Change (fails reason) b b' e = edited_move-Change b _ b' _ _ _ _ e (ground arith)
  perform-Change (runs_over now) b b' e = edited_move-Change b _ b' _ _ _ _ e (ground arith)
  perform-Change (cancels reason actor) b b' e = edited_move-Change b _ b' _ _ _ _ e (ground arith)
