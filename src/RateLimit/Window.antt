-- ===== src/RateLimit/Window.antt =====
-- How many requests of one address pass in a window.
use Prim.Native.String.{String}
use package.text.Mathlib.Text.{◌==◌ as str_eq}
use package.text.Mathlib.TextEquality.{eq_iff}
use package.text.Mathlib.TextPositions.{eq_refl}
use poctamat_back.Common.{
  ℕ, suc, ◌+◌, ◌-◌, ◌≤◌, ◌<◌, ◌≡◌, refl, ap, ◌∙◌, subst, inl, inr, Bool, true, false, not, ◌&&◌,
  Option, none, some, List, [], ◌∷◌, ltb, leb, if◌then◌else◌, Bool-cases, is_ok, arith, ok, err,
  Result, some_injective,
}
use poctamat_back.KeyValue.{
  Key, rate, count, Entry, KeyValueStore, seconds, increment, live, increment_live,
}
use poctamat_back.KeyValue.View.{alive, view, live-alive}
use poctamat_back.KeyValue.Operations.{counted, apply-view, increments}
use poctamat_back.RateLimit.{client_ip, check_limit, rate_limit}

-- A request: the two readings of the clock, and the address.
pub record Hit : Type 0 where
  pub now : ℕ
  pub clock : ℕ
  pub host : Option String

-- The readings do not run backwards from `from`, and none comes at `end` or later.
abbrev pub IsWithin : ℕ → ℕ → List Hit → Type 0
IsWithin from end [] = Unit {0}
IsWithin from end (r ∷ rs) =
    (from ≤ r.now) × (r.now ≤ r.clock) × (r.now < end) × IsWithin r.clock end rs

abbrev pub is_from : String → Hit → Bool
is_from ip r = str_eq (client_ip r.host) ip

abbrev pub requests_of : String → List Hit → ℕ
requests_of ip [] = 0
requests_of ip (r ∷ rs) = if is_from ip r then suc (requests_of ip rs) else requests_of ip rs

abbrev counts : String → Hit → Bool → ℕ → ℕ
counts ip r passed n = if is_from ip r && passed then suc n else n

module _ (bucket : String) (limit window_seconds : ℕ) where
  abbrev hit : Hit → KeyValueStore → KeyValueStore × Bool
  hit r st =
      let (st', result) = rate_limit bucket limit window_seconds r.now r.clock r.host st in
      (st', is_ok result)

  -- How many of the requests of one address pass, the requests of all addresses being served in
  -- their order.
  pub passes : String → List Hit → KeyValueStore → ℕ
  passes ip [] st = 0
  passes ip (r ∷ rs) st = counts ip r (hit r st).1 (passes ip rs (hit r st).0)

abbrev pub least : ℕ → ℕ → ℕ
least a b = if leb a b then a else b

abbrev counter : ℕ → ℕ → Entry
counter n end = record { value = ("n", count n) ∷ []; expires_at = end }

counter-alive :
    (now n end : ℕ) → now < end → alive now (some (counter n end)) ≡ some (counter n end)
counter-alive now n end h = ground arith

module _ (limit window_seconds : ℕ) where
  check_limit-store : (p : KeyValueStore × Result (ℕ × ℕ)) → (check_limit limit p).0 ≡ p.0
  check_limit-store (st, ok (current, ttl)) = refl
  check_limit-store (st, err problem) = refl

  increment_live-counts :
      (clock n end : ℕ) (k : Key) (p : KeyValueStore × Option Entry)
      → p.1 ≡ some (counter n end)
      → is_ok (check_limit limit (increment_live clock k window_seconds p)).1
        ≡ not (ltb limit (n + 1))
  increment_live-counts clock n end k (st, none) e = cc
  increment_live-counts clock n end k (st, some x) e = rw (some_injective e) (ground arith)

  increment_live-opens :
      (clock : ℕ) (k : Key) (p : KeyValueStore × Option Entry)
      → p.1 ≡ none
      → is_ok (check_limit limit (increment_live clock k window_seconds p)).1 ≡ not (ltb limit 1)
  increment_live-opens clock k (st, none) e = ground arith
  increment_live-opens clock k (st, some x) e = cc

module _ (bucket : String) (limit window_seconds : ℕ) (ip : String) where
  abbrev own_key : Key
  own_key = rate bucket ip

  -- From `from` on, the counter of the address is at `n` and its window ends at `end`.
  abbrev Counter : ℕ → ℕ → ℕ → KeyValueStore → Type 0
  Counter from n end st =
      (later : ℕ) → from ≤ later → view st later own_key ≡ alive later (some (counter n end))

  hit-view :
      (r : Hit) (st : KeyValueStore) (later : ℕ)
      → r.now ≤ r.clock
      → r.clock ≤ later
      → view (hit bucket limit window_seconds r st).0 later own_key ≡ (
          if is_from ip r
          then alive later (counted r.clock window_seconds (view st r.now own_key))
          else view st later own_key)
  unfolding rate_limit
  hit-view r st later h g =
      let key = rate bucket (client_ip r.host) in
      let meant =
        ap (λ (t : KeyValueStore). view t later own_key)
          (check_limit-store limit window_seconds (increment r.now r.clock key window_seconds st))
        ∙ apply-view r.now r.clock later (increments key window_seconds) st own_key h g in
      elim (Bool-cases (is_from ip r)) [
        | inl own ↦ rw own (
            subst
              (λ (i : String).
                view (hit bucket limit window_seconds r st).0 later own_key
                ≡ alive later (counted r.clock window_seconds (view st r.now (rate bucket i))))
              ((eq_iff (client_ip r.host) ip).0 own) (rw (eq_refl bucket, own) at meant))
        | inr other ↦ rw other (rw (eq_refl bucket, other) at meant)
      ]

  own_hit :
      (r : Hit) (st : KeyValueStore) (o : Option Entry) (n : ℕ)
      → is_from ip r ≡ true
      → view st r.now own_key ≡ o
      → ((p : KeyValueStore × Option Entry)
          → p.1 ≡ o
          → is_ok (check_limit limit (increment_live r.clock own_key window_seconds p)).1
            ≡ not (ltb limit n))
      → (hit bucket limit window_seconds r st).1 ≡ not (ltb limit n)
  unfolding rate_limit increment
  own_hit r st o n own e counted_to =
      let same = (eq_iff (client_ip r.host) ip).0 own in
      rw same (counted_to (live r.now own_key st) (live-alive r.now own_key st ∙ e))

  abbrev after : Hit → KeyValueStore → KeyValueStore
  after r st = (hit bucket limit window_seconds r st).0

  passes-nil : (st : KeyValueStore) → passes bucket limit window_seconds ip [] st ≡ 0
  unfolding passes
  passes-nil st = refl

  passes-cons :
      (r : Hit) (rs : List Hit) (st : KeyValueStore)
      → passes bucket limit window_seconds ip (r ∷ rs) st
        ≡ counts ip r
            (hit bucket limit window_seconds r st).1
            (passes bucket limit window_seconds ip rs (after r st))
  unfolding passes
  passes-cons r rs st = refl

  -- A request of the address moves its counter, one of another address leaves it.
  own-Counter :
      (r : Hit) (st : KeyValueStore) (o : Option Entry) (n end : ℕ)
      → is_from ip r ≡ true
      → r.now ≤ r.clock
      → view st r.now own_key ≡ o
      → counted r.clock window_seconds o ≡ some (counter n end)
      → Counter r.clock n end (after r st)
  own-Counter r st o n end own turn e next later g =
      rw own at (hit-view r st later turn g)
      ∙ ap (λ (x : Option Entry). alive later (counted r.clock window_seconds x)) e
      ∙ ap (alive later) next

  other-Counter :
      (r : Hit) (st : KeyValueStore) (from n end : ℕ)
      → is_from ip r ≡ false
      → from ≤ r.now
      → r.now ≤ r.clock
      → Counter from n end st
      → Counter r.clock n end (after r st)
  other-Counter r st from n end other h turn c later g =
      rw other at (hit-view r st later turn g) ∙ c later (omega arith)

  -- With the counter at `n`, the window lets `limit - n` more requests of the address pass.
  passes-Counter :
      (rs : List Hit) (st : KeyValueStore) (from n end : ℕ)
      → Counter from n end st
      → IsWithin from end rs
      → passes bucket limit window_seconds ip rs st ≡ least (requests_of ip rs) (limit - n)
  passes-Counter [] st from n end c w = rw (passes-nil st) (ground arith)
  passes-Counter (r ∷ rs) st from n end c (h, turn, before, rest) =
      elim (Bool-cases (is_from ip r)) [
        | inl own ↦
            let found = c r.now h ∙ counter-alive r.now n end before in
            let passed =
              own_hit r st (some (counter n end)) (n + 1) own found
                (increment_live-counts limit window_seconds r.clock n end own_key) in
            let more =
              passes-Counter rs (after r st) r.clock (n + 1) end
                (own-Counter r st (some (counter n end)) (n + 1) end own turn found refl) rest in
            rw (passes-cons r rs st) (rw (passed, more, own) (ground arith))
        | inr other ↦
            let more =
              passes-Counter rs (after r st) r.clock n end
                (other-Counter r st from n end other h turn c) rest in
            rw (passes-cons r rs st) (rw (more, other) refl)
      ]

  -- From a request that finds no live counter, with a clock that does not run backwards, the
  -- requests of its address within the window that pass are as many as there are or `limit`,
  -- whichever is less, however the requests of other addresses fall between them.
  pub passes-window :
      (r : Hit) (rs : List Hit) (st : KeyValueStore)
      → view st r.now (rate bucket ip) ≡ none
      → is_from ip r ≡ true
      → r.now ≤ r.clock
      → IsWithin r.clock (r.clock + seconds window_seconds) rs
      → passes bucket limit window_seconds ip (r ∷ rs) st ≡ least (requests_of ip (r ∷ rs)) limit
  passes-window r rs st e own turn w =
      let passed =
        own_hit r st none 1 own e (increment_live-opens limit window_seconds r.clock own_key) in
      let more =
        passes-Counter rs (after r st) r.clock 1 (r.clock + seconds window_seconds)
          (own-Counter r st none 1 (r.clock + seconds window_seconds) own turn e refl) w in
      rw (passes-cons r rs st) (rw (passed, more, own) (ground arith))
