-- ===== src/Wait/Poll/Laws.antt =====
-- A polling loop ends by its deadline, and what it returns comes from its last round.
use docker_go_sdk.Common.{
  ℕ, zero, suc, ◌+◌, ◌≤◌, ◌<◌, ◌≡◌, refl, ◌≢◌, Bool, true, false, if◌then◌else◌, ◌⊎◌, inl, inr,
  Option, none, some, arith, Option-cases,
}
use docker_go_sdk.GoError.{Error}
use docker_go_sdk.Wait.Target.{Target, Ctx, with_timeout}
use docker_go_sdk.Wait.Poll.{Verdict, again, finished, poll}

-- The run has ended.
abbrev pub Returns : {A : Type 0} → Option A → Type 0
Returns {A} o = (r : A) × (o ≡ some r)

pub if_Returns :
    {A : Type 0} (b : Bool) (x y : Option A) → Returns x → Returns y → Returns (if b then x else y)
if_Returns true x y h k = h
if_Returns false x y h k = k

pub Verdict-cases : (v : Verdict) → (v ≡ again) ⊎ ((r : Option Error) × (v ≡ finished r))
Verdict-cases again = inl refl
Verdict-cases (finished r) = inr (r, refl)

module _ {S : Type 0} (ctx : S → Option Error) (stopped : S → Error → Error) (before : S → S)
    (body : S → Verdict × S) where
  -- Each round that goes on moves the clock, and from the deadline on the context is done.
  pub poll_returns :
      (now : S → ℕ) (deadline : ℕ)
      → ((s : S) → (body (before s)).0 ≡ again → now s < now (body (before s)).1)
      → ((s : S) → deadline ≤ now s → ctx (before s) ≢ none)
      → (fuel : ℕ) (s : S) → deadline ≤ now s + fuel
      → (r : Option Error × S) × (poll (suc fuel) ctx stopped before body s ≡ some r)
  unfolding poll
  poll_returns now deadline progress ends zero s h = elim (Option-cases (ctx (before s))) [
    | inl open_ ↦ absurd (ends s (omega arith) open_)
    | inr (e, done) ↦ ((some (stopped (before s) e), before s), rw (done, poll))
  ]
  poll_returns now deadline progress ends (suc fuel) s h = elim (Option-cases (ctx (before s))) [
    | inr (e, done) ↦ ((some (stopped (before s) e), before s), rw (done, poll))
    | inl open_ ↦ elim (Verdict-cases (body (before s)).0) [
      | inr (r, last) ↦ ((r, (body (before s)).1), rw (open_, poll, last))
      | inl more ↦
          let (r, e) =
            poll_returns now deadline progress ends fuel (body (before s)).1
              (omega (arith, progress s more)) in
          (r, rw (open_, poll, more) e)
    ]
  ]

  -- The same where a round that goes on shows that the deadline has not passed.
  pub poll_returns_by_body :
      (now : S → ℕ) (deadline : ℕ)
      → ((s : S)
          → (body (before s)).0 ≡ again
          → (now s < now (body (before s)).1) × (now s < deadline))
      → (fuel : ℕ) (s : S) → deadline ≤ now s + fuel
      → (r : Option Error × S) × (poll (suc fuel) ctx stopped before body s ≡ some r)
  unfolding poll
  poll_returns_by_body now deadline progress zero s h = elim (Option-cases (ctx (before s))) [
    | inr (e, done) ↦ ((some (stopped (before s) e), before s), rw (done, poll))
    | inl open_ ↦ elim (Verdict-cases (body (before s)).0) [
      | inr (r, last) ↦ ((r, (body (before s)).1), rw (open_, poll, last))
      | inl more ↦ let (later, early) = progress s more in absurd (omega arith)
    ]
  ]
  poll_returns_by_body now deadline progress (suc fuel) s h = elim (Option-cases (ctx (before s))) [
    | inr (e, done) ↦ ((some (stopped (before s) e), before s), rw (done, poll))
    | inl open_ ↦ elim (Verdict-cases (body (before s)).0) [
      | inr (r, last) ↦ ((r, (body (before s)).1), rw (open_, poll, last))
      | inl more ↦
          let (later, early) = progress s more in
          let (r, e) =
            poll_returns_by_body now deadline progress fuel (body (before s)).1 (omega arith) in
          (r, rw (open_, poll, more) e)
    ]
  ]

  -- A loop that returns without an error does so by a round that finishes without one.
  pub poll-eq-none :
      (fuel : ℕ) (s : S) {s' : S}
      → poll fuel ctx stopped before body s ≡ some (none, s')
      → (t : S) × (ctx t ≡ none) × (body t ≡ (finished none, s'))
  unfolding poll
  poll-eq-none zero s e = cc
  poll-eq-none (suc fuel) s e = elim (Option-cases (ctx (before s))) [
    | inr (x, done) ↦ absurd (ground arith)
    | inl open_ ↦ elim (Verdict-cases (body (before s)).0) [
      | inr (r, last) ↦ (before s, open_, ground arith)
      | inl more ↦ poll-eq-none fuel (body (before s)).1 (rw (open_, poll, more) at e)
    ]
  ]

  -- A loop that returns an error has met a context that is done, or a round that finishes with it.
  pub poll-eq-error :
      (fuel : ℕ) (s : S) {e : Error} {s' : S}
      → poll fuel ctx stopped before body s ≡ some (some e, s')
      → (t : S) × (((x : Error) × (ctx t ≡ some x) × (e ≡ stopped t x))
          ⊎ (body t ≡ (finished (some e), s')))
  unfolding poll
  poll-eq-error zero s e = cc
  poll-eq-error (suc fuel) s e = elim (Option-cases (ctx (before s))) [
    | inr (x, done) ↦ (before s, inl (x, done, ground arith))
    | inl open_ ↦ elim (Verdict-cases (body (before s)).0) [
      | inr (r, last) ↦ (before s, inr (ground arith))
      | inl more ↦ poll-eq-error fuel (body (before s)).1 (rw (open_, poll, more) at e)
    ]
  ]

-- A context with a time-out is done from its deadline on.
pub with_timeout_ends :
    {W : Type 0} (t : Target W) (d : ℕ) (ctx : Ctx W) (w v : W)
    → t.now w + d ≤ t.now v
    → with_timeout t d ctx w v ≢ none
with_timeout_ends t d ctx w v h e = ground (arith, Option-cases (ctx v))
