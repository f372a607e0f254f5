-- ===== src/Wait/All/Laws.antt =====
-- A wait for several strategies reports that its context is done, and passes over nil entries.
use docker_go_sdk.Common.{
  ℕ, ◌≤◌, ◌≡◌, ◌≢◌, inl, inr, Bool, true, false, ◌||◌, Option, none, some, arith, Bool-cases,
  Option-cases,
}
use docker_go_sdk.Wait.{Strategy, leaf, multi, Strategies, nil, null, cons}
use docker_go_sdk.Wait.Target.{Target, Ctx}
use docker_go_sdk.Wait.All.{
  Leaves, limit, own_timeout, given_timeout, wait_until_ready, wait_for_all,
}

-- Whether the walk of the tree reaches a leaf, or a list with no entries.
abbrev mutual
  pub has_leaf : {L : Type 0} → Strategy L → Bool
  has_leaf (leaf l) = true
  has_leaf (multi t d nil) = true
  has_leaf (multi t d (null rest)) = some_leaf rest
  has_leaf (multi t d (cons s rest)) = has_leaf s || some_leaf rest

  pub some_leaf : {L : Type 0} → Strategies L → Bool
  some_leaf nil = false
  some_leaf (null rest) = some_leaf rest
  some_leaf (cons s rest) = has_leaf s || some_leaf rest

module _ {L W : Type 0} (t : Target W) (leaves : Leaves L W) where
  -- The context is done, and stays so.
  abbrev pub Done : Ctx W → W → Type 0
  Done ctx w = (v : W) → t.now w ≤ t.now v → ctx v ≢ none

  -- A leaf reports an error if its context is done, and the clock does not run backwards.
  pub record Punctual : Type 0 where
    pub reports : (l : L) (ctx : Ctx W) (w : W) → Done ctx w → (leaves.wait l ctx w).0 ≢ none
    pub forward : (l : L) (ctx : Ctx W) (w : W) → t.now w ≤ t.now (leaves.wait l ctx w).1

  Done-later : (ctx : Ctx W) (w w' : W) → t.now w ≤ t.now w' → Done ctx w → Done ctx w'
  Done-later ctx w w' h done v k = done v (omega arith)

  Done-limit : (d : Option ℕ) (ctx : Ctx W) (v w : W) → Done ctx w → Done (limit t d ctx v) w
  Done-limit none ctx v w done u h = done u h
  Done-limit (some d) ctx v w done u h = ground (arith, done u h)

  mutual
    unfolding wait_until_ready

    node_forward :
        (s : Strategy L)
        → Punctual
        → (ctx : Ctx W) (w : W) → t.now w ≤ t.now (wait_until_ready t leaves s ctx w).1
    node_forward (leaf l) p ctx w = p.forward l ctx w
    node_forward (multi timeout deadline nil) p ctx w = omega arith
    node_forward (multi timeout deadline (null rest)) p ctx w =
        all_forward rest p timeout (limit t deadline ctx w) w
    node_forward (multi timeout deadline (cons s rest)) p ctx w =
        all_forward (cons s rest) p timeout (limit t deadline ctx w) w

    all_forward :
        (ss : Strategies L)
        → Punctual
        → (timeout : Option ℕ) (ctx : Ctx W) (w : W)
        → t.now w ≤ t.now (wait_for_all t leaves ss timeout ctx w).1
    all_forward nil p timeout ctx w = omega arith
    all_forward (null rest) p timeout ctx w = all_forward rest p timeout ctx w
    all_forward (cons s rest) p timeout ctx w =
        let own = limit t (given_timeout timeout (own_timeout leaves s)) ctx w in
        ground (
          arith,
          node_forward s p own w,
          all_forward rest p timeout ctx (wait_until_ready t leaves s own w).1,
        )

  mutual
    unfolding wait_until_ready

    node_reports :
        (s : Strategy L)
        → Punctual
        → (ctx : Ctx W) (w : W) → has_leaf s ≡ true
        → Done ctx w
        → (wait_until_ready t leaves s ctx w).0 ≢ none
    node_reports (leaf l) p ctx w h done = p.reports l ctx w done
    node_reports (multi timeout deadline nil) p ctx w h done = cc
    node_reports (multi timeout deadline (null rest)) p ctx w h done =
        all_reports rest p timeout (limit t deadline ctx w) w h (Done-limit deadline ctx w w done)
    node_reports (multi timeout deadline (cons s rest)) p ctx w h done =
        all_reports (cons s rest) p timeout (limit t deadline ctx w) w h
          (Done-limit deadline ctx w w done)

    all_reports :
        (ss : Strategies L)
        → Punctual
        → (timeout : Option ℕ) (ctx : Ctx W) (w : W) → some_leaf ss ≡ true
        → Done ctx w
        → (wait_for_all t leaves ss timeout ctx w).0 ≢ none
    all_reports nil p timeout ctx w h done = cc
    all_reports (null rest) p timeout ctx w h done = all_reports rest p timeout ctx w h done
    all_reports (cons s rest) p timeout ctx w h done =
        let own = given_timeout timeout (own_timeout leaves s) in
        let ctx' = limit t own ctx w in
        let w' = (wait_until_ready t leaves s ctx' w).1 in
        let later = Done-later ctx w w' (node_forward s p ctx' w) done in
        elim (Option-cases (wait_until_ready t leaves s ctx' w).0) [
          | inr (e, failed) ↦ rw (failed, wait_for_all) (cc)
          | inl fine ↦ elim (Bool-cases (has_leaf s)) [
            | inl here ↦ absurd (node_reports s p ctx' w here (Done-limit own ctx w w done) fine)
            | inr elsewhere ↦
                rw (fine, wait_for_all)
                  (all_reports rest p timeout ctx w' (rw elsewhere at h) later)
          ]
        ]

  -- Where the context is done already, the wait for a tree of strategies reports an error, unless
  -- no leaf and no empty list is in reach: for leaves that report it themselves, under a clock
  -- that does not run backwards.
  pub wait_until_ready_reports :
      Punctual
      → (s : Strategy L) (ctx : Ctx W) (w : W) → has_leaf s ≡ true
      → Done ctx w
      → (wait_until_ready t leaves s ctx w).0 ≢ none
  wait_until_ready_reports p s ctx w h done = node_reports s p ctx w h done
