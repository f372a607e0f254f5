-- ===== src/Container/Cleanup/Laws.antt =====
-- What `isCleanupSafe` ignores, where the classification of errors looks through wrapped errors.
use docker_go_sdk.Common.{
  String, ◌≡◌, refl, sym, ◌∙◌, inl, inr, Bool-cases, Bool, false, ◌&&◌, ◌||◌, some, arith,
}
use docker_go_sdk.Common.Bytes.{codes}
use docker_go_sdk.GoError.{Error, sentinel, new, wrap, joined, Errors, nil, cons}
use docker_go_sdk.Container.Cleanup.{
  Errdefs, message, matches_in_progress, verdict, is_safe, all_safe, is_cleanup_safe,
}

-- Whether some error of the list passes the test.
abbrev pub any : (Error → Bool) → Errors → Bool
any test nil = false
any test (cons e es) = test e || any test es

-- The documented behaviour of errdefs: like `errors.Is`, a test looks through `fmt.Errorf` and
-- through `errors.Join`.
pub record LooksThrough (test : Error → Bool) : Type 0 where
  pub through_wrap : (text : String) (e : Error) → test (wrap text e) ≡ test e
  pub through_joined : (es : Errors) → test (joined es) ≡ any test es

-- No joined error is empty, as `errors.Join` builds them.
abbrev mutual
  pub IsBuilt : Error → Type 0
  IsBuilt (sentinel text) = Unit
  IsBuilt (new text) = Unit
  IsBuilt (wrap text e) = IsBuilt e
  IsBuilt (joined nil) = ⊥
  IsBuilt (joined (cons e es)) = IsBuilt e × AllBuilt es

  pub AllBuilt : Errors → Type 0
  AllBuilt nil = Unit
  AllBuilt (cons e es) = IsBuilt e × AllBuilt es

module _ (defs : Errdefs) (nf : LooksThrough defs.is_not_found)
    (cf : LooksThrough defs.is_conflict) where
  -- With neither class anywhere in the error, the walk finds nothing to ignore.
  is_safe_unclassified :
      (e : Error)
      → IsBuilt e
      → defs.is_not_found e ≡ false
      → defs.is_conflict e ≡ false
      → is_safe defs e ≡ false
  unfolding is_safe
  is_safe_unclassified (sentinel text) b h k = ground arith
  is_safe_unclassified (new text) b h k = ground arith
  is_safe_unclassified (wrap text e) b h k =
      let ih = is_safe_unclassified e b in
      ground (arith, nf.through_wrap text e, cf.through_wrap text e, ih)
  is_safe_unclassified (joined (cons e es)) b h k =
      let ih = is_safe_unclassified e b.0 in
      ground (arith, nf.through_joined (cons e es), cf.through_joined (cons e es), ih)
  is_safe_unclassified (joined nil) b h k = absurd b

  verdict_lem :
      (e : Error) (inner : Bool)
      → (defs.is_not_found e ≡ false → defs.is_conflict e ≡ false → inner ≡ false)
      → verdict defs e inner
        ≡ (defs.is_not_found e || (defs.is_conflict e && matches_in_progress (codes (message e))))
  unfolding verdict
  verdict_lem e inner h = elim (Bool-cases (defs.is_not_found e)) [
    | inl yes_nf ↦ rw yes_nf
    | inr no_nf ↦ elim (Bool-cases (defs.is_conflict e)) [
      | inl yes_cf ↦ rw (no_nf, yes_cf)
      | inr no_cf ↦ rw (no_nf, no_cf) (h no_nf no_cf)
    ]
  ]

  joined_unclassified :
      (e : Error) (es : Errors)
      → IsBuilt e
      → defs.is_not_found (joined (cons e es)) ≡ false
      → defs.is_conflict (joined (cons e es)) ≡ false
      → all_safe defs (cons e es) ≡ false
  unfolding is_safe
  joined_unclassified e es b h k = ground (
    arith,
    is_safe_unclassified e b,
    nf.through_joined (cons e es),
    cf.through_joined (cons e es),
  )

  -- For tests that look through wrapped and joined errors, and an error in which no joined list is
  -- empty: a termination error is ignored exactly when the error as a whole is classified as not found,
  -- or as a conflict with the message of a removal in progress: what it wraps has no say.
  pub is_cleanup_safe-eq-class :
      (e : Error)
      → IsBuilt e
      → is_cleanup_safe defs (some e)
        ≡ (defs.is_not_found e || (defs.is_conflict e && matches_in_progress (codes (message e))))
  unfolding is_cleanup_safe
  is_cleanup_safe-eq-class (sentinel text) b = verdict_lem (sentinel text) false (λ _ _. refl)
  is_cleanup_safe-eq-class (new text) b = verdict_lem (new text) false (λ _ _. refl)
  is_cleanup_safe-eq-class (wrap text e) b = verdict_lem (wrap text e) (is_safe defs e) λ h k.
      is_safe_unclassified e b (sym (nf.through_wrap text e) ∙ h) (sym (cf.through_wrap text e) ∙ k)
  is_cleanup_safe-eq-class (joined nil) b = absurd b
  is_cleanup_safe-eq-class (joined (cons e es)) b =
      verdict_lem (joined (cons e es)) (all_safe defs (cons e es)) (joined_unclassified e es b.0)
