-- ===== src/Container/Definition/Mounts.antt =====
-- When the mounts of a definition are valid, and what a definition that `Run` accepts has.
use mathlib.Core.Path.{subst}
use docker_go_sdk.Common.{
  ◌≡◌, refl, sym, ◌∙◌, ◌≢◌, ◌↔◌, false, Option, none, some, List, [], ◌∷◌, arith, All, Option-cases,
  eq_iff,
}
use docker_go_sdk.Common.Bytes.{Bytes}
use docker_go_sdk.Common.Bytes.Laws.{bytes_eq_iff}
use docker_go_sdk.Container.Definition.{
  Definition, is_seen, check_target, bind_target, validate_binds, validate_mounts, validate,
  run_validation, validate_from, validated, define, customize, new_definition, image_required,
  mounts,
}
use docker_go_sdk.Container.Host.{HostConfig, empty_host_config}
use docker_go_sdk.GoError.{Error, Result, ok, err, wrap, join, present}
use docker_go_sdk.Lifecycle.{Hook}

-- Each bind has two or three parts, and its target is none of the given ones and none of the
-- targets before it.
abbrev pub AreValid : List Bytes → List Bytes → Type 0
AreValid [] targets = Unit
AreValid (bind ∷ binds) targets =
    (target : Bytes) × (bind_target bind ≡ some target)
    × All (λ t. target ≢ t) targets
    × AreValid binds (target ∷ targets)

is_seen-eq-false_iff :
    (target : Bytes) (targets : List Bytes)
    → (is_seen target targets ≡ false) ↔ All (λ t. target ≢ t) targets
unfolding is_seen
is_seen-eq-false_iff target [] = (λ _. tt, λ _. refl)
is_seen-eq-false_iff target (t ∷ targets) =
    let (to, from) = is_seen-eq-false_iff target targets in
    let (sound, complete) = bytes_eq_iff target t in
    (
      λ h. ((λ e. ground (arith, complete e)), to (ground arith)),
      λ h. ground (arith, sound, from h.1, h.0),
    )

some_injective : {a b : Bytes} → some a ≡ some b → a ≡ b
some_injective h = cc

valid_bind :
    (bind : Bytes) (binds targets : List Bytes) (found : Option Bytes)
    → bind_target bind ≡ found
    → ((t : Bytes) → (validate_binds binds (t ∷ targets) ≡ none) ↔ AreValid binds (t ∷ targets))
    → (check_target found targets (validate_binds binds) ≡ none) ↔ AreValid (bind ∷ binds) targets
valid_bind bind binds targets none found rest_iff = ((λ h. cc), λ (t, e, fresh, rest). cc)
valid_bind bind binds targets (some target) found rest_iff =
    let (unseen, seen) = is_seen-eq-false_iff target targets in
    let (to, from) = rest_iff target in
    (
      λ h. (target, found, unseen (ground arith), to (ground arith)),
      λ (t, e, fresh, rest).
          let same = some_injective (sym e ∙ found) in
          ground (
            arith,
            seen (subst (λ x. All (λ u. x ≢ u) targets) same fresh),
            from (subst (λ x. AreValid binds (x ∷ targets)) same rest),
          ),
    )

-- The loop returns no error exactly when the binds are valid.
validate_binds-eq-none_iff :
    (binds targets : List Bytes) → (validate_binds binds targets ≡ none) ↔ AreValid binds targets
unfolding validate_binds
validate_binds-eq-none_iff [] targets = (λ _. tt, λ _. refl)
validate_binds-eq-none_iff (bind ∷ binds) targets =
    valid_bind bind binds targets (bind_target bind) refl
      (λ t. validate_binds-eq-none_iff binds (t ∷ targets))

-- The binds that the definition's modifier leaves in an empty configuration.
abbrev pub binds_of : {H F L C : Type 0} → Definition H F L C → List Bytes
binds_of d = elim d.host_config_modifier [
  | none ↦ []
  | some modifier ↦ (modifier empty_host_config).binds
]

module _ {H F L C : Type 0} where
  -- `validateMounts` returns no error exactly when each bind has two or three parts and no two
  -- binds have the same target.
  pub validate_mounts-eq-none_iff :
      (d : Definition H F L C) → (validate_mounts d ≡ none) ↔ AreValid (binds_of d) []
  unfolding validate_mounts
  validate_mounts-eq-none_iff d = of_modifier d.host_config_modifier
    where
      of_modifier :
          (m : Option (HostConfig → HostConfig))
          → (elim m [
            | none ↦ none
            | some modifier ↦ validate_binds (modifier empty_host_config).binds []
          ]
              ≡ none)
            ↔ AreValid
                (elim m [ none ↦ [] | some modifier ↦ (modifier empty_host_config).binds ])
                []
      of_modifier none = (λ _. tt, λ _. refl)
      of_modifier (some modifier) = validate_binds-eq-none_iff (modifier empty_host_config).binds []

  ok_injective : {a b : Definition H F L C} → ok a ≡ ok b → a ≡ b
  ok_injective h = cc

  after_validation :
      (d' d : Definition H F L C) (v : Option Error)
      → validate d' ≡ v
      → elim v [ none ↦ ok d' | some e ↦ err (wrap "validate: " e) ] ≡ ok d
      → validate d ≡ none
  after_validation d' d none passed h = subst (λ x. validate x ≡ none) (ok_injective h) passed
  after_validation d' d (some e) passed h = cc

  validated_ok :
      (r : Result (Definition H F L C)) (d : Definition H F L C)
      → validated r ≡ ok d
      → validate d ≡ none
  validated_ok (err e) d h = cc
  validated_ok (ok d') d h = after_validation d' d (validate d') refl h

  default_validations :
      (d : Definition H F L C)
      → validate_from [] (image_required ∷ mounts ∷ []) d ≡ none
      → (d.image ≢ "") × (validate_mounts d ≡ none)
  unfolding validate_from run_validation join present
  default_validations d h = (
    (λ e. ground (arith, eq_iff d.image "", Option-cases (validate_mounts d))),
    ground (arith, Option-cases (validate_mounts d)),
  )

  -- If `Run` accepts its options, and they leave the validate functions as they are, then the
  -- definition has an image, and its binds are valid.
  pub define-IsValid :
      (opts : List (Hook (Definition H F L C))) (d : Definition H F L C)
      → define opts ≡ ok d
      → d.validate_funcs ≡ image_required ∷ mounts ∷ []
      → (d.image ≢ "") × AreValid (binds_of d) []
  unfolding define validate
  define-IsValid opts d h kept =
      let passed = validated_ok (customize opts new_definition) d h in
      let (image, mounted) =
        default_validations d (subst (λ fns. validate_from [] fns d ≡ none) kept passed) in
      (image, (validate_mounts-eq-none_iff d).0 mounted)
