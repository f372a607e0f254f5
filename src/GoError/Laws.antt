-- ===== src/GoError/Laws.antt =====
-- When `errors.Join` returns nil.
use docker_go_sdk.Common.{◌≡◌, refl, ◌↔◌, Option, none, some, List, [], ◌∷◌, ◌++◌, arith, All}
use docker_go_sdk.GoError.{Error, nil, present, join, Result, ok, err, both}

abbrev pub IsNone {ℓ} : {A : Type ℓ} → Option A → Type ℓ
IsNone o = o ≡ none

present-eq-nil_iff : (errs : List (Option Error)) → (present errs ≡ nil) ↔ All IsNone errs
unfolding present
present-eq-nil_iff [] = (λ _. tt, λ _. refl)
present-eq-nil_iff (none ∷ errs) =
    let (to, from) = present-eq-nil_iff errs in (λ e. (refl, to e), λ h. from h.1)
present-eq-nil_iff (some x ∷ errs) = ((λ e. cc), λ h. cc)

join_nil : (errs : List (Option Error)) → (join errs ≡ none) ↔ (present errs ≡ nil)
unfolding join
join_nil errs = ground arith

pub join-eq-none_iff : (errs : List (Option Error)) → (join errs ≡ none) ↔ All IsNone errs
join-eq-none_iff errs =
    let (to, from) = join_nil errs in
    let (up, down) = present-eq-nil_iff errs in (λ e. up (to e), λ h. from (down h))

pub both_inv :
    {A : Type 0} (r s : Result (List A)) (zs : List A)
    → both r s ≡ ok zs
    → (xs : List A) × (ys : List A) × (r ≡ ok xs) × (s ≡ ok ys) × (zs ≡ xs ++ ys)
both_inv (err e) s zs h = absurd (cc h)
both_inv (ok xs) (err e) zs h = absurd (cc h)
both_inv (ok xs) (ok ys) zs h = (xs, ys, refl, refl, cc h)

pub ok_injective {ℓ} : {A : Type ℓ} {a b : A} → ok a ≡ ok b → a ≡ b
ok_injective h = cc
