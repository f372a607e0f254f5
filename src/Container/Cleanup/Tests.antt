-- ===== src/Container/Cleanup/Tests.antt =====
-- The laws of `isCleanupSafe` for a classification by error variables.
use docker_go_sdk.Common.{String, ◌≡◌, refl, ap, true, ◌&&◌, ◌||◌, some}
use docker_go_sdk.Common.Bytes.{codes}
use docker_go_sdk.GoError.{Error, sentinel, wrap, Errors, nil, cons, error_is, any_is}
use docker_go_sdk.Container.Cleanup.{Errdefs, message, matches_in_progress, is_cleanup_safe}
use docker_go_sdk.Container.Cleanup.Laws.{any, LooksThrough, is_cleanup_safe-eq-class}

abbrev by_name : Errdefs
by_name = record {
  is_not_found = λ e. error_is e "not found";
  is_conflict = λ e. error_is e "conflict";
}

abbrev missing : Error
missing = wrap "remove: " (sentinel "not found")

any_is-eq-any : (es : Errors) (target : String) → any_is es target ≡ any (λ e. error_is e target) es
unfolding any_is
any_is-eq-any nil target = refl
any_is-eq-any (cons e es) target = ap (λ b. error_is e target || b) (any_is-eq-any es target)

not_found-LooksThrough : LooksThrough by_name.is_not_found
unfolding error_is
not_found-LooksThrough = record {
  through_wrap = λ text e. refl;
  through_joined = λ es. any_is-eq-any es "not found";
}

conflict-LooksThrough : LooksThrough by_name.is_conflict
unfolding error_is
conflict-LooksThrough = record {
  through_wrap = λ text e. refl;
  through_joined = λ es. any_is-eq-any es "conflict";
}

in_progress_test :
    matches_in_progress (codes "removal of container c1 is already in progress") ≡ true
unfolding matches_in_progress
in_progress_test = refl

missing_is_not_found : by_name.is_not_found missing ≡ true
unfolding error_is
missing_is_not_found = refl

is_cleanup_safe-class_example : is_cleanup_safe by_name (some missing) ≡ (
    by_name.is_not_found missing
    || (by_name.is_conflict missing && matches_in_progress (codes (message missing))))
is_cleanup_safe-class_example =
    is_cleanup_safe-eq-class by_name not_found-LooksThrough conflict-LooksThrough missing tt
