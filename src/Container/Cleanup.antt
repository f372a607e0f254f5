-- ===== src/Container/Cleanup.antt =====
-- container/testing.go: which errors of a termination are ignored.
pub mod Laws
mod Tests
use Prim.Native.String
use docker_go_sdk.Common.{
  ℕ, String, ◌≡◌, Bool, true, false, ◌&&◌, ◌||◌, Option, none, some, [], ◌∷◌, ◌==◌, if◌then◌else◌,
}
use docker_go_sdk.Common.Bytes.{Bytes, codes, cut_prefix, has_prefix}
use docker_go_sdk.GoError.{Error, sentinel, new, wrap, joined, Errors, nil, cons}

-- The classification of errors by github.com/containerd/errdefs, which is not part of the
-- repository.
pub record Errdefs : Type 0 where
  pub is_not_found : Error → Bool
  pub is_conflict : Error → Bool

-- `err.Error()`; `errors.Join` puts each message on a line.
unfoldable mutual
  pub message : Error → String
  message (sentinel text) = text
  message (new text) = text
  message (wrap text e) = String.◌++◌ text (message e)
  message (joined es) = messages es

  pub messages : Errors → String
  messages nil = ""
  messages (cons e es) = String.◌++◌ (message e) (next_messages es)

  pub next_messages : Errors → String
  next_messages nil = ""
  next_messages (cons e es) = String.◌++◌ "\n" (String.◌++◌ (message e) (next_messages es))

-- `.* is already in progress`, from the given position on; a dot matches no newline.
in_progress_after : Bytes → Bool
in_progress_after [] = false
in_progress_after (c ∷ s) =
    let later = in_progress_after s in
    has_prefix (codes " is already in progress") (c ∷ s) || (if c == 0xa then false else later)

abbrev after_prefix : Option Bytes → Bool
after_prefix none = false
after_prefix (some rest) = in_progress_after rest

-- `errAlreadyInProgress.MatchString`
pub matches_in_progress : Bytes → Bool
unfolding in_progress_after cut_prefix
matches_in_progress [] = false
matches_in_progress (c ∷ s) =
    after_prefix (cut_prefix (codes "removal of container ") (c ∷ s)) || matches_in_progress s

module _ (defs : Errdefs) where
  -- The tests on the error itself, and the verdict on what it wraps.
  verdict : Error → Bool → Bool
  verdict e inner =
      if defs.is_not_found e
      then true
      else if defs.is_conflict e
      then matches_in_progress (codes (message e))
      else inner

  -- `isCleanupSafe` for an error that is not nil. No error value of the model has a method
  -- `Cause`.
  unfoldable mutual
    unfolding verdict matches_in_progress message

    pub is_safe : Error → Bool
    is_safe (sentinel text) = verdict (sentinel text) false
    is_safe (new text) = verdict (new text) false
    is_safe (wrap text e) = verdict (wrap text e) (is_safe e)
    is_safe (joined es) = verdict (joined es) (all_safe es)

    pub all_safe : Errors → Bool
    all_safe nil = true
    all_safe (cons e es) = is_safe e && all_safe es

  unfoldable pub is_cleanup_safe : Option Error → Bool
  unfolding is_safe
  is_cleanup_safe none = true
  is_cleanup_safe (some e) = is_safe e
