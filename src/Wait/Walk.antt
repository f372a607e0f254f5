-- ===== src/Wait/Walk.antt =====
-- container/wait/walk.go. The visitor is a function of the node and of a state of its own; it does
-- not change the nodes. A tree is walked in which no node is shared.
pub mod Laws
use docker_go_sdk.Common.{ℕ, String, Option, none, some, if◌then◌else◌}
use docker_go_sdk.GoError.{Error, sentinel, new, error_is}
use docker_go_sdk.Wait.{Strategy, leaf, multi, Strategies, nil, null, cons}

abbrev pub err_visit_stop : String
err_visit_stop = "stop the walk"

abbrev pub err_visit_remove : String
err_visit_remove = "remove this strategy"

abbrev pub VisitFunc : Type 0 → Type 0 → Type 0
VisitFunc L V = Strategy L → V → Option Error × V

-- The error, what is left at the visited place, and the visitor's state.
abbrev pub Walked : Type 0 → Type 0 → Type 0
Walked L V = Option Error × Option (Strategy L) × V

abbrev pub WalkedAll : Type 0 → Type 0 → Type 0
WalkedAll L V = Option Error × Strategies L × V

-- `s.Strategies[i] = s'`, then the entries behind it.
abbrev pub put_back : {L : Type 0} → Option (Strategy L) → Strategies L → Strategies L
put_back none rest = null rest
put_back (some s) rest = cons s rest

module _ {L V : Type 0} where
  abbrev attach : Option (Strategy L) → WalkedAll L V → WalkedAll L V
  attach s (e, rest, v) = (e, put_back s rest, v)

  abbrev attach_null : WalkedAll L V → WalkedAll L V
  attach_null (e, rest, v) = (e, null rest, v)

  -- After the walk of one entry: `rest` are the entries behind it, and `continue` is the walk of
  -- these.
  after_child : Walked L V → Strategies L → (V → WalkedAll L V) → WalkedAll L V
  after_child (none, s, v) rest continue = attach s (continue v)
  after_child (some e, s, v) rest continue =
      if error_is e err_visit_remove
      then (if error_is e err_visit_stop
          then (some (sentinel err_visit_stop), rest, v)
          else continue v)
      else (some e, put_back s rest, v)

  abbrev rebuild : Option ℕ → Option ℕ → WalkedAll L V → Walked L V
  rebuild timeout deadline (e, children, v) = (e, some (multi timeout deadline children), v)

  -- After the visit of a node: an error ends the walk of the node, otherwise `descend` walks on.
  after_visit : Strategy L → Option Error × V → (V → Walked L V) → Walked L V
  after_visit s (none, v) descend = descend v
  after_visit s (some e, v) descend =
      (some e, (if error_is e err_visit_remove then none else some s), v)

  module _ (visit : VisitFunc L V) where
    unfoldable mutual
      unfolding after_child after_visit

      pub walk_node : Strategy L → V → Walked L V
      walk_node (leaf l) v =
          after_visit (leaf l) (visit (leaf l) v) (λ v'. (none, some (leaf l), v'))
      walk_node (multi timeout deadline children) v =
          after_visit (multi timeout deadline children) (visit (multi timeout deadline children) v)
            (λ v'. rebuild timeout deadline (walk_children children v'))

      -- The loop over `s.Strategies`.
      pub walk_children : Strategies L → V → WalkedAll L V
      walk_children nil v = (none, nil, v)
      walk_children (null rest) v = attach_null (walk_children rest v)
      walk_children (cons s rest) v = after_child (walk_node s v) rest (walk_children rest)

    -- `walk`, where the place that `root` points to holds nil or a strategy.
    unfoldable pub walk : Option (Strategy L) → V → Walked L V
    unfolding walk_node
    walk none v = (none, none, v)
    walk (some s) v = walk_node s v

    abbrev forget_control : Walked L V → Walked L V
    forget_control (none, s, v) = (none, s, v)
    forget_control (some e, s, v) = (
      (if error_is e err_visit_remove
          then none
          else if error_is e err_visit_stop
          then none
          else some e),
      s,
      v,
    )

    -- `Walk`; the outer `none` is a nil pointer.
    unfoldable pub walk_from : Option (Option (Strategy L)) → V → Walked L V
    unfolding walk
    walk_from none v = (some (new "root strategy is nil"), none, v)
    walk_from (some root) v = forget_control (walk root v)
