-- ===== src/Wait/Walk/Laws.antt =====
-- What a walk visits, and what it leaves of the tree.
use docker_go_sdk.Common.{
  ◌≡◌, refl, Bool, true, false, ◌||◌, Option, none, some, List, [], ◌∷◌, ◌++◌, append_assoc,
  append-nil, arith, if◌then◌else◌, Bool-cases, inl, inr, ◌⊎◌,
}
use docker_go_sdk.GoError.{Error, sentinel, error_is}
use docker_go_sdk.Wait.{Strategy, leaf, multi, Strategies, nil, null, cons}
use docker_go_sdk.Wait.Walk.{
  err_visit_stop, err_visit_remove, VisitFunc, walk_node, walk_children, walk_from,
}

module _ {L : Type 0} where
  -- The nodes of a tree, each before its children.
  abbrev mutual
    pub preorder : Strategy L → List (Strategy L)
    preorder (leaf l) = leaf l ∷ []
    preorder (multi t d children) = multi t d children ∷ preorder_all children

    pub preorder_all : Strategies L → List (Strategy L)
    preorder_all nil = []
    preorder_all (null rest) = preorder_all rest
    preorder_all (cons s rest) = preorder s ++ preorder_all rest

  abbrev pub keep : Option (Strategy L) → Strategies L → Strategies L
  keep none rest = rest
  keep (some s) rest = cons s rest

  -- The tree without the nodes that are to be removed, and without what stands below them.
  abbrev mutual
    pub prune : (Strategy L → Bool) → Strategy L → Option (Strategy L)
    prune removed (leaf l) = if removed (leaf l) then none else some (leaf l)
    prune removed (multi t d children) =
        if removed (multi t d children) then none else some (multi t d (prune_all removed children))

    pub prune_all : (Strategy L → Bool) → Strategies L → Strategies L
    prune_all removed nil = nil
    prune_all removed (null rest) = null (prune_all removed rest)
    prune_all removed (cons s rest) = keep (prune removed s) (prune_all removed rest)

  -- The nodes that are reached from above by nodes that stay, each before its children; a node that is
  -- to be removed is one of them, and what stands below it is not.
  abbrev mutual
    pub reached : (Strategy L → Bool) → Strategy L → List (Strategy L)
    reached removed (leaf l) = leaf l ∷ []
    reached removed (multi t d children) =
        multi t d children
        ∷ (if removed (multi t d children) then [] else reached_all removed children)

    pub reached_all : (Strategy L → Bool) → Strategies L → List (Strategy L)
    reached_all removed nil = []
    reached_all removed (null rest) = reached_all removed rest
    reached_all removed (cons s rest) = reached removed s ++ reached_all removed rest

remove_is_remove : error_is (sentinel err_visit_remove) err_visit_remove ≡ true
unfolding error_is
remove_is_remove = refl

remove_is_no_stop : error_is (sentinel err_visit_remove) err_visit_stop ≡ false
unfolding error_is
remove_is_no_stop = refl

stop_is_stop : error_is (sentinel err_visit_stop) err_visit_stop ≡ true
unfolding error_is
stop_is_stop = refl

stop_is_no_remove : error_is (sentinel err_visit_stop) err_visit_remove ≡ false
unfolding error_is
stop_is_no_remove = refl

abbrev pub removal : {L : Type 0} → (Strategy L → Bool) → Strategy L → Option Error
removal removed s = if removed s then some (sentinel err_visit_remove) else none

module _ {L : Type 0} (removed : Strategy L → Bool) where
  prune-cases :
      (s : Strategy L)
      → ((removed s ≡ true) × (prune removed s ≡ none))
        ⊎ ((s' : Strategy L) × (removed s ≡ false) × (prune removed s ≡ some s'))
  prune-cases (leaf l) = elim (Bool-cases (removed (leaf l))) [
    | inl gone ↦ inl (gone, rw gone)
    | inr kept ↦ inr (leaf l, kept, rw kept)
  ]
  prune-cases (multi t d children) = elim (Bool-cases (removed (multi t d children))) [
    | inl gone ↦ inl (gone, rw gone)
    | inr kept ↦ inr (multi t d (prune_all removed children), kept, rw kept)
  ]

module _ {L : Type 0} (removed : Strategy L → Bool) where
  -- A visitor that notes each node, and asks for the removal of some.
  abbrev pub removing : VisitFunc L (List (Strategy L))
  removing s seen = (removal removed s, seen ++ s ∷ [])

  mutual
    unfolding walk_node

    node-prune :
        (s : Strategy L) (seen : List (Strategy L))
        → walk_node removing s seen
          ≡ (removal removed s, prune removed s, seen ++ reached removed s)
    node-prune (leaf l) seen = ground (arith, remove_is_remove)
    node-prune (multi t d children) seen = ground (
      arith,
      remove_is_remove,
      children-prune children (seen ++ multi t d children ∷ []),
      append_assoc seen (multi t d children ∷ []) (reached_all removed children),
    )

    children-prune :
        (ss : Strategies L) (seen : List (Strategy L))
        → walk_children removing ss seen
          ≡ (none, prune_all removed ss, seen ++ reached_all removed ss)
    children-prune nil seen = rw (append-nil seen)
    children-prune (null rest) seen = rw (children-prune rest seen)
    children-prune (cons s rest) seen = ground (
      arith,
      remove_is_remove,
      remove_is_no_stop,
      prune-cases removed s,
      node-prune s seen,
      children-prune rest (seen ++ reached removed s),
      append_assoc seen (reached removed s) (reached_all removed rest),
    )

  -- A walk whose visitor asks for the removal of some nodes returns no error and leaves the tree
  -- without these nodes and what stands below them, with its nil entries. It visits each node with no
  -- such node above it, once and in preorder, and no other: below a removed node nothing is visited.
  pub walk_from-prune :
      (root : Strategy L) (seen : List (Strategy L))
      → walk_from removing (some (some root)) seen
        ≡ (none, prune removed root, seen ++ reached removed root)
  unfolding walk_from
  walk_from-prune root seen = ground (arith, remove_is_remove, node-prune root seen)

module _ {L : Type 0} (last : Strategy L → Bool) where
  -- A visitor that notes each node, and stops the walk at some of them.
  abbrev pub stopping : VisitFunc L (List (Strategy L))
  stopping s seen = (if last s then some (sentinel err_visit_stop) else none, seen ++ s ∷ [])

  abbrev pub any : List (Strategy L) → Bool
  any [] = false
  any (s ∷ ss) = last s || any ss

  -- The list up to and with its first stop.
  abbrev pub up_to : List (Strategy L) → List (Strategy L)
  up_to [] = []
  up_to (s ∷ ss) = s ∷ (if last s then [] else up_to ss)

  abbrev stop_if : Bool → Option Error
  stop_if b = if b then some (sentinel err_visit_stop) else none

  any-append : (xs ys : List (Strategy L)) → any (xs ++ ys) ≡ (any xs || any ys)
  any-append [] ys = refl
  any-append (x ∷ xs) ys = ground (arith, any-append xs ys)

  up_to-append :
      (xs ys : List (Strategy L))
      → up_to (xs ++ ys) ≡ (if any xs then up_to xs else up_to xs ++ up_to ys)
  up_to-append [] ys = refl
  up_to-append (x ∷ xs) ys = ground (arith, up_to-append xs ys)

  mutual
    unfolding walk_node

    node-up_to :
        (s : Strategy L) (seen : List (Strategy L))
        → walk_node stopping s seen
          ≡ (stop_if (any (preorder s)), some s, seen ++ up_to (preorder s))
    node-up_to (leaf l) seen = ground (arith, stop_is_no_remove)
    node-up_to (multi t d children) seen = ground (
      arith,
      stop_is_no_remove,
      children-up_to children (seen ++ multi t d children ∷ []),
      append_assoc seen (multi t d children ∷ []) (up_to (preorder_all children)),
    )

    children-up_to :
        (ss : Strategies L) (seen : List (Strategy L))
        → walk_children stopping ss seen
          ≡ (stop_if (any (preorder_all ss)), ss, seen ++ up_to (preorder_all ss))
    children-up_to nil seen = rw (append-nil seen)
    children-up_to (null rest) seen = rw (children-up_to rest seen)
    children-up_to (cons s rest) seen = ground (
      arith,
      stop_is_no_remove,
      node-up_to s seen,
      children-up_to rest (seen ++ up_to (preorder s)),
      any-append (preorder s) (preorder_all rest),
      up_to-append (preorder s) (preorder_all rest),
      append_assoc seen (up_to (preorder s)) (up_to (preorder_all rest)),
    )

  -- A walk visits the nodes in preorder, up to and with the first at which the visitor stops it,
  -- and all of them if there is none; it returns no error and leaves the tree as it was.
  pub walk_from-up_to :
      (root : Strategy L) (seen : List (Strategy L))
      → walk_from stopping (some (some root)) seen
        ≡ (none, some root, seen ++ up_to (preorder root))
  unfolding walk_from
  walk_from-up_to root seen = ground (arith, stop_is_no_remove, stop_is_stop, node-up_to root seen)
