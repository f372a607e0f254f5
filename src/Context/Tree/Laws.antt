-- ===== src/Context/Tree/Laws.antt =====
-- Entries that are put into a directory and dropped from it.
use docker_go_sdk.Common.{
  String, ◌≡◌, refl, Bool, none, some, arith, eq_iff, eq_refl, str_eq, if◌then◌else◌,
}
use docker_go_sdk.Context.Tree.{Node, Entries, nil, entry, find, put, drop}

module _ (less : String → String → Bool) where
  pub find-put :
      (asked k : String) (n : Node) (es : Entries)
      → find asked (put less k n es) ≡ (if str_eq k asked then some n else find asked es)
  unfolding find put
  find-put asked k n nil = refl
  find-put asked k n (entry j m es) =
      ground (arith, find-put asked k n es, eq_iff j k, eq_iff k asked, eq_iff j asked)

  -- Twice the same name: the second is what stays.
  pub put-put :
      (k : String) (n n' : Node) (es : Entries) → put less k n' (put less k n es) ≡ put less k n' es
  unfolding put
  put-put k n n' nil = ground (arith, eq_refl k)
  put-put k n n' (entry j m es) = ground (arith, put-put k n n' es, eq_refl k, eq_iff j k)

  pub drop-absent : (k : String) (es : Entries) → find k es ≡ none → drop k es ≡ es
  unfolding find drop
  drop-absent k nil h = refl
  drop-absent k (entry j m es) h = ground (arith, drop-absent k es, eq_iff j k)

  pub drop-put :
      (k : String) (n : Node) (es : Entries) → find k es ≡ none → drop k (put less k n es) ≡ es
  unfolding find drop put
  drop-put k n nil h = ground (arith, eq_refl k)
  drop-put k n (entry j m es) h =
      ground (arith, drop-put k n es, drop-absent k es, eq_refl k, eq_iff j k)
