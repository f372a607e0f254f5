-- ===== src/Container/Files/Laws.antt =====
-- Which files an archive of a directory has.
use docker_go_sdk.Common.{
  ℕ, String, ◌≡◌, refl, sym, ap, ◌∙◌, ◌⊎◌, inl, inr, Option, none, some, List, [], ◌∷◌, ◌++◌,
  append_assoc, append-nil, All, All-append, All-map, Contains, Contains-left, Contains-right,
}
use docker_go_sdk.Common.Bytes.{Bytes}
use docker_go_sdk.Container.Files.{
  HostNode, regular, symlink, folder, failing, HostNodes, nil, cons, TarEntry, tar_node, tar_nodes,
}
use docker_go_sdk.GoError.{ok, err}
use docker_go_sdk.GoError.Laws.{both_inv, ok_injective}

-- At the path, which goes through no symbolic link, the tree has a regular file with these contents, or,
-- where there are none, a directory.
unfoldable mutual
  pub Holds : HostNode → List String → Option Bytes → Type 0
  Holds (regular r) path content = (path ≡ []) × (b : Bytes) × (r ≡ ok (ok b)) × (content ≡ some b)
  Holds symlink path content = ⊥
  Holds (folder nodes) path content = ((path ≡ []) × (content ≡ none)) ⊎ HoldsIn nodes path content
  Holds (failing e) path content = ⊥

  pub HoldsIn : HostNodes → List String → Option Bytes → Type 0
  HoldsIn nil path content = ⊥
  HoldsIn (cons k node nodes) path content =
      ((rest : List String) × (path ≡ k ∷ rest) × Holds node rest content)
      ⊎ HoldsIn nodes path content

-- The entry of what is at a path below the named node.
abbrev pub entry_at : ℕ → List String → List String → Option Bytes → TarEntry
entry_at mode name path content = record { name = name ++ path; mode = mode; content = content }

-- The entry is that of a directory or a file that the tree has.
abbrev pub IsFrom : ℕ → List String → HostNode → TarEntry → Type 0
IsFrom mode name node e =
    (path : List String) × (content : Option Bytes) × (e ≡ entry_at mode name path content)
    × Holds node path content

-- The same below a directory.
abbrev pub IsBelow : ℕ → List String → HostNodes → TarEntry → Type 0
IsBelow mode name nodes e =
    (path : List String) × (content : Option Bytes) × (e ≡ entry_at mode name path content)
    × HoldsIn nodes path content

abbrev folder_entry : ℕ → List String → TarEntry
folder_entry mode name = record { name = name; mode = mode; content = none }

split_cons :
    (mode : ℕ) (name : List String) (k : String) (node : HostNode) (nodes : HostNodes)
    → (entries : List TarEntry) → tar_nodes mode name (cons k node nodes) ≡ ok entries
    → (xs : List TarEntry) × (ys : List TarEntry) × (tar_node mode (name ++ k ∷ []) node ≡ ok xs)
      × (tar_nodes mode name nodes ≡ ok ys)
      × (entries ≡ xs ++ ys)
unfolding tar_nodes
split_cons mode name k node nodes entries h =
    both_inv (tar_node mode (name ++ k ∷ []) node) (tar_nodes mode name nodes) entries h

IsFrom-child :
    (mode : ℕ) (name : List String) (k : String) (node : HostNode) (nodes : HostNodes)
    (e : TarEntry)
    → IsFrom mode (name ++ k ∷ []) node e
    → IsBelow mode name (cons k node nodes) e
unfolding Holds
IsFrom-child mode name k node nodes e (path, content, eq, holds) = (
  k ∷ path,
  content,
  eq
      ∙ ap (λ n. record { name = n; mode = mode; content = content })
          (append_assoc name (k ∷ []) path),
  inl (path, refl, holds),
)

IsBelow-rest :
    (mode : ℕ) (name : List String) (k : String) (node : HostNode) (nodes : HostNodes)
    (e : TarEntry)
    → IsBelow mode name nodes e
    → IsBelow mode name (cons k node nodes) e
unfolding Holds
IsBelow-rest mode name k node nodes e (path, content, eq, holds) = (path, content, eq, inr holds)

IsBelow-folder :
    (mode : ℕ) (name : List String) (nodes : HostNodes) (e : TarEntry)
    → IsBelow mode name nodes e
    → IsFrom mode name (folder nodes) e
unfolding Holds
IsBelow-folder mode name nodes e (path, content, eq, holds) = (path, content, eq, inr holds)

named_entry :
    (mode : ℕ) (name : List String) (content : Option Bytes)
    → record { name = name; mode = mode; content = content } ≡ entry_at mode name [] content
named_entry mode name content =
    ap (λ n. record { name = n; mode = mode; content = content }) (sym (append-nil name))

mutual
  unfolding tar_node Holds

  tar_node_complete :
      (mode : ℕ) (name : List String) (node : HostNode) (entries : List TarEntry)
      → (path : List String) (content : Option Bytes) → tar_node mode name node ≡ ok entries
      → Holds node path content
      → Contains (entry_at mode name path content) entries
  tar_node_complete mode name (regular (ok (ok bytes))) entries path content h (e, b, r, c) =
      let same = ok_injective (ok_injective r) in
      rw (sym (ok_injective h))
        (inl (rw (e, c, sym same) (sym (named_entry mode name (some bytes)))))
  tar_node_complete mode name (regular (ok (err x))) entries path content h (e, b, r, c) = absurd cc
  tar_node_complete mode name (regular (err x)) entries path content h (e, b, r, c) = absurd cc
  tar_node_complete mode name symlink entries path content h holds = elim holds [ ]
  tar_node_complete mode name (failing _) entries path content h holds = elim holds [ ]
  tar_node_complete mode name (folder nodes) entries path content h (inl (p, c)) =
      let (xs, ys, hx, hy, e) =
        both_inv (ok (folder_entry mode name ∷ [])) (tar_nodes mode name nodes) entries h in
      rw (e, p, c, sym (ok_injective hx)) (inl (sym (named_entry mode name none)))
  tar_node_complete mode name (folder nodes) entries path content h (inr holds) =
      let (xs, ys, hx, hy, e) =
        both_inv (ok (folder_entry mode name ∷ [])) (tar_nodes mode name nodes) entries h in
      rw e (Contains-right _ xs ys (tar_nodes_complete mode name nodes ys path content hy holds))

  tar_nodes_complete :
      (mode : ℕ) (name : List String) (nodes : HostNodes) (entries : List TarEntry)
      → (path : List String) (content : Option Bytes) → tar_nodes mode name nodes ≡ ok entries
      → HoldsIn nodes path content
      → Contains (entry_at mode name path content) entries
  tar_nodes_complete mode name nil entries path content h holds = elim holds [ ]
  tar_nodes_complete mode name (cons k node nodes) entries path content h (inl (rest, p, holds)) =
      let (xs, ys, hx, hy, e) = split_cons mode name k node nodes entries h in
      let found = tar_node_complete mode (name ++ k ∷ []) node xs rest content hx holds in
      rw (e, p) (Contains-left _ xs ys (rw (append_assoc name (k ∷ []) rest) at found))
  tar_nodes_complete mode name (cons k node nodes) entries path content h (inr holds) =
      let (xs, ys, hx, hy, e) = split_cons mode name k node nodes entries h in
      rw e (Contains-right _ xs ys (tar_nodes_complete mode name nodes ys path content hy holds))

mutual
  unfolding tar_node Holds

  tar_node_sound :
      (mode : ℕ) (name : List String) (node : HostNode) (entries : List TarEntry)
      → tar_node mode name node ≡ ok entries
      → All (IsFrom mode name node) entries
  tar_node_sound mode name (regular (ok (ok bytes))) entries h =
      rw (sym (ok_injective h))
        (([], some bytes, named_entry mode name (some bytes), (refl, bytes, refl, refl)), tt)
  tar_node_sound mode name (regular (ok (err x))) entries h = absurd (cc h)
  tar_node_sound mode name (regular (err x)) entries h = absurd (cc h)
  tar_node_sound mode name symlink entries h = rw (sym (ok_injective h)) tt
  tar_node_sound mode name (failing _) entries h = absurd (cc h)
  tar_node_sound mode name (folder nodes) entries h =
      let (xs, ys, hx, hy, e) =
        both_inv (ok (folder_entry mode name ∷ [])) (tar_nodes mode name nodes) entries h in
      rw (e, sym (ok_injective hx))
        (
          ([], none, named_entry mode name none, inl (refl, refl)),
          All-map _ _ (IsBelow-folder mode name nodes) ys (tar_nodes_sound mode name nodes ys hy),
        )

  tar_nodes_sound :
      (mode : ℕ) (name : List String) (nodes : HostNodes) (entries : List TarEntry)
      → tar_nodes mode name nodes ≡ ok entries
      → All (IsBelow mode name nodes) entries
  tar_nodes_sound mode name nil entries h = rw (sym (ok_injective h)) tt
  tar_nodes_sound mode name (cons k node nodes) entries h =
      let (xs, ys, hx, hy, e) = split_cons mode name k node nodes entries h in
      rw e (
        All-append _ xs ys
          (All-map _ _ (IsFrom-child mode name k node nodes) xs
            (tar_node_sound mode (name ++ k ∷ []) node xs hx))
          (All-map _ _ (IsBelow-rest mode name k node nodes) ys
            (tar_nodes_sound mode name nodes ys hy)))

-- The entries of an archive are exactly the directories and the regular files that the walk reaches
-- through no symbolic link, each under its path behind the name of the tree, with the given mode, and
-- a file with its contents: every entry is one of these, and each of these has an entry.
pub tar_node_lem :
    (mode : ℕ) (name : List String) (node : HostNode) (entries : List TarEntry)
    → tar_node mode name node ≡ ok entries
    → All (IsFrom mode name node) entries
      × ((path : List String) (content : Option Bytes)
          → Holds node path content
          → Contains (entry_at mode name path content) entries)
tar_node_lem mode name node entries h = (
  tar_node_sound mode name node entries h,
  λ path content holds. tar_node_complete mode name node entries path content h holds,
)
