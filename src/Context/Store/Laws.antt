-- ===== src/Context/Store/Laws.antt =====
-- What the store lists after a context is added or deleted, and what it finds.
use docker_go_sdk.Common.{
  String, ◌≡◌, refl, sym, ap, ◌∙◌, ◌≢◌, ◌⊎◌, inl, inr, false, Option, none, some, List, [], ◌∷◌,
  ◌++◌, arith, eq_iff, str_eq, Bool-cases, Option-cases, append_assoc,
}
use docker_go_sdk.Common.Bytes.{Bytes}
use docker_go_sdk.GoError.{Result, ok, err, error_is}
use docker_go_sdk.GoError.Laws.{both_inv}
use docker_go_sdk.Context.{Context}
use docker_go_sdk.Context.Tree.{
  Node, file, dir, Entries, nil, entry, find, put, drop, read_in, file_exists,
}
use docker_go_sdk.Context.Tree.Laws.{find-put, put-put, drop-put, drop-absent}
use docker_go_sdk.Context.Store.{
  Platform, meta_file, has_meta_file, walk_node, walk_entries, find_metadata_dirs, to_document,
  of_document, load, load_all, list, load_found, append_loaded, encoded, add, delete, make_dir,
  write_meta, write_encoded,
}

-- The result is the list with one element more, somewhere in it.
abbrev pub Inserted : {A : Type 0} → A → List A → Result (List A) → Type 0
Inserted {A} x xs r =
    (before : List A) × (after : List A) × (xs ≡ before ++ after) × (r ≡ ok (before ++ x ∷ after))

-- A directory with nothing but a metadata file.
abbrev meta_dir : Bytes → Entries
meta_dir bytes = entry meta_file (file (ok bytes)) nil

module _ {V : Type 0} (p : Platform V) where
  walk_entries-put :
      (k : String) (bytes : Bytes) (es : Entries) (dirs : List Entries)
      → find k es ≡ none
      → walk_entries es ≡ ok dirs
      → Inserted (meta_dir bytes) dirs (walk_entries (put p.less k (dir (meta_dir bytes)) es))
  unfolding walk_node walk_entries put find has_meta_file
  walk_entries-put k bytes nil dirs h w = ([], [], cc w, refl)
  walk_entries-put k bytes (entry j n es) dirs h w =
      let (xs, ys, wn, we, e) = both_inv (walk_node n) (walk_entries es) dirs w in
      elim (Bool-cases (str_eq j k)) [
        | inl q ↦ absurd (cc (rw q at h))
        | inr q ↦
            let (before, after, e', w') = walk_entries-put k bytes es ys (rw q at h) we in
            elim (Bool-cases (p.less k j)) [
              | inl l ↦ rw (q, l) ([], dirs, refl, rw (w) refl)
              | inr l ↦
                  rw (q, l)
                    (
                      xs ++ before,
                      after,
                      e ∙ rw e' (sym (append_assoc xs before after)),
                      rw (wn, w') (ap ok (sym (append_assoc xs before (meta_dir bytes ∷ after)))),
                    )
            ]
      ]

  Inserted-loaded :
      (ctx : Context V) (r : Result (Context V)) (s s' : Result (List (Context V)))
      → (contexts : List (Context V)) → append_loaded p r s ≡ ok contexts
      → ((rest : List (Context V)) → s ≡ ok rest → Inserted ctx rest s')
      → Inserted ctx contexts (append_loaded p r s')
  Inserted-loaded ctx (ok c) (err e) s' contexts h f = absurd (cc h)
  Inserted-loaded ctx (ok c) (ok rest) s' contexts h f =
      let (before, after, e, e') = f rest refl in (c ∷ before, after, cc, rw e' refl)
  Inserted-loaded ctx (err e) s s' contexts h f = elim (Bool-cases (error_is e "os.ErrNotExist")) [
    | inl q ↦ rw q (f contexts (rw q at h))
    | inr q ↦ absurd (cc (rw q at h))
  ]

  load_all-Inserted :
      (d : Entries) (ctx : Context V) (before after : List Entries) (contexts : List (Context V))
      → load p d ≡ ok ctx
      → load_all p (before ++ after) ≡ ok contexts
      → Inserted ctx contexts (load_all p (before ++ d ∷ after))
  unfolding load_all
  load_all-Inserted d ctx [] after contexts l h = ([], contexts, refl, rw (l, h) refl)
  load_all-Inserted d ctx (es ∷ before) after contexts l h =
      Inserted-loaded ctx (load p es) (load_all p (before ++ after)) _ contexts h
        (λ rest e. load_all-Inserted d ctx before after rest l e)

  add_fresh :
      (ctx : Context V) (bytes : Bytes) (es : Entries)
      → find (encoded p ctx) es ≡ none
      → p.mkdir_fault (encoded p ctx) ≡ none
      → p.write_fault (encoded p ctx) ≡ none
      → p.encode (to_document p ctx) ≡ ok bytes
      → add p ctx (some (dir es))
        ≡ (none, some (dir (put p.less (encoded p ctx) (dir (meta_dir bytes)) es)))
  unfolding add file_exists
  add_fresh ctx bytes es fresh mkdir write enc =
      rw (fresh, make_dir, mkdir, enc, write_meta, write)
        (ap (λ x. (none, some (dir x))) (put-put p.less (encoded p ctx) (dir nil) _ es))

  has_meta_file-put :
      (k : String) (n : Node) (es : Entries)
      → k ≢ meta_file
      → has_meta_file es ≡ false
      → has_meta_file (put p.less k n es) ≡ false
  unfolding has_meta_file
  has_meta_file-put k n es ne h =
      ground (arith, find-put p.less meta_file k n es, eq_iff k meta_file)

  load-meta_dir :
      (ctx : Context V) (bytes : Bytes)
      → p.decode bytes ≡ ok (to_document p ctx)
      → load p (meta_dir bytes) ≡ ok (of_document p (to_document p ctx))
  unfolding load read_in find
  load-meta_dir ctx bytes h = rw h refl

  list_lem :
      (es : Entries)
      → has_meta_file es ≡ false
      → list p (some (dir es)) ≡ load_found p (walk_entries es)
  unfolding list find_metadata_dirs walk_node
  list_lem es h = rw h refl

  load_found-ok :
      (r : Result (List Entries)) (contexts : List (Context V))
      → load_found p r ≡ ok contexts
      → (dirs : List Entries) × (r ≡ ok dirs) × (load_all p dirs ≡ ok contexts)
  load_found-ok (err e) contexts h = absurd (cc h)
  load_found-ok (ok dirs) contexts h = (dirs, refl, h)

  -- Adding a context whose directory is not there, to a store whose directory can be listed: `add`
  -- returns no error, and the list is then the old one with the context in it, at some place, as its
  -- JSON form gives it back. The JSON codec decodes what it has encoded, and no system call fails.
  pub list-add :
      (ctx : Context V) (bytes : Bytes) (es : Entries) (contexts : List (Context V))
      → encoded p ctx ≢ meta_file
      → find (encoded p ctx) es ≡ none
      → has_meta_file es ≡ false
      → p.mkdir_fault (encoded p ctx) ≡ none
      → p.write_fault (encoded p ctx) ≡ none
      → p.encode (to_document p ctx) ≡ ok bytes
      → p.decode bytes ≡ ok (to_document p ctx)
      → list p (some (dir es)) ≡ ok contexts
      → let (e, root) = add p ctx (some (dir es)) in
        (e ≡ none) × Inserted (of_document p (to_document p ctx)) contexts (list p root)
  list-add ctx bytes es contexts ne fresh plain mkdir write enc dec listed =
      let k = encoded p ctx in
      let (dirs, w, l) =
        load_found-ok (walk_entries es) contexts ((sym (list_lem es plain)) ∙ listed) in
      let (before, after, e, w') = walk_entries-put k bytes es dirs fresh w in
      rw
        (
          add_fresh ctx bytes es fresh mkdir write enc,
          list_lem (put p.less k (dir (meta_dir bytes)) es)
              (has_meta_file-put k (dir (meta_dir bytes)) es ne plain),
          w',
        )
        (
          refl,
          load_all-Inserted (meta_dir bytes) (of_document p (to_document p ctx)) before after
              contexts (load-meta_dir ctx bytes dec) (rw e at l),
        )

  -- The root after an `add` is the old one, or has one entry more.
  abbrev Extended : String → Entries → Option Node → Type 0
  Extended k es root =
      (root ≡ some (dir es)) ⊎ ((n : Node) × (root ≡ some (dir (put p.less k n es))))

  write_encoded-Extended :
      (k : String) (r : Result Bytes) (es : Entries)
      → Extended k es (write_encoded p k r (some (dir (put p.less k (dir nil) es)))).1
  write_encoded-Extended k (err e) es = inr (dir nil, refl)
  write_encoded-Extended k (ok bytes) es = elim (Option-cases (p.write_fault k)) [
    | inl q ↦
        rw (write_meta, q)
          (inr (dir (meta_dir bytes), ap (λ x. some (dir x)) (put-put p.less k (dir nil) _ es)))
    | inr (e, q) ↦ rw (write_meta, q) (inr (dir nil, refl))
  ]

  make_dir-Extended :
      (k : String) (r : Result Bytes) (es : Entries)
      → Extended k es (make_dir p k r (some (dir es))).1
  make_dir-Extended k r es = elim (Option-cases (p.mkdir_fault k)) [
    | inl q ↦ rw (make_dir, q) (write_encoded-Extended k r es)
    | inr (e, q) ↦ rw (make_dir, q) (inl refl)
  ]

  delete_lem :
      (k : String) (es : Entries)
      → p.remove_fault k ≡ none
      → delete p k (some (dir es)) ≡ (none, some (dir (drop k es)))
  unfolding delete
  delete_lem k es h = rw (delete, h)

  delete-Extended :
      (k : String) (es : Entries) (root : Option Node)
      → find k es ≡ none
      → p.remove_fault k ≡ none
      → Extended k es root
      → delete p k root ≡ (none, some (dir es))
  delete-Extended k es root fresh h (inl e) =
      ap (delete p k) e ∙ delete_lem k es h ∙ rw (drop-absent p.less k es fresh)
  delete-Extended k es root fresh h (inr (n, e)) =
      ap (delete p k) e ∙ delete_lem k (put p.less k n es) h ∙ rw (drop-put p.less k n es fresh)

  -- Deleting what was added leaves the store as it was, whatever `add` has returned, if no
  -- directory of this name was there and the removal does not fail.
  pub delete-add :
      (ctx : Context V) (es : Entries)
      → find (encoded p ctx) es ≡ none
      → p.remove_fault (encoded p ctx) ≡ none
      → delete p (encoded p ctx) (add p ctx (some (dir es))).1 ≡ (none, some (dir es))
  unfolding add file_exists
  delete-add ctx es fresh h =
      let k = encoded p ctx in
      let r = p.encode (to_document p ctx) in
      rw fresh
        (delete-Extended k es (make_dir p k r (some (dir es))).1 fresh h (make_dir-Extended k r es))
