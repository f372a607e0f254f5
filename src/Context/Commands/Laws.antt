-- ===== src/Context/Commands/Laws.antt =====
-- What a new context is found as.
use docker_go_sdk.Common.{
  String, ◌≡◌, refl, ◌≢◌, inl, inr, false, Option, none, some, List, [], ◌∷◌, ◌++◌, arith, eq_iff,
  eq_refl, str_eq, Bool-cases, ◌∙◌, All,
}
use mathlib.Core.Path.{subst}
use docker_go_sdk.Common.Bytes.{Bytes}
use docker_go_sdk.Common.Dict.{lookup}
use docker_go_sdk.Config.Load.{ConfigFile, Machine, load}
use docker_go_sdk.GoError.{Error, Result, ok, err}
use docker_go_sdk.Context.{Context, ContextOptions, CreateContextOption}
use docker_go_sdk.Context.Tree.{Node, dir, Entries, find}
use docker_go_sdk.Context.Store.{
  Platform, meta_file, has_meta_file, list, inspected, inspect_among, inspect, to_document,
  of_document, encoded, add, err_docker_context_not_found,
}
use docker_go_sdk.Context.Store.Laws.{Inserted, list-add}
use docker_go_sdk.Context.Commands.{
  State, set_store, meta_root, inspect_context, apply_options, no_options, context_of, new_context,
}

-- No context of the list has the name.
abbrev pub IsUnused : {V : Type 0} → String → List (Context V) → Type 0
IsUnused name contexts = All (λ ctx. ctx.name ≢ name) contexts

module _ {V : Type 0} (p : Platform V) where
  inspect_among-absent :
      (name : String) (contexts : List (Context V)) (cfg : Result ConfigFile)
      → IsUnused name contexts
      → inspect_among p name contexts cfg ≡ err err_docker_context_not_found
  unfolding inspect_among
  inspect_among-absent name [] cfg h = refl
  inspect_among-absent name (ctx ∷ contexts) cfg (ne, h) =
      ground (arith, inspect_among-absent name contexts cfg h, eq_iff ctx.name name)

  inspect_among-found :
      (ctx : Context V) (before after : List (Context V)) (cfg : Result ConfigFile)
      → IsUnused ctx.name (before ++ after)
      → inspect_among p ctx.name (before ++ ctx ∷ after) cfg ≡ inspected p ctx cfg
  unfolding inspect_among
  inspect_among-found ctx [] after cfg h = rw (eq_refl ctx.name)
  inspect_among-found ctx (c ∷ before) after cfg (ne, h) =
      elim (Bool-cases (str_eq c.name ctx.name)) [
        | inl q ↦ absurd (ne ((eq_iff c.name ctx.name).0 q))
        | inr q ↦ rw q (inspect_among-found ctx before after cfg h)
      ]

  inspect-list :
      (name : String) (root : Option Node) (contexts : List (Context V)) (cfg : Result ConfigFile)
      → list p root ≡ ok contexts
      → inspect p name root cfg ≡ inspect_among p name contexts cfg
  unfolding inspect
  inspect-list name root contexts cfg h = rw h

str_eq_ne : (a b : String) → a ≢ b → str_eq a b ≡ false
str_eq_ne a b h = ground (arith, eq_iff a b)

module _ {W V : Type 0} (m : Machine W) (p : Platform V) where
  inspect_context_lem :
      (name path : String) (s : State W)
      → meta_root m p s.os ≡ ok path
      → inspect_context m p name s ≡ inspect p name (s.stores path) (load m s.os)
  unfolding inspect_context
  inspect_context_lem name path s h = rw h

  new_context_lem :
      (name path : String) (options : ContextOptions V) (opts : List (CreateContextOption V))
      → (s : State W) (e : Error) → name ≢ ""
      → name ≢ "default"
      → inspect_context m p name s ≡ err e
      → apply_options m p opts (no_options m p) ≡ ok options
      → options.current ≡ false
      → meta_root m p s.os ≡ ok path
      → (add p (context_of m p name options) (s.stores path)).0 ≡ none
      → new_context m p name opts s ≡ (
        ok (context_of m p name options),
        set_store path (add p (context_of m p name options) (s.stores path)).1 s,
      )
  unfolding new_context
  new_context_lem name path options opts s e ne nd h o c r a =
      rw (str_eq_ne name "" ne, str_eq_ne name "default" nd, h, o, r, a, c)

  inspect_context-set_store :
      (name path : String) (s : State W) (root : Option Node)
      → meta_root m p s.os ≡ ok path
      → inspect_context m p name (set_store path root s) ≡ inspect p name root (load m s.os)
  inspect_context-set_store name path s root h =
      rw (inspect_context_lem name path (set_store path root s) h, eq_refl path)

  inspected-context_of :
      (name : String) (options : ContextOptions V) (cfg : ConfigFile)
      → options.host ≢ ""
      → inspected p (of_document p (to_document p (context_of m p name options))) (ok cfg)
        ≡ ok (record (of_document p (to_document p (context_of m p name options))) {
          is_current = str_eq cfg.current_context name;
          encoded_name = p.digest name;
        })
  unfolding lookup
  inspected-context_of name options cfg h = rw (str_eq_ne options.host "" h)

  encoded-context_of :
      (name : String) (options : ContextOptions V)
      → encoded p (context_of m p name options) ≡ p.digest name
  encoded-context_of name options = elim (Bool-cases (str_eq (p.digest name) "")) [
    | inl q ↦ rw q
    | inr q ↦ rw q
  ]

  inspect-Inserted :
      (ctx : Context V) (root : Option Node) (contexts : List (Context V)) (cfg : Result ConfigFile)
      → IsUnused ctx.name contexts
      → Inserted ctx contexts (list p root)
      → inspect p ctx.name root cfg ≡ inspected p ctx cfg
  inspect-Inserted ctx root contexts cfg h (before, after, e, l) =
      inspect-list p ctx.name root (before ++ ctx ∷ after) cfg l
      ∙ inspect_among-found p ctx before after cfg (subst (IsUnused ctx.name) e h)

  -- A context made by `New` is found by `Inspect`. For a name that is not reserved and that no listed
  -- context has, with options that set a host and do not make the context the current one: `New`
  -- returns the context of the options, and `Inspect` with the name then returns it as its
  -- JSON form gives it back, marked as current if the configuration names it. The store's directory
  -- can be listed and has no entry under the digest of the name, the configuration loads, the codec
  -- decodes what it has encoded, and no system call fails.
  pub inspect_context-new_context :
      (name path : String) (options : ContextOptions V) (opts : List (CreateContextOption V))
      → (s : State W) (es : Entries) (contexts : List (Context V)) (cfg : ConfigFile)
        (bytes : Bytes)
      → name ≢ ""
      → name ≢ "default"
      → p.digest name ≢ meta_file
      → meta_root m p s.os ≡ ok path
      → s.stores path ≡ some (dir es)
      → has_meta_file es ≡ false
      → find (p.digest name) es ≡ none
      → list p (some (dir es)) ≡ ok contexts
      → IsUnused name contexts
      → load m s.os ≡ ok cfg
      → apply_options m p opts (no_options m p) ≡ ok options
      → options.host ≢ ""
      → options.current ≡ false
      → p.mkdir_fault (p.digest name) ≡ none
      → p.write_fault (p.digest name) ≡ none
      → p.encode (to_document p (context_of m p name options)) ≡ ok bytes
      → p.decode bytes ≡ ok (to_document p (context_of m p name options))
      → let ctx = context_of m p name options in
        let (r, s') = new_context m p name opts s in
        (r ≡ ok ctx)
        × (inspect_context m p name s'
            ≡ ok (record (of_document p (to_document p ctx)) {
              is_current = str_eq cfg.current_context name;
              encoded_name = p.digest name;
            }))
  inspect_context-new_context name path options opts s es contexts cfg bytes ne nd nm r st plain
        fresh listed unused conf o host c mkdir write enc dec =
      let ctx = context_of m p name options in
      let enc_name = encoded-context_of name options in
      let (none_added, inserted) =
        list-add p ctx bytes es contexts (rw enc_name nm) (rw enc_name fresh) plain
          (rw enc_name mkdir) (rw enc_name write) enc dec listed in
      let before =
        inspect_context_lem name path s r
        ∙ rw st (
            inspect-list p name (some (dir es)) contexts (load m s.os) listed
            ∙ inspect_among-absent p name contexts (load m s.os) unused) in
      let made =
        new_context_lem name path options opts s err_docker_context_not_found ne nd before o c r
          (rw st none_added) in
      rw made (
        refl,
        inspect_context-set_store name path s _ r
            ∙ rw (st, conf)
                (inspect-Inserted (of_document p (to_document p ctx)) _ contexts (ok cfg) unused
                  inserted)
            ∙ inspected-context_of name options cfg host,
      )
