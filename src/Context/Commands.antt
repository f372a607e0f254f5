-- ===== src/Context/Commands.antt =====
-- context/context.go, context.add.go and context.delete.go: the operations on the contexts, over the
-- configuration and the store.
pub mod Laws
use docker_go_sdk.Common.{
  String, Bool, true, false, Option, none, some, List, [], ◌∷◌, str_eq, if◌then◌else◌,
}
use docker_go_sdk.Common.Dict.{lookup}
use docker_go_sdk.Config.Load.{ConfigFile, Machine, dir, load, save}
use docker_go_sdk.GoError.{Error, new, wrap, wrapped, Result, ok, err, context}
use docker_go_sdk.Context.{Context, ContextOptions, CreateContextOption}
use docker_go_sdk.Context.Tree.{Node}
use docker_go_sdk.Context.Store.{Platform, docker_host, list, inspect, add, delete}

abbrev pub default_context_name : String
default_context_name = "default"

-- The environment and the configuration file, and what stands at the path of each store.
pub record State (W : Type 0) : Type 0 where
  pub os : W
  pub stores : String → Option Node

abbrev pub set_store : {W : Type 0} → String → Option Node → State W → State W
set_store path root s = record s {
  stores = λ asked. if str_eq asked path then root else s.stores asked;
}

module _ {W V : Type 0} (m : Machine W) (p : Platform V) where
  abbrev below_dir : Result String → Result String
  below_dir (err e) = err (wrap "docker config dir: " e)
  below_dir (ok d) = ok (m.join (m.join d "contexts") "meta")

  -- `metaRoot`
  unfoldable pub meta_root : W → Result String
  unfolding dir
  meta_root w = below_dir (dir m w)

  abbrev pub inspect_at : String → Result String → State W → Result (Context V)
  inspect_at name (err e) s = err (wrap "meta root: " e)
  inspect_at name (ok path) s = inspect p name (s.stores path) (load m s.os)

  -- `Inspect`
  unfoldable pub inspect_context : String → State W → Result (Context V)
  unfolding meta_root inspect load
  inspect_context name s = inspect_at name (meta_root s.os) s

  abbrev host_of : Result (Context V) → Result String
  host_of (err e) = err (wrap "inspect context: " e)
  host_of (ok ctx) = ok (docker_host p (lookup "docker" ctx.endpoints))

  unfoldable pub docker_host_from_context : String → State W → Result String
  unfolding inspect_context lookup
  docker_host_from_context name s = host_of (inspect_context name s)

  names_of : List (Context V) → List String
  names_of [] = []
  names_of (ctx ∷ contexts) = ctx.name ∷ names_of contexts

  abbrev named : Result (List (Context V)) → Result (List String)
  named (err e) = err (wrap "list contexts: " e)
  named (ok contexts) = ok (names_of contexts)

  abbrev list_at : Result String → State W → Result (List String)
  list_at (err e) s = err (wrap "meta root: " e)
  list_at (ok path) s = named (list p (s.stores path))

  -- `List`
  unfoldable pub list_contexts : State W → Result (List String)
  unfolding meta_root list names_of
  list_contexts s = list_at (meta_root s.os) s

  abbrev pub no_options : ContextOptions V
  no_options = record {
    host = "";
    description = "";
    additional_fields = [];
    skip_tls_verify = false;
    current = false;
  }

  abbrev after_option : Option Error → Result (ContextOptions V) → Result (ContextOptions V)
  after_option none rest = rest
  after_option (some e) rest = err (wrap "apply option: " e)

  unfoldable pub apply_options :
      List (CreateContextOption V) → ContextOptions V → Result (ContextOptions V)
  apply_options [] options = ok options
  apply_options (opt ∷ opts) options =
      let (e, options') = opt options in after_option e (apply_options opts options')

  abbrev pub context_of : String → ContextOptions V → Context V
  context_of name options = record {
    name = name;
    encoded_name = p.digest name;
    is_current = false;
    metadata = some (record {
      description = options.description;
      additional_fields = options.additional_fields;
    });
    endpoints =
        ("docker", some (record { host = options.host; skip_tls_verify = options.skip_tls_verify }))
        ∷ [];
  }

  abbrev set_current_in : String → Result ConfigFile → W → Option Error × W
  set_current_in name (err e) w = (some (wrap "load config: " e), w)
  set_current_in name (ok cfg) w =
      let (e, w') = save m (record cfg { current_context = name }) w in
      (wrapped "save config: " e, w')

  -- The current context of the configuration file becomes the one with this name.
  unfoldable pub set_current : String → W → Option Error × W
  unfolding load save
  set_current name w = set_current_in name (load m w) w

  abbrev marked_current : Context V → Option Error × W → State W → Result (Context V) × State W
  marked_current ctx (some e, w) s = (err e, record s { os = w })
  marked_current ctx (none, w) s = (ok (record ctx { is_current = true }), record s { os = w })

  abbrev finish_new : Context V → Bool → Option Error → State W → Result (Context V) × State W
  finish_new ctx current (some e) s = (err (wrap "add context: " e), s)
  finish_new ctx current none s =
      if current then marked_current ctx (set_current ctx.name s.os) s else (ok ctx, s)

  abbrev pub add_at : Result String → Context V → Bool → State W → Result (Context V) × State W
  add_at (err e) ctx current s = (err (wrap "meta root: " e), s)
  add_at (ok path) ctx current s =
      let (e, root) = add p ctx (s.stores path) in finish_new ctx current e (set_store path root s)

  abbrev create : String → Result (ContextOptions V) → State W → Result (Context V) × State W
  create name (err e) s = (err e, s)
  create name (ok options) s = add_at (meta_root s.os) (context_of name options) options.current s

  abbrev create_new :
      String
      → List (CreateContextOption V)
      → Result (Context V)
      → State W
      → Result (Context V) × State W
  create_new name opts (ok found) s = (err (new "context already exists"), s)
  create_new name opts (err e) s = create name (apply_options opts no_options) s

  -- `New`
  unfoldable pub new_context :
      String → List (CreateContextOption V) → State W → Result (Context V) × State W
  unfolding inspect_context apply_options meta_root add set_current
  new_context name opts s =
      if str_eq name ""
      then (err (new "name is required"), s)
      else if str_eq name "default"
      then (err (new "name cannot be 'default'"), s)
      else create_new name opts (inspect_context name s) s

  abbrev reset_current : Option Error × W → State W → Option Error × State W
  reset_current (e, w) s = (e, record s { os = w })

  abbrev finish_delete : Context V → Option Error → State W → Option Error × State W
  finish_delete ctx (some e) s = (some (wrap "delete: " e), s)
  finish_delete ctx none s =
      if ctx.is_current then reset_current (set_current default_context_name s.os) s else (none, s)

  abbrev delete_at : Result String → Context V → State W → Option Error × State W
  delete_at (err e) ctx s = (some (wrap "meta root: " e), s)
  delete_at (ok path) ctx s =
      let (e, root) = delete p ctx.encoded_name (s.stores path) in
      finish_delete ctx e (set_store path root s)

  -- `(ctx *Context) Delete`
  unfoldable pub delete_context : Context V → State W → Option Error × State W
  unfolding meta_root delete set_current
  delete_context ctx s =
      if str_eq ctx.encoded_name ""
      then (some (new "context has no encoded name"), s)
      else delete_at (meta_root s.os) ctx s
