-- ===== src/Context/Tests.antt =====
-- A machine, a store and contexts, with the theorems at them.
use docker_go_sdk.Context.Commands.{apply_options, meta_root}
use docker_go_sdk.Common.Dict.{Dict, lookup, HasUniqueKeys, insert}
use docker_go_sdk.Context.Store.{has_meta_file}
use docker_go_sdk.Context.Current.{get_context_from_env}
use docker_go_sdk.Common.{
  ℕ, String, ◌≡◌, refl, sym, ap, arith, false, Option, none, some, List, [], ◌∷◌, str_eq, ◌==◌,
  if◌then◌else◌,
}
use Prim.Native.String
use docker_go_sdk.Common.Bytes.{Bytes}
use docker_go_sdk.Config.Load.{ConfigFile, Machine, load}
use docker_go_sdk.GoError.Laws.{ok_injective}
use docker_go_sdk.GoError.{new, sentinel, wrap, Result, ok, err}
use docker_go_sdk.Context.{Metadata, Context, CreateContextOption, with_host, with_description}
use docker_go_sdk.Context.MetadataJson.{
  JsonText, JsonCodec, marshal_json, encode_metadata, decode_metadata, field,
}
use docker_go_sdk.Context.MetadataJson.Laws.{Decodes, mapped, decode_metadata-encode_metadata}
use docker_go_sdk.Context.Tree.{file, dir, Entries, nil, entry, find}
use docker_go_sdk.Context.Store.{
  Document, Platform, meta_file, to_document, of_document, list, add, delete,
}
use docker_go_sdk.Context.Store.Laws.{Inserted, list-add, delete-add}
use docker_go_sdk.Context.Commands.{State, context_of, new_context, inspect_context}
use docker_go_sdk.Context.Commands.Laws.{inspect_context-new_context}
use docker_go_sdk.Context.Current.{NetUrl, current_docker_host, current}
use docker_go_sdk.Context.Current.Laws.{IsHost, current_docker_host-IsHost, current-load}

abbrev json_text : JsonText String
json_text = record { text = λ s. s; as_text = λ v. some v }

abbrev lab : Document String
lab = record {
  name = "lab";
  metadata = some (("Description", "the lab") ∷ []);
  endpoints = ("docker", some (record { host = "tcp://lab:2375"; skip_tls_verify = false })) ∷ [];
}

abbrev home : Document String
home = record {
  name = "home";
  metadata = none;
  endpoints =
      ("docker", some (record { host = "unix:///home.sock"; skip_tls_verify = false })) ∷ [];
}

abbrev decode_file : Bytes → Result (Document String)
decode_file [] = err (new "empty")
decode_file (b ∷ bytes) = if b == 1 then ok home else ok lab

abbrev platform : Platform String
platform = record {
  json = json_text;
  encode = λ doc. if str_eq doc.name "home" then ok (1 ∷ []) else ok (2 ∷ []);
  decode = decode_file;
  digest = λ name. String.◌++◌ "sha-" name;
  less = λ a b. false;
  mkdir_fault = λ k. none;
  write_fault = λ k. none;
  remove_fault = λ k. none;
}

abbrev home_dir : Entries
home_dir = entry "sha-home" (dir (entry meta_file (file (ok (1 ∷ []))) nil)) nil

abbrev config_file : ConfigFile
config_file = record {
  config = record {
    auth_configs = [];
    credentials_store = "";
    credential_helpers = [];
    proxies = [];
  };
  current_context = "home";
  filepath = "";
}

-- The variables of the world are its association list.
abbrev machine : (String → String) → Machine Unit
machine env = record {
  goos = "linux";
  getenv = λ name w. env name;
  user_home_dir = λ w. "/root";
  current_user_home = λ w. ok "/root";
  join = λ a b. String.◌++◌ a (String.◌++◌ "/" b);
  file_exists = λ path w. str_eq path "/cfg";
  read_file = λ path w. err (sentinel "os.ErrNotExist");
  write_file = λ path bytes w. (none, w);
  unmarshal = λ bytes. err (new "syntax");
  unmarshal_text = λ text. ok config_file;
  marshal = λ cfg. ok [];
}

abbrev with_auth : String → String
with_auth name =
    if str_eq name "DOCKER_AUTH_CONFIG"
    then "{}"
    else if str_eq name "DOCKER_CONFIG"
    then "/cfg"
    else ""

abbrev bare : String → String
bare name = if str_eq name "DOCKER_CONFIG" then "/cfg" else ""

abbrev lab_options : List (CreateContextOption String)
lab_options = with_host "tcp://lab:2375" ∷ with_description "the lab" ∷ []

abbrev state : State Unit
state = record { os = tt; stores = λ path. some (dir home_dir) }

abbrev lab_context : Context String
lab_context = context_of (machine with_auth) platform "lab" (record {
  host = "tcp://lab:2375";
  description = "the lab";
  additional_fields = [];
  skip_tls_verify = false;
  current = false;
})

abbrev scheme_of : String → Result String
scheme_of s = if str_eq s "unix:///home.sock" then ok "unix" else ok "http"

abbrev net : NetUrl
net = record { is_not_exist = λ e. false; scheme = scheme_of }

abbrev metadata : Metadata String
metadata = record { description = "the lab"; additional_fields = ("Owner", "ops") ∷ [] }

list-add_example :
    let (e, root) = add platform lab_context (some (dir home_dir)) in
    (e ≡ none)
    × Inserted
        (of_document platform (to_document platform lab_context))
        (of_document platform home ∷ [])
        (list platform root)
unfolding find has_meta_file marshal_json insert list
list-add_example =
    list-add platform lab_context (2 ∷ []) home_dir (of_document platform home ∷ [])
      (λ e. absurd (cc e)) refl refl refl refl refl refl refl

delete-add_example :
    delete platform "sha-lab" (add platform lab_context (some (dir home_dir))).1
    ≡ (none, some (dir home_dir))
unfolding find
delete-add_example = delete-add platform lab_context home_dir refl refl

current-load_example :
    current (machine bare) platform net tt
    ≡ err (wrap "load docker config: " (wrap "config path: " (new "config file does not exist")))
unfolding get_context_from_env load
current-load_example =
    current-load (machine bare) platform net tt
      (wrap "config path: " (new "config file does not exist")) (λ x h. refl) refl refl

-- Values of which a number is decoded as a float64, and documents that are maps.
data Value : Type 0 where
  text : String → Value
  int : ℕ → Value
  float64 : ℕ → Value

abbrev normal : Value → Value
normal (text s) = text s
normal (int n) = float64 n
normal (float64 n) = float64 n

abbrev read_text : Value → Option String
read_text (text s) = some s
read_text (int n) = none
read_text (float64 n) = none

abbrev value_text : JsonText Value
value_text = record { text = text; as_text = read_text }

abbrev decoded_all : Dict Value → Dict Value
decoded_all [] = []
decoded_all ((k, v) ∷ m) = (k, normal v) ∷ decoded_all m

abbrev map_codec : JsonCodec Value (Dict Value)
map_codec = record { marshal = λ m. ok m; unmarshal = λ document. ok (decoded_all document) }

lookup-decoded_all :
    (key : String) (m : Dict Value) → lookup key (decoded_all m) ≡ mapped normal (lookup key m)
unfolding lookup
lookup-decoded_all key [] = refl
lookup-decoded_all key ((k, v) ∷ m) = ground (arith, lookup-decoded_all key m)

map_codec-Decodes : Decodes value_text map_codec normal
map_codec-Decodes = record {
  unmarshal-marshal =
      λ m document h. (decoded_all m, same m document h, λ key. lookup-decoded_all key m);
  normal-text = λ s. refl;
}
  where
    same :
        (m document : Dict Value)
        → ok m ≡ ok document
        → ◌≡◌ {A = Result (Dict Value)} (ok (decoded_all document)) (ok (decoded_all m))
    same m document h = ap (λ d. ok (decoded_all d)) (sym (ok_injective h))

abbrev counted : Metadata Value
counted = record { description = "the lab"; additional_fields = ("count", int 42) ∷ [] }

abbrev counted_document : Dict Value
counted_document = ("Description", text "the lab") ∷ ("count", int 42) ∷ []

decode_metadata-encode_metadata_example :
    (back : Metadata Value) × (decode_metadata value_text map_codec
        (record { description = ""; additional_fields = [] })
        counted_document
      ≡ ok back)
    × (back.description ≡ "the lab")
    × (field "count" back ≡ some (float64 42))
unfolding HasUniqueKeys field encode_metadata insert
decode_metadata-encode_metadata_example =
    decode_metadata-encode_metadata value_text map_codec normal counted counted_document "count"
      map_codec-Decodes (refl, tt) refl refl

current_docker_host-IsHost_example : IsHost (machine with_auth) platform net "unix:///home.sock"
unfolding current_docker_host
current_docker_host-IsHost_example =
    current_docker_host-IsHost (machine with_auth) platform net state "unix:///home.sock" refl

inspect_context-new_context_example :
    let (r, s') = new_context (machine with_auth) platform "lab" lab_options state in
    (r ≡ ok lab_context)
    × (inspect_context (machine with_auth) platform "lab" s'
        ≡ ok (record (of_document platform lab) { encoded_name = "sha-lab" }))
unfolding meta_root has_meta_file list load apply_options marshal_json insert
inspect_context-new_context_example =
    inspect_context-new_context (machine with_auth) platform "lab" "/cfg/contexts/meta"
      (record {
        host = "tcp://lab:2375";
        description = "the lab";
        additional_fields = [];
        skip_tls_verify = false;
        current = false;
      })
      lab_options state home_dir (of_document platform home ∷ []) config_file (2 ∷ [])
      (λ e. absurd (cc e)) (λ e. absurd (cc e)) (λ e. absurd (cc e)) refl refl refl refl refl
      ((λ e. absurd (cc e)), tt) refl refl (λ e. absurd (cc e)) refl refl refl refl refl
