-- ===== src/Context.antt =====
-- Package context: the types of the Docker contexts and the options of their creation.
pub mod MetadataJson
pub mod Tree
pub mod Store
pub mod Commands
pub mod Current
mod Tests
use docker_go_sdk.Common.{String, Bool, true, Option, none}
use docker_go_sdk.Common.Dict.{Dict}
use docker_go_sdk.GoError.{Error}

-- `V` is the type of the values that `encoding/json` decodes into an `any`.
pub record Metadata (V : Type 0) : Type 0 where
  pub description : String
  pub additional_fields : Dict V

pub record Endpoint : Type 0 where
  pub host : String
  pub skip_tls_verify : Bool

-- `none` is a nil pointer.
pub record Context (V : Type 0) : Type 0 where
  pub name : String
  pub encoded_name : String
  pub is_current : Bool
  pub metadata : Option (Metadata V)
  pub endpoints : Dict (Option Endpoint)

pub record ContextOptions (V : Type 0) : Type 0 where
  pub host : String
  pub description : String
  pub additional_fields : Dict V
  pub skip_tls_verify : Bool
  pub current : Bool

abbrev pub CreateContextOption : Type 0 → Type 0
CreateContextOption V = ContextOptions V → Option Error × ContextOptions V

module _ {V : Type 0} where
  abbrev pub with_host : String → CreateContextOption V
  with_host host c = (none, record c { host = host })

  abbrev pub with_description : String → CreateContextOption V
  with_description description c = (none, record c { description = description })

  abbrev pub with_additional_fields : Dict V → CreateContextOption V
  with_additional_fields fields c = (none, record c { additional_fields = fields })

  abbrev pub with_skip_tls_verify : CreateContextOption V
  with_skip_tls_verify c = (none, record c { skip_tls_verify = true })

  abbrev pub as_current : CreateContextOption V
  as_current c = (none, record c { current = true })
