-- ===== src/Context/MetadataJson.antt =====
-- context/store.go: the JSON form of a context's metadata.
pub mod Laws
use docker_go_sdk.Common.{String, Option, none, some, [], str_eq, if◌then◌else◌}
use docker_go_sdk.Common.Dict.{Dict, lookup, insert, remove, copy}
use docker_go_sdk.Context.{Metadata}
use docker_go_sdk.GoError.{Result, ok, err}

-- The texts among the JSON values: `any(s)` and `v.(string)`.
pub record JsonText (V : Type 0) : Type 0 where
  pub text : String → V
  pub as_text : V → Option String

module _ {V : Type 0} (json : JsonText V) where
  -- `if dc.Description != "" { result["Description"] = dc.Description }`
  abbrev description_field : String → Dict V
  description_field description =
      if str_eq description "" then [] else insert "Description" (json.text description) []

  -- The map that `MarshalJSON` hands to `json.Marshal`.
  unfoldable pub marshal_json : Metadata V → Dict V
  unfolding copy
  marshal_json m = copy (description_field m.description) m.additional_fields

  abbrev text_or : String → Option String → String
  text_or old none = old
  text_or old (some s) = s

  abbrev described : String → Option V → String
  described old none = old
  described old (some v) = text_or old (json.as_text v)

  -- `UnmarshalJSON` into the metadata `m`, from the map that `json.Unmarshal` has decoded.
  unfoldable pub unmarshal_json : Metadata V → Dict V → Metadata V
  unfolding remove lookup
  unmarshal_json m raw = record {
    description = described m.description (lookup "Description" raw);
    additional_fields = remove "Description" raw;
  }

-- `json.Marshal` of a map and `json.Unmarshal` into one; `D` is the type of the documents.
pub record JsonCodec (V D : Type 0) : Type 0 where
  pub marshal : Dict V → Result D
  pub unmarshal : D → Result (Dict V)

module _ {V D : Type 0} (json : JsonText V) (codec : JsonCodec V D) where
  -- `(dc *Metadata) MarshalJSON`
  unfoldable pub encode_metadata : Metadata V → Result D
  unfolding marshal_json
  encode_metadata m = codec.marshal (marshal_json json m)

  abbrev read_metadata : Metadata V → Result (Dict V) → Result (Metadata V)
  read_metadata m (err e) = err e
  read_metadata m (ok raw) = ok (unmarshal_json json m raw)

  -- `(dc *Metadata) UnmarshalJSON` into the metadata `m`
  unfoldable pub decode_metadata : Metadata V → D → Result (Metadata V)
  unfolding unmarshal_json
  decode_metadata m document = read_metadata m (codec.unmarshal document)

module _ {V : Type 0} where
  -- `Field`; the absent result is `none`.
  unfoldable pub field : String → Metadata V → Option V
  unfolding lookup
  field key m = lookup key m.additional_fields

  -- `SetField`
  unfoldable pub set_field : String → V → Metadata V → Metadata V
  unfolding insert
  set_field key value m = record m { additional_fields = insert key value m.additional_fields }

  -- `Fields`, a copy of the map.
  unfoldable pub fields : Metadata V → Dict V
  unfolding copy
  fields m = copy [] m.additional_fields
