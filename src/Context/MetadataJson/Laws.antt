-- ===== src/Context/MetadataJson/Laws.antt =====
-- The JSON form of the metadata gives the metadata back.
use docker_go_sdk.Common.{
  String, ◌≡◌, refl, ap, ◌∙◌, Option, none, some, [], arith, eq_iff, str_eq, if◌then◌else◌,
}
use docker_go_sdk.GoError.{ok}
use docker_go_sdk.Common.Dict.{
  Dict, lookup, insert, lookup-copy, lookup-remove, HasUniqueKeys, last_or-HasUniqueKeys, or_else,
}
use docker_go_sdk.Context.{Metadata}
use docker_go_sdk.Context.MetadataJson.{
  JsonText, JsonCodec, description_field, marshal_json, unmarshal_json, encode_metadata,
  decode_metadata, field,
}

module _ {V : Type 0} (json : JsonText V) where
  lookup-description_field :
      (key text : String)
      → lookup key (description_field json text) ≡ (
          if str_eq text ""
          then none
          else if str_eq "Description" key
          then some (json.text text)
          else none)
  unfolding insert lookup
  lookup-description_field key text = ground arith

  lookup-marshal_json :
      (key : String) (m : Metadata V)
      → HasUniqueKeys m.additional_fields
      → lookup key (marshal_json json m)
        ≡ or_else (field key m) (lookup key (description_field json m.description))
  unfolding marshal_json field
  lookup-marshal_json key m u =
      rw (lookup-copy key (description_field json m.description) m.additional_fields)
        (last_or-HasUniqueKeys key m.additional_fields _ u)

abbrev pub mapped : {V : Type 0} → (V → V) → Option V → Option V
mapped f none = none
mapped f (some v) = some (f v)

module _ {V D : Type 0} (json : JsonText V) (codec : JsonCodec V D) where
  -- A document is decoded to a map with the same keys and the values in the form that `json.Unmarshal`
  -- gives to an `any`: a text stays that text, and a number becomes a float64.
  pub record Decodes (normal : V → V) : Type 0 where
    pub unmarshal-marshal :
        (m : Dict V) (document : D)
        → codec.marshal m ≡ ok document
        → (raw : Dict V) × (codec.unmarshal document ≡ ok raw)
          × ((key : String) → lookup key raw ≡ mapped normal (lookup key m))
    pub normal-text : (s : String) → json.as_text (normal (json.text s)) ≡ some s

  -- What a read document has under a key, from what the metadata have.
  read_field :
      (normal : V → V) (m : Metadata V) (raw : Dict V) (key : String)
      → HasUniqueKeys m.additional_fields
      → lookup key raw ≡ mapped normal (lookup key (marshal_json json m))
      → lookup key raw
        ≡ mapped normal (or_else (field key m) (lookup key (description_field json m.description)))
  read_field normal m raw key u h = h ∙ ap (mapped normal) (lookup-marshal_json json key m u)

  read_description :
      (normal : V → V) (m : Metadata V) (raw : Dict V)
      → Decodes normal
      → HasUniqueKeys m.additional_fields
      → field "Description" m ≡ none
      → lookup "Description" raw ≡ mapped normal (lookup "Description" (marshal_json json m))
      → (unmarshal_json json (record { description = ""; additional_fields = [] }) raw).description
        ≡ m.description
  unfolding unmarshal_json
  read_description normal m raw decodes u plain h = ground (
    arith,
    read_field normal m raw "Description" u h,
    lookup-description_field json "Description" m.description,
    decodes.normal-text m.description,
    eq_iff m.description "",
  )

  read_other :
      (normal : V → V) (m : Metadata V) (raw : Dict V) (key : String)
      → HasUniqueKeys m.additional_fields
      → field "Description" m ≡ none
      → lookup key raw ≡ mapped normal (lookup key (marshal_json json m))
      → field key (unmarshal_json json (record { description = ""; additional_fields = [] }) raw)
        ≡ mapped normal (field key m)
  unfolding unmarshal_json field
  read_other normal m raw key u plain h = ground (
    arith,
    lookup-remove "Description" key raw,
    read_field normal m raw key u h,
    lookup-description_field json key m.description,
    eq_iff "Description" key,
  )

  -- A document that `MarshalJSON` has made of metadata with no additional field named "Description" is
  -- read by `UnmarshalJSON`, for a codec as documented: the description comes back, and under each key the
  -- additional field, in the form that the decoding gives to its value.
  pub decode_metadata-encode_metadata :
      (normal : V → V) (m : Metadata V) (document : D) (key : String)
      → Decodes normal
      → HasUniqueKeys m.additional_fields
      → field "Description" m ≡ none
      → encode_metadata json codec m ≡ ok document
      → (back : Metadata V) × (decode_metadata json codec
            (record { description = ""; additional_fields = [] })
            document
          ≡ ok back)
        × (back.description ≡ m.description)
        × (field key back ≡ mapped normal (field key m))
  unfolding encode_metadata decode_metadata
  decode_metadata-encode_metadata normal m document key decodes u plain h =
      let (raw, read, fields) = decodes.unmarshal-marshal (marshal_json json m) document h in
      (
        unmarshal_json json (record { description = ""; additional_fields = [] }) raw,
        rw read refl,
        read_description normal m raw decodes u plain (fields "Description"),
        read_other normal m raw key u plain (fields key),
      )
