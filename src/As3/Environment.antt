-- ===== src/As3/Environment.antt =====
-- What the package takes from elsewhere to read texts: JSON text, IP addresses and CIDR blocks. And
-- `validateJSONAndFetchObject` of pkg/as3/utils.go.
use container_egress_service.Prelude.{String, Bool, Option, none, some, ◌==◌, if◌then◌else◌}
use container_egress_service.Prelude.GoMap.{GoMap}
use container_egress_service.Json.{Json, null, obj, entries}

-- net.ParseCIDR and net.ParseIP as tests, and the value that json.Unmarshal finds in a text.
-- Nothing is assumed of them.
pub record Environment : Type 0 where
  pub parse_cidr : String → Bool
  pub parse_ip : String → Bool
  pub parse_json : String → Option Json

-- What json.Unmarshal does to a `map[string]interface{}`: the JSON `null` makes it a nil map, and
-- any other value that is no object is an error.
pub data Decoded : Type 0 where
  failed : Decoded
  nil_map : Decoded
  decoded : GoMap Json → Decoded

unfoldable pub decode : Json → Decoded
decode null = nil_map
decode (obj fs) = decoded (entries fs)
decode _ = failed

abbrev decode_parsed : Option Json → Decoded
decode_parsed none = failed
decode_parsed (some j) = decode j

-- the case of a string
unfoldable pub validate_json_text : Environment → String → Decoded
unfolding decode
validate_json_text env s = if s == "" then failed else decode_parsed (env.parse_json s)

-- the case of any other value: `j` is what json.Marshal makes of it
unfoldable pub validate_json_value : Json → Decoded
unfolding decode
validate_json_value j = decode j
