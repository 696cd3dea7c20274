-- ===== src/Services/Profile.antt =====
-- How the bridge is made from a profile: `HarborMCPBridge.__init__` of mcp_server.py. Reading a file
-- of JSON is an argument.
use autonomy_harbor.Base.{
  String, Bool, true, not, Option, none, some, List, [], ◌∷◌, ◌<>◌, is_blank, Result, ok, fail,
  attribute_error, type_error, reject_if, if◌then◌else◌, ◌>>=◌, ◌>>◌,
}
use autonomy_harbor.Json.{Json, str, obj, Fields, end, get, is_falsy}
use autonomy_harbor.Platform.{Platform}
use autonomy_harbor.Models.{CapabilityRegistry, is_empty}
use autonomy_harbor.Envelope.{dict_of}
use autonomy_harbor.Registry.{or_default, registry_from_dict}
use autonomy_harbor.Services.Bridge.{HarborMcpBridge, make_bridge}

-- what has the methods of a dictionary
abbrev mapping : Json → Result Fields
mapping (obj d) = ok d
mapping v = fail attribute_error "object has no attribute 'get'"

-- `Path(v)`
abbrev path_of : Option Json → Result String
path_of (some (str path)) = ok path
path_of v = fail type_error "argument should be a str or an os.PathLike object"

-- `role not in services or not services[role].get("socket")`
unfoldable pub is_missing : String → Fields → Result Bool
is_missing role services = elim (get role services) [
  | none ↦ ok true
  | some service ↦ do d ← mapping service; ok (is_falsy (get "socket" d))
]

unfoldable pub missing_services : List String → Fields → Result (List String)
missing_services [] services = ok []
missing_services (role ∷ roles) services = do
  missing ← is_missing role services
  rest ← missing_services roles services
  ok (if missing then role ∷ rest else rest)

abbrev joined : List String → String
joined [] = ""
joined (role ∷ []) = role
joined (role ∷ other ∷ roles) = role <> "," <> joined (other ∷ roles)

module _ ⦃p : Platform⦄ (read_json : String → Result Json) where
  -- `_load_registry`
  unfoldable pub load_registry : Fields → Result CapabilityRegistry
  load_registry profile = do
    services ← mapping (or_default (get "services" profile) (obj end))
    gate ← dict_of (or_default (get "gate" services) (obj end))
    reject_if (is_falsy (get "registry" gate)) "mcp_profile_gate_registry_missing"
    path ← path_of (get "registry" gate)
    raw ← read_json path
    value ← dict_of raw
    registry_from_dict value

  -- the bridge, with the checks in the order of the constructor
  unfoldable pub open_bridge : String → Fields → Result HarborMcpBridge
  open_bridge actor profile = do
    reject_if (is_blank actor) "mcp_actor_required"
    registry ← load_registry profile
    bridge ← make_bridge actor registry
    services ← mapping (or_default (get "services" profile) (obj end))
    missing ← missing_services ("planner" ∷ "gate" ∷ "executor" ∷ "verifier" ∷ []) services
    reject_if (not (is_empty missing)) ("mcp_profile_missing_services:" <> joined missing)
    ok bridge
