-- ===== src/Adapters/Config.antt =====
-- `build_adapter_registry` of adapters.py. The adapters, the environment and `str.lower` are arguments.
use autonomy_harbor.Base.{
  String, Bool, true, false, not, Option, none, some, List, [], ◌∷◌, ◌<>◌, ◌==◌, strip, Result, ok,
  fail, value_error, type_error, if◌then◌else◌, ◌>>=◌,
}
use autonomy_harbor.Json.{Json, bool, str, arr, obj, Items, nil, cons, Fields, end, strs, keys, get}
use autonomy_harbor.Platform.{Platform, text_of}
use autonomy_harbor.Authorizer.{letters}
use autonomy_harbor.Registry.{or_default}
use autonomy_harbor.Adapters.{
  Adapter, AdapterBinding, AdapterRegistry, empty_registry, register_adapter,
}

-- the bindings of `SandboxAdapter`
abbrev pub sandbox_bindings : List AdapterBinding
sandbox_bindings =
    record { capability = "tool.echo"; action = "echo" }
    ∷ record { capability = "filesystem.read"; action = "read_text" }
    ∷ record { capability = "filesystem.write"; action = "write_text" }
    ∷ []

-- `item.get("enabled", True) is True`
abbrev is_enabled : Option Json → Bool
is_enabled none = true
is_enabled (some (bool b)) = b
is_enabled (some v) = false

-- `list(v)`
abbrev items_in : Json → Result Items
items_in (arr vs) = ok vs
items_in (str s) = ok (strs (letters s))
items_in (obj d) = ok (strs (keys d))
items_in v = fail type_error "object is not iterable"

abbrev config_or_empty : Option Fields → Fields
config_or_empty none = end
config_or_empty (some d) = d

module _ ⦃p : Platform⦄ {World : Type 0} (lower : String → String)
    (environ : String → Option String) (github : Option String → String → Adapter World) where
  unfoldable pub configure_github : Fields → AdapterRegistry World → Result (AdapterRegistry World)
  configure_github item registry =
      let token_env =
        text_of (or_default (get "token_env" item) (str "AUTONOMY_HARBOR_GITHUB_TOKEN")) in
      let api_base = text_of (or_default (get "api_base" item) (str "https://api.github.com")) in
      register_adapter (github (environ token_env) api_base) registry

  unfoldable pub configure : Json → AdapterRegistry World → Result (AdapterRegistry World)
  configure (obj item) registry =
      let adapter_type = lower (strip (text_of (or_default (get "type" item) (str "")))) in
      if not (is_enabled (get "enabled" item))
      then ok registry
      else if adapter_type == "github"
      then configure_github item registry
      else fail value_error ("unknown_adapter_type:" <> adapter_type)
  configure v registry = fail value_error "adapter_config_item_must_be_object"

  unfoldable pub configure_all : Items → AdapterRegistry World → Result (AdapterRegistry World)
  configure_all nil registry = ok registry
  configure_all (cons v vs) registry = do
    registry' ← configure v registry
    configure_all vs registry'

  unfoldable pub build_adapter_registry :
      Adapter World → Option Fields → Result (AdapterRegistry World)
  build_adapter_registry sandbox config = do
    registry ← register_adapter sandbox empty_registry
    items ← items_in (or_default (get "adapters" (config_or_empty config)) (arr nil))
    configure_all items registry
