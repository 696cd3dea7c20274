-- ===== src/Adapters.antt =====
-- The registry of adapters and its dispatch (adapters.py). What an adapter does is a function on the
-- world.
pub mod Dispatch
pub mod Config
pub mod Sandbox
pub mod Github
pub mod Posts
mod Tests
use autonomy_harbor.Base.{
  String, Bool, true, false, not, ◌&&◌, ◌||◌, Option, none, some, List, [], ◌∷◌, ◌++◌, ◌<>◌, ◌==◌,
  any, before, sort_by, strip, is_blank, mem_text, ErrorClass, adapter_conflict, adapter_not_found,
  Result, ok, raised, fail, reject_if, if◌then◌else◌, ◌>>=◌, ◌>>◌,
}
use autonomy_harbor.Json.{Json, str, arr, obj, Items, nil, cons, Fields, fields}
use autonomy_harbor.Models.{ActionRequest, is_empty}

pub record AdapterBinding : Type 0 where
  pub capability : String
  pub action : String

unfoldable pub make_adapter_binding : String → String → Result AdapterBinding
make_adapter_binding capability action = do
  reject_if (is_blank capability || is_blank action)
      "adapter_binding_requires_capability_and_action"
  ok (record { capability = capability; action = action })

abbrev pub same_binding : AdapterBinding → AdapterBinding → Bool
same_binding a b = a.capability == b.capability && a.action == b.action

pub record AdapterDispatchResult : Type 0 where
  pub adapter_id : String
  pub output : Fields

unfoldable pub dispatch_dict : AdapterDispatchResult → Fields
dispatch_dict result =
    fields (("adapter_id", str result.adapter_id) ∷ ("output", obj result.output) ∷ [])

-- `ExecutionAdapter`
pub record Adapter (World : Type 0) : Type 0 where
  pub adapter_id : String
  pub bindings : List AdapterBinding
  pub execute : ActionRequest → World → Result Fields × World

-- `self._by_binding`, in the order of its keys' insertion, and `self._ids`
pub record AdapterRegistry (World : Type 0) : Type 0 where
  pub by_binding : List (AdapterBinding × Adapter World)
  pub ids : List String

-- sorted by capability, then by action
abbrev earlier : AdapterBinding → AdapterBinding → Bool
earlier a b =
    before a.capability b.capability || (a.capability == b.capability && before a.action b.action)

unfoldable pub binding_dict : AdapterBinding → Json
binding_dict b = obj (fields (("capability", str b.capability) ∷ ("action", str b.action) ∷ []))

abbrev snoc : Items → Json → Items
snoc nil v = cons v nil
snoc (cons w ws) v = cons w (snoc ws v)

-- `result.setdefault(adapter_id, []).append(binding)`
unfoldable pub group_under : String → Json → List (String × Items) → List (String × Items)
group_under adapter_id binding [] = (adapter_id, cons binding nil) ∷ []
group_under adapter_id binding ((id, bindings) ∷ groups) =
    let rest = group_under adapter_id binding groups in
    if id == adapter_id then (id, snoc bindings binding) ∷ groups else (id, bindings) ∷ rest

abbrev manifest_items : List (String × Items) → Items
manifest_items [] = nil
manifest_items ((adapter_id, bindings) ∷ groups) =
    cons
      (obj (
        fields (
          ("adapter_id", str adapter_id)
          ∷ ("bindings", arr bindings)
          ∷ ("authority_effect", str "NONE")
          ∷ [])))
      (manifest_items groups)

abbrev pub binds : List AdapterBinding → AdapterBinding → Bool
binds bindings key = any (λ (b : AdapterBinding). same_binding b key) bindings

abbrev pub reject_as : ErrorClass → Bool → String → Result (Unit {0})
reject_as kind true message = fail kind message
reject_as kind false message = ok tt

abbrev pub key_of : ActionRequest → AdapterBinding
key_of request = record { capability = request.capability; action = request.action }

abbrev dispatched : String → Result Fields → Result AdapterDispatchResult
dispatched adapter_id (raised e) = raised e
dispatched adapter_id (ok output) = ok (record { adapter_id = adapter_id; output = output })

module _ {World : Type 0} where
  abbrev pub empty_registry : AdapterRegistry World
  empty_registry = record { by_binding = []; ids = [] }

  -- `self._by_binding.get(key)`
  unfoldable pub adapter_at :
      AdapterBinding → List (AdapterBinding × Adapter World) → Option (Adapter World)
  adapter_at key [] = none
  adapter_at key ((b, adapter) ∷ table) =
      let rest = adapter_at key table in if same_binding b key then some adapter else rest

  abbrev pub is_bound : AdapterBinding → List (AdapterBinding × Adapter World) → Bool
  is_bound key table = any (λ (e : AdapterBinding × Adapter World). same_binding e.0 key) table

  -- the loop over the adapter's bindings
  unfoldable pub pending_bindings :
      List (AdapterBinding × Adapter World)
      → List AdapterBinding
      → List AdapterBinding
      → Result (List AdapterBinding)
  pending_bindings table pending [] = ok pending
  pending_bindings table pending (b ∷ bs) =
      let rest = pending_bindings table (pending ++ b ∷ []) bs in
      if is_bound b table || binds pending b
      then fail adapter_conflict ("duplicate_adapter_binding:" <> b.capability <> ":" <> b.action)
      else rest

  abbrev pub entries : Adapter World → List AdapterBinding → List (AdapterBinding × Adapter World)
  entries adapter [] = []
  entries adapter (b ∷ bs) = (b, adapter) ∷ entries adapter bs

  -- `AdapterRegistry.register`
  unfoldable pub register_adapter :
      Adapter World → AdapterRegistry World → Result (AdapterRegistry World)
  register_adapter adapter registry = do
    reject_if (is_blank adapter.adapter_id) "adapter_id_required"
    reject_as adapter_conflict (mem_text (strip adapter.adapter_id) registry.ids)
        ("duplicate_adapter_id:" <> strip adapter.adapter_id)
    reject_if (is_empty adapter.bindings) "adapter_requires_at_least_one_binding"
    pending ← pending_bindings registry.by_binding [] adapter.bindings
    ok (record {
      by_binding = registry.by_binding ++ entries adapter pending;
      ids = strip adapter.adapter_id ∷ registry.ids;
    })

  unfoldable pub resolve : ActionRequest → AdapterRegistry World → Result (Adapter World)
  resolve request registry = elim (adapter_at (key_of request) registry.by_binding) [
    | none ↦
        fail adapter_not_found ("adapter_not_found:" <> request.capability <> ":" <> request.action)
    | some adapter ↦ ok adapter
  ]

  abbrev run_resolved :
      Result (Adapter World) → ActionRequest → World → Result AdapterDispatchResult × World
  run_resolved (raised e) request world = (raised e, world)
  run_resolved (ok adapter) request world =
      let (output, world') = adapter.execute request world in
      (dispatched adapter.adapter_id output, world')

  -- `AdapterRegistry.execute`
  unfoldable pub dispatch :
      AdapterRegistry World → ActionRequest → World → Result AdapterDispatchResult × World
  dispatch registry request world = run_resolved (resolve request registry) request world

  abbrev grouped :
      List (AdapterBinding × Adapter World) → List (String × Items) → List (String × Items)
  grouped [] groups = groups
  grouped ((b, adapter) ∷ table) groups =
      grouped table (group_under adapter.adapter_id (binding_dict b) groups)

  -- `AdapterRegistry.manifest`
  unfoldable pub manifest : AdapterRegistry World → Items
  manifest registry =
      let table =
        sort_by (λ (e f : AdapterBinding × Adapter World). earlier e.0 f.0) registry.by_binding in
      manifest_items (sort_by (λ (g h : String × Items). before g.0 h.0) (grouped table []))
