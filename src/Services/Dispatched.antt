-- ===== src/Services/Dispatched.antt =====
-- The executor's process on the registry of adapters, with the sandbox as its one adapter.
use mathlib.Core.Path.{subst}
use autonomy_harbor.Base.{
  ◌≡◌, ◌⊎◌, ◌∙◌, sym, inl, inr, String, Bool, true, false, none, some, [], ◌∷◌, arith, eq_iff,
  Result, ok, raised, Bool-cases, if◌then◌else◌, ap,
}
use autonomy_harbor.Json.{Fields}
use autonomy_harbor.Platform.{Platform}
use autonomy_harbor.Models.{ActionRequest}
use autonomy_harbor.Ledger.{Sqlite}
use autonomy_harbor.Adapters.{
  Adapter, AdapterRegistry, AdapterDispatchResult, dispatch_dict, adapter_at, entries, binds,
  key_of, dispatch,
}
use autonomy_harbor.Adapters.Dispatch.{adapter_at-entries, dispatch-none, dispatch-some}
use autonomy_harbor.Adapters.Config.{sandbox_bindings}
use autonomy_harbor.Adapters.Sandbox.{FileSystem, sandbox_execute, IsWritten, sandbox_execute-cases}
use autonomy_harbor.Services.Gate.{Clock}
use autonomy_harbor.Services.Executor.{ExecutorService, ExecutorState, handle_executor}
use autonomy_harbor.Services.Acts.{IsOrdered, handle_executor-cases}

abbrev dispatched_dict : Result AdapterDispatchResult → Result Fields
dispatched_dict (raised e) = raised e
dispatched_dict (ok result) = ok (dispatch_dict result)

module _ {World : Type 0} where
  -- what the process does for a request that has its permit
  unfoldable pub adapter_act : AdapterRegistry World → ActionRequest → World → Result Fields × World
  adapter_act registry request world =
      let (result, world') = dispatch registry request world in (dispatched_dict result, world')

module _ ⦃p : Platform⦄ {World : Type 0} (files : FileSystem World) where
  -- `SandboxAdapter`
  unfoldable pub sandbox_adapter : Adapter World
  sandbox_adapter = record {
    adapter_id = "sandbox";
    bindings = sandbox_bindings;
    execute = sandbox_execute files;
  }

  unfoldable pub sandbox_registry : AdapterRegistry World
  sandbox_registry = record {
    by_binding = entries sandbox_adapter sandbox_bindings;
    ids = "sandbox" ∷ [];
  }

  found :
      (request : ActionRequest) (bound : Bool)
      → binds sandbox_bindings (key_of request) ≡ bound
      → adapter_at (key_of request) (entries sandbox_adapter sandbox_bindings)
        ≡ (if bound then some sandbox_adapter else none)
  found request bound h =
      adapter_at-entries (key_of request) sandbox_adapter sandbox_bindings
      ∙ ap (λ (b : Bool). if b then some sandbox_adapter else none) h

  adapter_act-unbound :
      (request : ActionRequest) (world : World)
      → binds sandbox_bindings (key_of request) ≡ false
      → (adapter_act sandbox_registry request world).1 ≡ world
  unfolding adapter_act sandbox_registry
  adapter_act-unbound request world unbound =
      dispatch-none sandbox_registry request world (found request false unbound)

  adapter_act-bound :
      (request : ActionRequest) (world : World)
      → binds sandbox_bindings (key_of request) ≡ true
      → (adapter_act sandbox_registry request world).1 ≡ (sandbox_execute files request world).1
  unfolding adapter_act sandbox_registry sandbox_adapter
  adapter_act-bound request world bound =
      dispatch-some sandbox_registry request world sandbox_adapter (found request true bound)

  bound_write :
      (capability : String)
      → binds sandbox_bindings (record { capability = capability; action = "write_text" }) ≡ true
      → capability ≡ "filesystem.write"
  bound_write capability bound = ground (arith, eq_iff "filesystem.write" capability)

  bound_writes :
      (capability action : String)
      → binds sandbox_bindings (record { capability = capability; action = action }) ≡ true
      → action ≡ "write_text"
      → capability ≡ "filesystem.write"
  bound_writes capability action bound writes = bound_write capability (
      subst
        (λ (a : String).
          binds sandbox_bindings (record { capability = capability; action = a }) ≡ true)
        writes bound)

  adapter_act-IsWritten :
      (request : ActionRequest) (world : World)
      → let world' = (adapter_act sandbox_registry request world).1 in
        ((world' ≡ world)
          ⊎ (request.capability ≡ "filesystem.write") × IsWritten files request world world')
  adapter_act-IsWritten request world =
      elim (Bool-cases (binds sandbox_bindings (key_of request))) [
        | inr unbound ↦ inl (adapter_act-unbound request world unbound)
        | inl bound ↦
            subst
              (λ (t : World).
                (t ≡ world)
                ⊎ (request.capability ≡ "filesystem.write") × IsWritten files request world t)
              (sym (adapter_act-bound request world bound))
              (elim (sandbox_execute-cases files request world) [
                | inl same ↦ inl same
                | inr w ↦ inr (bound_writes request.capability request.action bound w.action, w)
              ])
      ]

  -- An executor's process whose one adapter is the sandbox leaves the files as they are, whatever
  -- message it gets, unless the message is an order with a verified and unused permit for a request
  -- of the capability filesystem.write, and what is written is the text of its payload, at a path
  -- under the root.
  pub handle_executor-IsWritten :
      ⦃q : Sqlite⦄ (service : ExecutorService) (message : Fields) (result_id : String)
      (clock : Clock) (s : ExecutorState World)
      → let act = adapter_act sandbox_registry in
        let s' = (handle_executor act service message result_id clock s).1 in
        ((s'.world ≡ s.world)
          ⊎ (order : IsOrdered act service message clock s s') × (order.request.capability
              ≡ "filesystem.write")
            × IsWritten files order.request s.world s'.world)
  handle_executor-IsWritten service message result_id clock s =
      elim (handle_executor-cases (adapter_act sandbox_registry) service message result_id clock
        s) [
          | inr idle ↦ inl idle.world
          | inl order ↦ elim (adapter_act-IsWritten order.request s.world) [
            | inl same ↦ inl (order.acted ∙ same)
            | inr (capability, w) ↦ inr (
              order,
              capability,
              subst (IsWritten files order.request s.world) (sym order.acted) w,
            )
          ]
        ]
