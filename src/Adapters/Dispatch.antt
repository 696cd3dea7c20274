-- ===== src/Adapters/Dispatch.antt =====
-- A request is dispatched to the adapter that was registered for its capability and action.
use mathlib.Core.List.{append_assoc}
use autonomy_harbor.Base.{
  fail, adapter_not_found, ◌<>◌, is_some, inl, inr, ◌≡◌, refl, ap, true, false, not, some, List, [],
  ◌∷◌, ◌++◌, all, arith, eq_iff, ok, Result-cases, if◌then◌else◌,
}
use autonomy_harbor.Models.{ActionRequest}
use autonomy_harbor.Adapters.{
  run_resolved, AdapterBinding, same_binding, Adapter, AdapterRegistry, adapter_at, is_bound, binds,
  pending_bindings, entries, register_adapter, key_of, resolve, none, dispatch, Result,
}

append_end : (xs : List AdapterBinding) → xs ++ [] ≡ xs
append_end [] = refl
append_end (x ∷ xs) = ap (λ (ys : List AdapterBinding). x ∷ ys) (append_end xs)

module _ {World : Type 0} where
  pending_bindings-ok :
      (table : List (AdapterBinding × Adapter World)) (pending bs out : List AdapterBinding)
      → pending_bindings table pending bs ≡ ok out
      → (out ≡ pending ++ bs) × (all (λ (b : AdapterBinding). not (is_bound b table)) bs ≡ true)
  unfolding pending_bindings
  pending_bindings-ok table pending [] out h = ground (arith, append_end pending)
  pending_bindings-ok table pending (b ∷ bs) out h = ground (
    arith,
    pending_bindings-ok table (pending ++ b ∷ []) bs out,
    append_assoc pending (b ∷ []) bs,
  )

  is_bound-same :
      (a b : AdapterBinding) (table : List (AdapterBinding × Adapter World))
      → same_binding a b ≡ true
      → is_bound a table ≡ is_bound b table
  is_bound-same a b [] same = refl
  is_bound-same a b ((c, other) ∷ table) same = ground (
    arith,
    is_bound-same a b table same,
    eq_iff a.capability b.capability,
    eq_iff a.action b.action,
  )

  bound_unbinds :
      (key : AdapterBinding) (table : List (AdapterBinding × Adapter World))
      (bs : List AdapterBinding)
      → all (λ (b : AdapterBinding). not (is_bound b table)) bs ≡ true
      → is_bound key table ≡ true
      → binds bs key ≡ false
  bound_unbinds key table [] free taken = refl
  bound_unbinds key table (b ∷ bs) free taken =
      ground (arith, bound_unbinds key table bs, is_bound-same b key table)

  is_some-adapter_at :
      (key : AdapterBinding) (table : List (AdapterBinding × Adapter World))
      → is_some (adapter_at key table) ≡ is_bound key table
  unfolding adapter_at
  is_some-adapter_at key [] = refl
  is_some-adapter_at key ((c, other) ∷ table) = ground (arith, is_some-adapter_at key table)

  unbound_rest :
      (c : AdapterBinding) (other : Adapter World) (table : List (AdapterBinding × Adapter World))
      (bs : List AdapterBinding)
      → all (λ (b : AdapterBinding). not (is_bound b ((c, other) ∷ table))) bs ≡ true
      → all (λ (b : AdapterBinding). not (is_bound b table)) bs ≡ true
  unbound_rest c other table [] free = refl
  unbound_rest c other table (b ∷ bs) free = ground (arith, unbound_rest c other table bs)

  adapter_at-append :
      (key : AdapterBinding) (table : List (AdapterBinding × Adapter World))
      (adapter : Adapter World) (bs : List AdapterBinding)
      → all (λ (b : AdapterBinding). not (is_bound b table)) bs ≡ true
      → adapter_at key (table ++ entries adapter bs)
        ≡ (if binds bs key then some adapter else adapter_at key table)
  unfolding adapter_at
  adapter_at-append key [] adapter [] free = refl
  adapter_at-append key [] adapter (b ∷ bs) free =
      ground (arith, adapter_at-append key [] adapter bs)
  adapter_at-append key ((c, other) ∷ table) adapter bs free = ground (
    arith,
    adapter_at-append key table adapter bs,
    unbound_rest c other table bs free,
    bound_unbinds key ((c, other) ∷ table) bs free,
  )

  pub adapter_at-entries :
      (key : AdapterBinding) (adapter : Adapter World) (bs : List AdapterBinding)
      → adapter_at key (entries adapter bs) ≡ (if binds bs key then some adapter else none)
  unfolding adapter_at
  adapter_at-entries key adapter [] = refl
  adapter_at-entries key adapter (b ∷ bs) = ground (arith, adapter_at-entries key adapter bs)

  pub dispatch-none :
      (registry : AdapterRegistry World) (request : ActionRequest) (world : World)
      → adapter_at (key_of request) registry.by_binding ≡ none
      → (dispatch registry request world).1 ≡ world
  unfolding dispatch
  dispatch-none registry request world h =
      ap (λ (r : Result (Adapter World)). (run_resolved r request world).1)
        (unresolved registry request h)
    where
      unresolved :
          (registry : AdapterRegistry World) (request : ActionRequest)
          → adapter_at (key_of request) registry.by_binding ≡ none
          → resolve request registry
            ≡ fail adapter_not_found
                ("adapter_not_found:" <> request.capability <> ":" <> request.action)
      unresolved registry request h = unfold resolve in ground (arith, h)

  pub dispatch-some :
      (registry : AdapterRegistry World) (request : ActionRequest) (world : World)
      (adapter : Adapter World)
      → adapter_at (key_of request) registry.by_binding ≡ some adapter
      → (dispatch registry request world).1 ≡ (adapter.execute request world).1
  unfolding dispatch
  dispatch-some registry request world adapter h =
      ap (λ (r : Result (Adapter World)). (run_resolved r request world).1)
        (resolved registry request adapter h)
    where
      resolved :
          (registry : AdapterRegistry World) (request : ActionRequest) (adapter : Adapter World)
          → adapter_at (key_of request) registry.by_binding ≡ some adapter
          → resolve request registry ≡ ok adapter
      resolved registry request adapter h = unfold resolve in ground (arith, h)

  -- After an adapter has been registered, a request is resolved to it where it has a binding of the
  -- request's capability and action, and to what it was resolved to before otherwise.
  pub resolve-register_adapter :
      (adapter : Adapter World) (registry registry' : AdapterRegistry World)
      (request : ActionRequest)
      → register_adapter adapter registry ≡ ok registry'
      → resolve request registry'
        ≡ (if binds adapter.bindings (key_of request) then ok adapter else resolve request registry)
  unfolding register_adapter resolve
  resolve-register_adapter adapter registry registry' request h =
      elim (Result-cases (pending_bindings registry.by_binding [] adapter.bindings)) [
        | inr (e, bad) ↦ absurd (ground (arith, bad))
        | inl (pending, good) ↦
            let (all_of, free) =
              pending_bindings-ok registry.by_binding [] adapter.bindings pending good in
            ground (
              arith,
              good,
              all_of,
              adapter_at-append (key_of request) registry.by_binding adapter adapter.bindings free,
            )
      ]
