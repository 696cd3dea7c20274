-- ===== src/Services/Acts.antt =====
-- What the executor's process does with the orders that it gets.
use autonomy_harbor.Base.{
  ℕ, suc, ◌≤◌, ◌≡◌, ◌⊎◌, refl, sym, ap, inl, inr, String, Bool, true, false, ◌||◌, List, [], ◌∷◌,
  ◌++◌, any, any-append, ◌==◌, arith, eq_iff, Result, ok, raised, Bool-cases, if◌then◌else◌,
}
use mathlib.Core.Path.{subst}
use autonomy_harbor.Json.{Fields}
use autonomy_harbor.Platform.{Platform, Datetime}
use autonomy_harbor.Models.{ActionRequest}
use autonomy_harbor.Envelope.{SignedEnvelope}
use autonomy_harbor.Ledger.{Row, Sqlite, clashes}
use autonomy_harbor.Permit.{PermitAuthorization, verify_and_consume_execution_permit}
use autonomy_harbor.Permit.Consumed.{
  is_authorized, permit_row, IsConsumed, IsConsumed-of_authorized, verify_and_consume-rows,
}
use autonomy_harbor.Services.{has_op}
use autonomy_harbor.Services.Gate.{Clock}
use autonomy_harbor.Services.Executor.{
  ExecutorService, ExecutorState, act_if, execute_permit, order_in, handle_executor,
}

-- the digest of an envelope stands in a row
abbrev pub used : String → List Row → Bool
used h rows = any (λ (row : Row). row.envelope_hash == h) rows

used-append :
    (h : String) (rows more : List Row) → used h (rows ++ more) ≡ (used h rows || used h more)
used-append h rows more = any-append (λ (row : Row). row.envelope_hash == h) rows more

used_of_clash-free :
    (r : Row) (rows : List Row) → any (clashes r) rows ≡ false → used r.envelope_hash rows ≡ false
used_of_clash-free r [] h = refl
used_of_clash-free r (row ∷ rows) h = ground (arith, used_of_clash-free r rows)

module _ ⦃p : Platform⦄ ⦃q : Sqlite⦄ {World : Type 0}
    (act : ActionRequest → World → Result Fields × World) (service : ExecutorService) where
  -- The executor acts on the request, for a permit that it uses up.
  pub record IsOrdered (message : Fields) (clock : Clock) (s s' : ExecutorState World)
      : Type 0 where
    pub request : ActionRequest
    pub permit : SignedEnvelope
    pub op : has_op "execute" message ≡ true
    pub order : order_in message ≡ ok (request, permit)
    pub consumed : IsConsumed permit request service.trust clock.earlier s.rows s'.rows
    pub acted : s'.world ≡ (act request s.world).1

  -- nothing is done, and at most a row is added
  pub record IsIdle (s s' : ExecutorState World) : Type 0 where
    pub world : s'.world ≡ s.world
    pub rows : (s'.rows ≡ s.rows) ⊎ (r : Row) × (s'.rows ≡ s.rows ++ r ∷ [])

  act_if-unauthorized :
      (a : Result PermitAuthorization) (permit : SignedEnvelope) (request : ActionRequest)
      (result_id : String) (now : Datetime) (s : ExecutorState World)
      → is_authorized a ≡ false
      → (act_if act service a permit request result_id now s).1 ≡ s
  unfolding act_if
  act_if-unauthorized (raised e) permit request result_id now s h = refl
  act_if-unauthorized (ok a) permit request result_id now s h = rw (h) refl

  act_if-authorized :
      (a : Result PermitAuthorization) (permit : SignedEnvelope) (request : ActionRequest)
      (result_id : String) (now : Datetime) (s : ExecutorState World)
      → is_authorized a ≡ true
      → (act_if act service a permit request result_id now s).1
        ≡ record s { world = (act request s.world).1 }
  unfolding act_if
  act_if-authorized (raised e) permit request result_id now s h = absurd (ground arith)
  act_if-authorized (ok a) permit request result_id now s h = rw (h) refl

  execute_permit-cases :
      (message : Fields) (result_id : String) (clock : Clock) (s : ExecutorState World)
      (order : Result (ActionRequest × SignedEnvelope))
      → has_op "execute" message ≡ true
      → order_in message ≡ order
      → let s' = (execute_permit act service order result_id clock s).1 in
        (IsOrdered message clock s s' ⊎ IsIdle s s')
  unfolding execute_permit
  execute_permit-cases message result_id clock s (raised e) op read =
      inr (record { world = refl; rows = inl refl })
  execute_permit-cases message result_id clock s (ok (request, permit)) op read =
      let out =
        verify_and_consume_execution_permit permit request service.trust clock.earlier s.rows in
      let between : ExecutorState World = record s { rows = out.1 } in
      elim (Bool-cases (is_authorized out.0)) [
        | inl granted ↦
            let e = act_if-authorized out.0 permit request result_id clock.later between granted in
            inl (record {
              request = request;
              permit = permit;
              op = op;
              order = read;
              consumed =
                  subst
                    (λ (t : ExecutorState World).
                      IsConsumed permit request service.trust clock.earlier s.rows t.rows)
                    (sym e)
                    (IsConsumed-of_authorized permit request service.trust clock.earlier s.rows
                      granted);
              acted = ap (λ (t : ExecutorState World). t.world) e;
            })
        | inr refused ↦
            let e =
              act_if-unauthorized out.0 permit request result_id clock.later between refused in
            inr (record {
              world = ap (λ (t : ExecutorState World). t.world) e;
              rows =
                  subst
                    (λ (t : ExecutorState World).
                      (t.rows ≡ s.rows) ⊎ (r : Row) × (t.rows ≡ s.rows ++ r ∷ []))
                    (sym e)
                    (verify_and_consume-rows permit request service.trust clock.earlier s.rows);
            })
      ]

  -- A message to the executor either leaves the world as it is and adds at most one row to the
  -- ledger; or it is an order to execute whose permit is verified for an issuer of permits, is for
  -- this request and this time, and was unused, and the world becomes what the adapter makes of the
  -- request, with the permit's row in the ledger.
  pub handle_executor-cases :
      (message : Fields) (result_id : String) (clock : Clock) (s : ExecutorState World)
      → let s' = (handle_executor act service message result_id clock s).1 in
        (IsOrdered message clock s s' ⊎ IsIdle s s')
  unfolding handle_executor
  handle_executor-cases message result_id clock s = elim (Bool-cases (has_op "health" message)) [
    | inl health ↦ rw (health) (inr (record { world = refl; rows = inl refl }))
    | inr asked ↦ elim (Bool-cases (has_op "execute" message)) [
      | inr unsupported ↦ rw (asked, unsupported) (inr (record { world = refl; rows = inl refl }))
      | inl op ↦
          rw (asked, op) (execute_permit-cases message result_id clock s (order_in message) op refl)
    ]
  ]

  -- One message, with the id that its result gets and the readings of the clock.
  pub record Order : Type 0 where
    pub message : Fields
    pub result_id : String
    pub clock : Clock

  unfoldable pub after : Order → ExecutorState World → ExecutorState World
  after o s = (handle_executor act service o.message o.result_id o.clock s).1

  -- The states that a process goes through, with the digests of the permits that it acts for.
  pub data Serves : ExecutorState World → List String → ExecutorState World → Type 0 where
    idle : (s : ExecutorState World) → Serves s [] s
    waits :
        {t : ExecutorState World} {hashes : List String} (s : ExecutorState World) (o : Order)
        → IsIdle s (after o s)
        → Serves (after o s) hashes t
        → Serves s hashes t
    acts :
        {t : ExecutorState World} {hashes : List String} (s : ExecutorState World) (o : Order)
        (h : String) (w : IsOrdered o.message o.clock s (after o s))
        → h ≡ w.permit.envelope_hash
        → Serves (after o s) hashes t
        → Serves s (h ∷ hashes) t

  -- how often a digest stands in a list
  abbrev pub times : String → List String → ℕ
  times h [] = 0
  times h (g ∷ gs) = let rest = times h gs in if g == h then suc rest else rest

  used-idle :
      (h : String) (s s' : ExecutorState World)
      → IsIdle s s'
      → used h s.rows ≡ true
      → used h s'.rows ≡ true
  used-idle h s s' w taken = elim w.rows [
    | inl same ↦ rw (same) taken
    | inr (r, more) ↦ rw (more) (ground (arith, used-append h s.rows (r ∷ [])))
  ]

  used-ordered :
      (h : String) (message : Fields) (clock : Clock) (s s' : ExecutorState World)
      (w : IsOrdered message clock s s')
      → (used w.permit.envelope_hash s.rows ≡ false)
        × (used h s'.rows ≡ (used h s.rows || w.permit.envelope_hash == h))
  used-ordered h message clock s s' w =
      let r = permit_row w.consumed.id w.permit clock.earlier in
      (
        used_of_clash-free r s.rows w.consumed.unused,
        rw (w.consumed.kept) (ground (arith, used-append h s.rows (r ∷ []))),
      )

  times-Serves :
      {s t : ExecutorState World} {hashes : List String} (h : String)
      → Serves s hashes t
      → ((used h s.rows ≡ true) × (times h hashes ≡ 0))
        ⊎ ((used h s.rows ≡ false) × (times h hashes ≤ 1))
  times-Serves h (idle s) = ground arith
  times-Serves h (waits s o w rest) =
      ground (arith, used-idle h s (after o s) w, times-Serves h rest)
  times-Serves h (acts s o g w e rest) = ground (
    arith,
    used-ordered h o.message o.clock s (after o s) w,
    times-Serves h rest,
    eq_iff g h,
    eq_iff w.permit.envelope_hash h,
  )

  -- Whatever messages reach the executor, in whatever order, it acts at most once for an envelope
  -- digest, and never for one that the ledger already holds.
  pub Serves-once :
      {s t : ExecutorState World} {hashes : List String} (h : String)
      → Serves s hashes t
      → (times h hashes ≤ 1) × (used h s.rows ≡ true → times h hashes ≡ 0)
  Serves-once h run = ground (arith, times-Serves h run)

  abbrev pub serve_all : List Order → ExecutorState World → ExecutorState World
  serve_all [] s = s
  serve_all (o ∷ orders) s = serve_all orders (after o s)

  -- Every sequence of messages takes the executor through such a run, and it acts at most once for
  -- each envelope digest in it, and never for a digest that the ledger held before.
  pub serve_all-Serves :
      (orders : List Order) (s : ExecutorState World)
      → (hashes : List String) × Serves s hashes (serve_all orders s)
        × ((h : String) → (times h hashes ≤ 1) × (used h s.rows ≡ true → times h hashes ≡ 0))
  serve_all-Serves orders s =
      let (hashes, run) = run_of orders s in (hashes, run, λ (h : String). Serves-once h run)
    where
      step :
          (o : Order) (s : ExecutorState World)
          → IsOrdered o.message o.clock s (after o s) ⊎ IsIdle s (after o s)
      step o s = unfold after in handle_executor-cases o.message o.result_id o.clock s

      run_of :
          (orders : List Order) (s : ExecutorState World)
          → (hashes : List String) × Serves s hashes (serve_all orders s)
      run_of [] s = ([], idle s)
      run_of (o ∷ orders) s =
          let (hashes, rest) = run_of orders (after o s) in
          elim (step o s) [
            | inl w ↦ (w.permit.envelope_hash ∷ hashes, acts s o w.permit.envelope_hash w refl rest)
            | inr w ↦ (hashes, waits s o w rest)
          ]
