-- ===== src/Runtime/Permitted.antt =====
-- What the runtime must hold before it lets the executor act.
use autonomy_harbor.Base.{
  ◌≡◌, ◌⊎◌, ◌∙◌, refl, sym, inl, inr, String, Bool, true, false, Option, none, some, Result, ok,
  raised, arith, Bool-cases,
}
use autonomy_harbor.Json.{Fields}
use autonomy_harbor.Platform.{Platform, Datetime}
use autonomy_harbor.Models.{
  ActionRequest, ActionReceipt, Verdict, GateDecision, is_allow, is_review, is_deny,
}
use autonomy_harbor.Gate.{evaluate}
use autonomy_harbor.Receipt.{create_receipt}
use autonomy_harbor.Broker.Redeem.{authorizes, IsRedeemable, redeem_iff}
use autonomy_harbor.Broker.{ReviewAuthorization, ReviewBroker}
use autonomy_harbor.Signer.{TrustStore}
use autonomy_harbor.Broker.Methods.{redeem}
use autonomy_harbor.Envelope.{SignedEnvelope}
use autonomy_harbor.Ledger.{Sqlite}
use autonomy_harbor.Authorizer.{redeem_signed}
use autonomy_harbor.Authorizer.Facts.{IsAuthorized, redeem_signed_iff}
use autonomy_harbor.Runtime.{
  PersonalAgentRuntime, State, answer, decision_of, with_signed, with_broker, with_lease, decide,
  keep_receipt, act_on, run_with, run,
}

-- whether a decision is reached, and is ALLOW
abbrev pub allows : Result GateDecision → Bool
allows (ok d) = is_allow d.verdict
allows (raised e) = false

review_not_allow : (v : Verdict) → is_review v ≡ true → ¬ (is_allow v ≡ true)
review_not_allow v h k = ground arith

deny_not_allow : (v : Verdict) → is_deny v ≡ true → ¬ (is_allow v ≡ true)
deny_not_allow v h k = ground arith

deny_not_review : (v : Verdict) → is_deny v ≡ true → ¬ (is_review v ≡ true)
deny_not_review v h k = ground arith

allows-answer :
    (kind label : String) (base : GateDecision) (r : Result ReviewAuthorization)
    → allows (answer (decision_of kind label base) r) ≡ authorizes r
unfolding answer decision_of
allows-answer kind label base (ok a) = ground arith
allows-answer kind label base (raised e) = refl

module _ ⦃p : Platform⦄ ⦃q : Sqlite⦄ {World : Type 0}
    (execute : ActionRequest → World → Result Fields × World) (runtime : PersonalAgentRuntime)
    (request : ActionRequest) where
  -- A lease that the runtime can check authorizes the request.
  pub data IsLeased (lease_id : Option String) (envelope : Option SignedEnvelope) (now : Datetime)
      (s : State World) : Type 0 where
    by_signed :
        (e : SignedEnvelope) (store : _)
        → envelope ≡ some e
        → runtime.authorizer ≡ some store
        → IsAuthorized store e request (evaluate request runtime.registry) now s.rows
        → IsLeased lease_id envelope now s
    by_broker :
        (id : String) (b : _)
        → lease_id ≡ some id
        → s.broker ≡ some b
        → IsRedeemable id request (evaluate request runtime.registry) now b
        → IsLeased lease_id envelope now s

  pub data IsPermitted (lease_id : Option String) (envelope : Option SignedEnvelope)
      (now : Datetime) (s : State World) : Type 0 where
    by_gate :
        is_allow (evaluate request runtime.registry).verdict ≡ true
        → IsPermitted lease_id envelope now s
    by_lease :
        is_review (evaluate request runtime.registry).verdict ≡ true
        → IsLeased lease_id envelope now s
        → IsPermitted lease_id envelope now s

  -- What is returned says that nothing was executed.
  abbrev pub IsUnexecuted : Result ActionReceipt → Type 0
  IsUnexecuted (ok r) = (r.outcome ≡ "NOT_EXECUTED") × (is_allow r.gate ≡ false)
  IsUnexecuted (raised e) = Unit

  with_broker-IsLeased :
      (b : Option ReviewBroker) (id : String) (now : Datetime) (s : State World)
      → s.broker ≡ b
      → let d =
          with_broker execute runtime b id request (evaluate request runtime.registry) now s in
        ((allows d.0 ≡ true → IsLeased (some id) none now s) × (d.1.world ≡ s.world))
  unfolding with_broker
  with_broker-IsLeased none id now s at = (λ h. absurd (ground arith), refl)
  with_broker-IsLeased (some b) id now s at = (
    λ h. by_broker id b refl at (
        (redeem_iff id request (evaluate request runtime.registry) now b).0 (
          sym (
            allows-answer "" "" (evaluate request runtime.registry)
              (redeem id request (evaluate request runtime.registry) now b).0)
          ∙ h)),
    refl,
  )

  with_signed-IsLeased :
      (store : Option TrustStore) (lease_id : Option String) (e : SignedEnvelope) (now : Datetime)
      (s : State World)
      → runtime.authorizer ≡ store
      → let d =
          with_signed execute runtime store e request (evaluate request runtime.registry) now s in
        ((allows d.0 ≡ true → IsLeased lease_id (some e) now s) × (d.1.world ≡ s.world))
  unfolding with_signed
  with_signed-IsLeased none lease_id e now s at = (λ h. absurd (ground arith), refl)
  with_signed-IsLeased (some store) lease_id e now s at = (
    λ h. by_signed e store refl at (
        (redeem_signed_iff store e request (evaluate request runtime.registry) now s.rows).0 (
          sym (
            allows-answer "signed_" "signed-" (evaluate request runtime.registry)
              (redeem_signed store e request (evaluate request runtime.registry) now s.rows).0)
          ∙ h)),
    refl,
  )

  with_lease-IsLeased :
      (lease_id : Option String) (envelope : Option SignedEnvelope) (now : Datetime)
      (s : State World)
      → is_review (evaluate request runtime.registry).verdict ≡ true
      → let d =
          with_lease execute runtime lease_id envelope request
            (evaluate request runtime.registry)
            now
            s in
        ((allows d.0 ≡ true → IsLeased lease_id envelope now s) × (d.1.world ≡ s.world))
  unfolding with_lease
  with_lease-IsLeased none none now s reviewed =
      (λ h. absurd (review_not_allow (evaluate request runtime.registry).verdict reviewed h), refl)
  with_lease-IsLeased (some id) none now s reviewed = with_broker-IsLeased s.broker id now s refl
  with_lease-IsLeased lease_id (some e) now s reviewed =
      with_signed-IsLeased runtime.authorizer lease_id e now s refl

  decide-IsPermitted :
      (lease_id : Option String) (envelope : Option SignedEnvelope) (now : Datetime)
      (s : State World)
      → let d =
          decide execute runtime lease_id envelope request
            (evaluate request runtime.registry)
            now
            s in
        ((allows d.0 ≡ true → IsPermitted lease_id envelope now s) × (d.1.world ≡ s.world))
  unfolding decide
  decide-IsPermitted lease_id envelope now s =
      elim (Bool-cases (is_review (evaluate request runtime.registry).verdict)) [
        | inl reviewed ↦
            let leased = with_lease-IsLeased lease_id envelope now s reviewed in
            rw (reviewed) (λ h. by_lease reviewed (leased.0 h), leased.1)
        | inr other ↦ rw (other) (λ h. by_gate h, refl)
      ]

  act_on-IsUnexecuted :
      (d : Result GateDecision) (created_at : String) (s : State World)
      → allows d ≡ false
      → IsUnexecuted (act_on execute runtime d request created_at s).0
        × ((act_on execute runtime d request created_at s).1.world ≡ s.world)
  unfolding act_on keep_receipt create_receipt
  act_on-IsUnexecuted (raised e) created_at s h = (tt, refl)
  act_on-IsUnexecuted (ok d) created_at s h = rw (h) ((refl, h), refl)

  run_with-IsPermitted :
      (lease_id : Option String) (envelope : Option SignedEnvelope) (now : Datetime)
      (created_at : String) (s : State World)
      → IsPermitted lease_id envelope now s
        ⊎ (let out = run_with execute runtime lease_id envelope request now created_at s in
            (IsUnexecuted out.0 × (out.1.world ≡ s.world)))
  unfolding run_with
  run_with-IsPermitted lease_id envelope now created_at s =
      let d =
        decide execute runtime lease_id envelope request (evaluate request runtime.registry) now
          s in
      let decided = decide-IsPermitted lease_id envelope now s in
      elim (Bool-cases (allows d.0)) [
        | inl allowed ↦ inl (decided.0 allowed)
        | inr forbidden ↦
            let held = act_on-IsUnexecuted d.0 created_at d.1 forbidden in
            inr (held.0, held.1 ∙ decided.1)
      ]

  -- Either the gate allows the request, or it asks for a review and a lease that the runtime can
  -- check authorizes the request at the time; or else the run leaves the world as it is, and a
  -- receipt that it returns says NOT_EXECUTED under a gate other than ALLOW.
  pub run-IsPermitted :
      (lease_id : Option String) (envelope : Option SignedEnvelope) (now : Datetime)
      (created_at : String) (s : State World)
      → IsPermitted lease_id envelope now s
        ⊎ (let out = run execute runtime lease_id envelope request now created_at s in
            (IsUnexecuted out.0 × (out.1.world ≡ s.world)))
  unfolding run
  run-IsPermitted none none now created_at s = run_with-IsPermitted none none now created_at s
  run-IsPermitted (some id) none now created_at s =
      run_with-IsPermitted (some id) none now created_at s
  run-IsPermitted none (some e) now created_at s =
      run_with-IsPermitted none (some e) now created_at s
  run-IsPermitted (some id) (some e) now created_at s = inr (tt, refl)

  deny_of_IsPermitted :
      (lease_id : Option String) (envelope : Option SignedEnvelope) (now : Datetime)
      (s : State World)
      → is_deny (evaluate request runtime.registry).verdict ≡ true
      → ¬ IsPermitted lease_id envelope now s
  deny_of_IsPermitted lease_id envelope now s denied (by_gate allowed) =
      deny_not_allow (evaluate request runtime.registry).verdict denied allowed
  deny_of_IsPermitted lease_id envelope now s denied (by_lease reviewed leased) =
      deny_not_review (evaluate request runtime.registry).verdict denied reviewed

  -- No lease of either kind helps where the gate denies: the world stays as it is, and a receipt
  -- that is returned says NOT_EXECUTED under a gate other than ALLOW.
  pub run-denied :
      (lease_id : Option String) (envelope : Option SignedEnvelope) (now : Datetime)
      (created_at : String) (s : State World)
      → is_deny (evaluate request runtime.registry).verdict ≡ true
      → let out = run execute runtime lease_id envelope request now created_at s in
        (IsUnexecuted out.0 × (out.1.world ≡ s.world))
  run-denied lease_id envelope now created_at s denied =
      elim (run-IsPermitted lease_id envelope now created_at s) [
        | inl permitted ↦ absurd (deny_of_IsPermitted lease_id envelope now s denied permitted)
        | inr held ↦ held
      ]
