-- ===== src/Services/Submits.antt =====
-- The bridge on an appliance of its own: what a tool's call can bring about.
use autonomy_harbor.Base.{
  Exception, Result-cases, Bool-cases, inl, inr, sym, ◌⊎◌, ℕ, ◌≡◌, ◌∙◌, refl, String, Bool, true,
  false, ◌||◌, Option, none, some, List, [], ◌∷◌, arith, Result, ok, ◌==◌, raised,
}
use mathlib.Core.Path.{subst}
use autonomy_harbor.Json.{Json, str, obj, Fields, fields, get, put}
use autonomy_harbor.Platform.{Platform, Datetime, text_of}
use autonomy_harbor.Models.{
  ActionRequest, make_request, GateDecision, Verdict, allow, review, deny, is_allow, is_review,
  is_deny, verdict_text, other,
}
use autonomy_harbor.Gate.{evaluate}
use autonomy_harbor.Ledger.{Row, Sqlite}
use autonomy_harbor.Permit.Messages.{
  action_request_dict, action_request_from_dict-action_request_dict, gate_decision_dict,
}
use autonomy_harbor.Services.{response, request_in}
use autonomy_harbor.Services.Planner.{propose, handle_planner}
use autonomy_harbor.Services.Gate.{
  GateService, Clock, lease_in, decide_shown, decision_reply, reply_for, authorize, handle_gate,
}
use autonomy_harbor.Services.Executor.{ExecutorService, ExecutorState, handle_executor}
use autonomy_harbor.Services.Verifier.{VerifierService, ChainState, handle_verifier}
use autonomy_harbor.Services.Bridge.{
  Role, planner, gate, executor, verifier, Submission, HarborMcpBridge, BridgeState,
  propose_message, authorize_message, on_decision, on_gated, on_request, on_planned,
  submit_action_request,
}

-- what the processes have loaded, and the id of the process that answers
pub record Services : Type 0 where
  pub gate_service : GateService
  pub executor_service : ExecutorService
  pub verifier_service : VerifierService
  pub service_pid : ℕ

-- what they keep
pub record Appliance (World : Type 0) : Type 0 where
  pub gate_rows : List Row
  pub executor_state : ExecutorState World
  pub chain : ChainState

-- the readings of the clock during a submission
pub record Moments : Type 0 where
  pub at_gate : Clock
  pub at_executor : Clock
  pub at_verifier : Datetime
  pub result_id : String

abbrev answered {ℓ} : {S : Type ℓ} → ℕ → Result Fields → S → Result Fields × S
answered pid reply s = (ok (response pid reply), s)

abbrev is_held_verdict : Verdict → Bool
is_held_verdict v = is_review v || is_deny v

held_text : (v : Verdict) → is_held_verdict v ≡ true → (verdict_text v == "ALLOW") ≡ false
held_text allow h = absurd (ground arith)
held_text review h = refl
held_text deny h = refl
held_text (other t) h = absurd (ground arith)

held_unallowed : (v : Verdict) → is_held_verdict v ≡ true → is_allow v ≡ false
held_unallowed v h = ground arith

denied_unreviewed : (v : Verdict) → is_deny v ≡ true → is_review v ≡ false
denied_unreviewed v h = ground arith

make_request-again :
    (id capability action resource : String) (payload : Fields) (actor : String) (r : ActionRequest)
    → make_request id capability action resource payload actor ≡ ok r
    → make_request r.request_id r.capability r.action r.resource r.payload r.actor ≡ ok r
unfolding make_request
make_request-again id capability action resource payload actor r made = ground (arith, made)

-- the gate's own answer keeps the request, whatever lease is shown
abbrev pub IsHeld : Verdict → Option Fields → Type 0
IsHeld v none = is_held_verdict v ≡ true
IsHeld v (some lease) = is_deny v ≡ true

-- the request may be executed, or its lease redeemed
abbrev pub IsOpen : Verdict → Option Fields → Type 0
IsOpen v none = is_held_verdict v ≡ false
IsOpen v (some lease) = is_deny v ≡ false

IsHeld-verdict : (v : Verdict) (lease : Option Fields) → IsHeld v lease → is_held_verdict v ≡ true
IsHeld-verdict v none held = held
IsHeld-verdict v (some lease) held = ground arith

module _ ⦃p : Platform⦄ ⦃q : Sqlite⦄ {World : Type 0}
    (act : ActionRequest → World → Result Fields × World) (services : Services)
    (moments : Moments) where
  -- `UnixJsonClient.call`, with the service at the other end
  unfoldable pub call : Role → Fields → Appliance World → Result Fields × Appliance World
  call planner message s = answered services.service_pid (handle_planner message) s
  call gate message s =
      let (reply, rows) = handle_gate services.gate_service message moments.at_gate s.gate_rows in
      answered services.service_pid reply (record s { gate_rows = rows })
  call executor message s =
      let (reply, t) =
        handle_executor act services.executor_service message moments.result_id moments.at_executor
          s.executor_state in
      answered services.service_pid reply (record s { executor_state = t })
  call verifier message s =
      let (reply, chain) =
        handle_verifier services.verifier_service message moments.at_verifier s.chain in
      answered services.service_pid reply (record s { chain = chain })

  on_gated-held :
      (base : GateDecision) (s : BridgeState (Appliance World)) (request : Json)
      → is_held_verdict base.verdict ≡ true
      → (on_gated call
          (ok (response services.service_pid (ok (decision_reply services.gate_service base base))))
          request
          s).1
        ≡ s
  unfolding on_gated on_decision response decision_reply gate_decision_dict get put
  on_gated-held base s request held = rw (held_text base.verdict held) refl

  handle_planner-made :
      (bridge : HarborMcpBridge) (a : Submission) (r : ActionRequest)
      → make_request a.request_id a.capability a.action a.resource a.payload bridge.actor ≡ ok r
      → handle_planner (propose_message bridge a)
        ≡ ok (fields (("role", str "planner") ∷ ("request", obj (action_request_dict r)) ∷ []))
  unfolding handle_planner propose propose_message get text_of
  handle_planner-made bridge a r made = rw (made) refl

  request_in-made :
      (r : ActionRequest) (lease : Option Fields)
      → make_request r.request_id r.capability r.action r.resource r.payload r.actor ≡ ok r
      → request_in (authorize_message (obj (action_request_dict r)) lease) ≡ ok r
  unfolding request_in authorize_message get
  request_in-made r none made = action_request_from_dict-action_request_dict r ∙ made
  request_in-made r (some lease) made = action_request_from_dict-action_request_dict r ∙ made

  authorize-held :
      (r : ActionRequest) (lease : Option Fields) (rows : List Row)
      → let base = evaluate r services.gate_service.registry in
        IsHeld base.verdict lease
        → make_request r.request_id r.capability r.action r.resource r.payload r.actor ≡ ok r
        → handle_gate services.gate_service
            (authorize_message (obj (action_request_dict r)) lease)
            moments.at_gate
            rows
          ≡ (ok (decision_reply services.gate_service base base), rows)
  unfolding handle_gate authorize authorize_message lease_in decide_shown reply_for get
  authorize-held r none rows held made =
      rw (request_in-made r none made)
        (rw (held_unallowed (evaluate r services.gate_service.registry).verdict held) refl)
  authorize-held r (some lease) rows held made = rw (request_in-made r (some lease) made) (
      rw (denied_unreviewed (evaluate r services.gate_service.registry).verdict held) (
        rw
          (held_unallowed (evaluate r services.gate_service.registry).verdict
            (IsHeld-verdict (evaluate r services.gate_service.registry).verdict (some lease) held))
          refl))

  -- A submission whose request the gate's registry denies, or sends to review while no lease is shown,
  -- changes nothing: the state of every process and the log of receipts are what they were.
  submit_action_request-held :
      (bridge : HarborMcpBridge) (a : Submission) (r : ActionRequest)
      (s : BridgeState (Appliance World))
      → make_request a.request_id a.capability a.action a.resource a.payload bridge.actor ≡ ok r
      → IsHeld (evaluate r services.gate_service.registry).verdict a.signed_review_lease
      → (submit_action_request call bridge a s).1 ≡ s
  unfolding submit_action_request on_planned on_request call response get put
  submit_action_request-held bridge a r s made held = rw (handle_planner-made bridge a r made) (
      rw
        (authorize-held r a.signed_review_lease s.services.gate_rows held (
          make_request-again a.request_id a.capability a.action a.resource a.payload bridge.actor r
            made))
        (on_gated-held (evaluate r services.gate_service.registry) s (obj (action_request_dict r)) (
          IsHeld-verdict (evaluate r services.gate_service.registry).verdict a.signed_review_lease
            held)))

  handle_planner-raised :
      (bridge : HarborMcpBridge) (a : Submission) (e : Exception)
      → make_request a.request_id a.capability a.action a.resource a.payload bridge.actor ≡ raised e
      → handle_planner (propose_message bridge a) ≡ raised e
  unfolding handle_planner propose propose_message get text_of
  handle_planner-raised bridge a e h = rw (h) refl

  submit_action_request-raised :
      (bridge : HarborMcpBridge) (a : Submission) (e : Exception)
      (s : BridgeState (Appliance World))
      → make_request a.request_id a.capability a.action a.resource a.payload bridge.actor ≡ raised e
      → (submit_action_request call bridge a s).1 ≡ s
  unfolding submit_action_request on_planned on_request call response get
  submit_action_request-raised bridge a e s h = rw (handle_planner-raised bridge a e h) refl

  submit_action_request-opens :
      (bridge : HarborMcpBridge) (a : Submission) (r : ActionRequest)
      (s : BridgeState (Appliance World)) (lease : Option Fields)
      → a.signed_review_lease ≡ lease
      → make_request a.request_id a.capability a.action a.resource a.payload bridge.actor ≡ ok r
      → ((submit_action_request call bridge a s).1 ≡ s)
        ⊎ IsOpen (evaluate r services.gate_service.registry).verdict lease
  submit_action_request-opens bridge a r s none e made =
      elim (Bool-cases (is_held_verdict (evaluate r services.gate_service.registry).verdict)) [
        | inr free ↦ inr free
        | inl held ↦ inl (
            submit_action_request-held bridge a r s made
              (subst (IsHeld (evaluate r services.gate_service.registry).verdict) (sym e) held))
      ]
  submit_action_request-opens bridge a r s (some lease) e made =
      elim (Bool-cases (is_deny (evaluate r services.gate_service.registry).verdict)) [
        | inr free ↦ inr free
        | inl held ↦ inl (
            submit_action_request-held bridge a r s made
              (subst (IsHeld (evaluate r services.gate_service.registry).verdict) (sym e) held))
      ]

  -- A submission leaves the state of every process and the log of receipts as they were, unless its
  -- fields make a request, with the bridge's actor, that the gate's registry does not deny, and does
  -- not send to review where no lease is shown.
  pub submit_action_request-cases :
      (bridge : HarborMcpBridge) (a : Submission) (s : BridgeState (Appliance World))
      → ((submit_action_request call bridge a s).1 ≡ s)
        ⊎ (r : ActionRequest) × (make_request a.request_id a.capability a.action a.resource
              a.payload bridge.actor
            ≡ ok r)
          × IsOpen (evaluate r services.gate_service.registry).verdict a.signed_review_lease
  submit_action_request-cases bridge a s =
      elim (Result-cases
        (make_request a.request_id a.capability a.action a.resource a.payload bridge.actor)) [
          | inr (e, bad) ↦ inl (submit_action_request-raised bridge a e s bad)
          | inl (r, made) ↦
              elim (submit_action_request-opens bridge a r s a.signed_review_lease refl made) [
                | inl same ↦ inl same
                | inr free ↦ inr (r, made, free)
              ]
        ]
