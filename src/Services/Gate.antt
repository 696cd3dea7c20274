-- ===== src/Services/Gate.antt =====
-- `gate_handler`, which decides a request, uses a signed lease if one is shown, and issues a permit.
use autonomy_harbor.Base.{
  ℕ, not, Option, none, some, List, [], ◌∷◌, Result, ok, raised, fail, value_error, if◌then◌else◌,
  ◌>>=◌,
}
use autonomy_harbor.Json.{Json, null, str, obj, Fields, fields, get, put}
use autonomy_harbor.Platform.{Platform, Datetime}
use autonomy_harbor.Models.{ActionRequest, CapabilityRegistry, GateDecision, is_allow, is_review}
use autonomy_harbor.Gate.{evaluate}
use autonomy_harbor.Signer.{Signer, TrustStore, key_id}
use autonomy_harbor.Envelope.{SignedEnvelope, as_dict, dict_of, from_dict}
use autonomy_harbor.Ledger.{Row, Sqlite}
use autonomy_harbor.Authorizer.{redeem_signed}
use autonomy_harbor.Runtime.{answer, decision_of}
use autonomy_harbor.Permit.{issue_execution_permit}
use autonomy_harbor.Permit.Messages.{gate_decision_dict}
use autonomy_harbor.Services.{has_op, request_in}

-- What the gate's process loads.
pub record GateService : Type 0 where
  pub registry : CapabilityRegistry
  pub trust : TrustStore
  pub signer : Signer
  pub permit_ttl_seconds : ℕ

-- two readings of the clock
pub record Clock : Type 0 where
  pub earlier : Datetime
  pub later : Datetime

-- `message.get("signed_review_lease")`, where it is not `None`
unfoldable pub lease_in : Option Json → Option Json
lease_in (some null) = none
lease_in v = v

module _ ⦃p : Platform⦄ where
  unfoldable pub read_lease : Json → Result SignedEnvelope
  read_lease v = do value ← dict_of v; from_dict value

module _ ⦃p : Platform⦄ ⦃q : Sqlite⦄ (gate : GateService) where
  unfoldable pub decide_by_lease :
      Result SignedEnvelope
      → ActionRequest
      → GateDecision
      → Datetime
      → List Row
      → Result GateDecision × List Row
  decide_by_lease (raised e) request base now rows = (raised e, rows)
  decide_by_lease (ok envelope) request base now rows =
      let (a, rows') = redeem_signed gate.trust envelope request base now rows in
      (answer (decision_of "signed_" "signed-" base) a, rows')

  unfoldable pub decide_shown :
      Option Json
      → ActionRequest
      → GateDecision
      → Datetime
      → List Row
      → Result GateDecision × List Row
  decide_shown none request base now rows = (ok base, rows)
  decide_shown (some v) request base now rows =
      if is_review base.verdict
      then decide_by_lease (read_lease v) request base now rows
      else (ok base, rows)

  unfoldable pub decision_reply : GateDecision → GateDecision → Fields
  decision_reply base decision = fields (
      ("role", str "gate")
      ∷ ("base_decision", obj (gate_decision_dict base))
      ∷ ("decision", obj (gate_decision_dict decision))
      ∷ [])

  unfoldable pub permit_reply :
      ActionRequest → GateDecision → GateDecision → Datetime → Result Fields
  permit_reply request base decision now = do
    permit ←
        issue_execution_permit request decision gate.registry gate.signer gate.permit_ttl_seconds
          none now
    ok (put "execution_permit" (obj (as_dict permit)) (decision_reply base decision))

  unfoldable pub reply_for :
      Result GateDecision → ActionRequest → GateDecision → Datetime → Result Fields
  reply_for (raised e) request base now = raised e
  reply_for (ok decision) request base now =
      if is_allow decision.verdict
      then permit_reply request base decision now
      else ok (decision_reply base decision)

  unfoldable pub authorize :
      Result ActionRequest → Option Json → Clock → List Row → Result Fields × List Row
  authorize (raised e) lease clock rows = (raised e, rows)
  authorize (ok request) lease clock rows =
      let base = evaluate request gate.registry in
      let (decision, rows') = decide_shown lease request base clock.earlier rows in
      (reply_for decision request base clock.later, rows')

  unfoldable pub handle_gate : Fields → Clock → List Row → Result Fields × List Row
  handle_gate message clock rows =
      if has_op "health" message
      then (
        ok (
            fields (
              ("role", str "gate")
              ∷ ("status", str "ok")
              ∷ ("key_id", str (key_id gate.signer))
              ∷ ("registry_id", str gate.registry.registry_id)
              ∷ ("registry_version", str gate.registry.version)
              ∷ [])),
        rows,
      )
      else if not (has_op "authorize" message)
      then (fail value_error "gate_op_not_supported", rows)
      else authorize (request_in message) (lease_in (get "signed_review_lease" message)) clock rows
