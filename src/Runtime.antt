-- ===== src/Runtime.antt =====
-- runtime.py: `PersonalAgentRuntime`. The executor is a parameter that changes the world; the
-- broker, the rows of the replay ledger and the two hashes that the runtime keeps are its state.
pub mod Permitted
pub mod Start
pub mod Chained
pub mod Fixtures
mod Tests
use autonomy_harbor.Base.{
  String, Bool, true, false, not, Option, none, some, List, [], ◌∷◌, ◌++◌, ◌<>◌, Result, ok, raised,
  fail, Exception, value_error, if◌then◌else◌, ◌>>=◌,
}
use autonomy_harbor.Json.{Json, str, arr, obj, Fields, end, fields, opt_str, strs, json_eq}
use autonomy_harbor.Platform.{Platform, Datetime}
use autonomy_harbor.Models.{
  ActionRequest, ActionReceipt, CapabilityGrant, CapabilityRegistry, GateDecision, allow, review,
  is_allow, is_review, verdict_text,
}
use autonomy_harbor.Gate.{evaluate}
use autonomy_harbor.Receipt.{create_receipt}
use autonomy_harbor.Broker.{ReviewBroker, ReviewAuthorization}
use autonomy_harbor.Broker.Methods.{redeem}
use autonomy_harbor.Signer.{Signer, TrustStore}
use autonomy_harbor.Envelope.{SignedEnvelope, sign_payload}
use autonomy_harbor.Ledger.{Row, Sqlite}
use autonomy_harbor.Authorizer.{class_name, redeem_signed}

-- What `__init__` fixes; `authorizer` is the trust store of `SignedReviewAuthorizer`.
pub record PersonalAgentRuntime : Type 0 where
  pub registry : CapabilityRegistry
  pub authorizer : Option TrustStore
  pub receipt_signer : Option Signer

pub record State (World : Type 0) : Type 0 where
  pub previous_receipt_hash : Option String
  pub previous_signed_receipt_hash : Option String
  pub broker : Option ReviewBroker
  pub rows : List Row
  pub world : World

-- a lease id in an f-string
abbrev pub shown : Option String → String
shown none = "None"
shown (some t) = t

-- The decision after the use of a lease. `kind` is "signed_" and `label` "signed-" for signed ones.
unfoldable pub decision_of : String → String → GateDecision → ReviewAuthorization → GateDecision
decision_of kind label base a =
    if a.authorized
    then record {
      verdict = allow;
      reason = kind <> "human_review_lease_redeemed";
      matched_grant_ids =
          base.matched_grant_ids ++ (label <> "review-lease:" <> shown a.lease_id) ∷ [];
    }
    else record {
      verdict = review;
      reason = kind <> "review_lease_rejected:" <> a.reason;
      matched_grant_ids = base.matched_grant_ids;
    }

abbrev unavailable : String → GateDecision → GateDecision
unavailable reason base = record {
  verdict = review;
  reason = reason;
  matched_grant_ids = base.matched_grant_ids;
}

unfoldable pub answer :
    (ReviewAuthorization → GateDecision) → Result ReviewAuthorization → Result GateDecision
answer f (raised e) = raised e
answer f (ok a) = ok (f a)

unfoldable pub outcome_of : Result Fields → String
outcome_of (ok result) = "SUCCEEDED"
outcome_of (raised e) = "FAILED"

unfoldable pub result_of : Result Fields → Fields
result_of (ok result) = result
result_of (raised e) = fields (("error", str (class_name e.kind)) ∷ ("reason", str e.message) ∷ [])

unfoldable pub action_receipt_payload : ActionReceipt → Fields
action_receipt_payload r = fields (
    ("receipt_version", str r.receipt_version)
    ∷ ("request_id", str r.request_id)
    ∷ ("capability", str r.capability)
    ∷ ("action", str r.action)
    ∷ ("resource", str r.resource)
    ∷ ("gate", str (verdict_text r.gate))
    ∷ ("gate_reason", str r.gate_reason)
    ∷ ("matched_grant_ids", arr (strs r.matched_grant_ids))
    ∷ ("outcome", str r.outcome)
    ∷ ("result", obj r.result)
    ∷ ("registry_id", str r.registry_id)
    ∷ ("registry_version", str r.registry_version)
    ∷ ("created_at", str r.created_at)
    ∷ ("previous_receipt_hash", opt_str r.previous_receipt_hash)
    ∷ ("receipt_hash", str r.receipt_hash)
    ∷ [])

-- `now or datetime.now(timezone.utc)`
abbrev pub or_clock : Option Datetime → Datetime → Datetime
or_clock none clock = clock
or_clock (some now) clock = now

module _ ⦃p : Platform⦄ where
  unfoldable pub sign_action_receipt :
      ActionReceipt → Signer → String → Option String → Result SignedEnvelope
  sign_action_receipt receipt signer signed_at previous =
      sign_payload "action_receipt" (action_receipt_payload receipt) signer signed_at previous

module _ ⦃p : Platform⦄ ⦃q : Sqlite⦄ {World : Type 0}
    (execute : ActionRequest → World → Result Fields × World) (runtime : PersonalAgentRuntime) where
  unfoldable pub with_signed :
      Option TrustStore
      → SignedEnvelope
      → ActionRequest
      → GateDecision
      → Datetime
      → State World
      → Result GateDecision × State World
  with_signed none envelope request base now s =
      (ok (unavailable "signed_review_authorizer_unavailable" base), s)
  with_signed (some store) envelope request base now s =
      let (a, rows) = redeem_signed store envelope request base now s.rows in
      (answer (decision_of "signed_" "signed-" base) a, record s { rows = rows })

  unfoldable pub with_broker :
      Option ReviewBroker
      → String
      → ActionRequest
      → GateDecision
      → Datetime
      → State World
      → Result GateDecision × State World
  with_broker none lease_id request base now s =
      (ok (unavailable "review_broker_unavailable" base), s)
  with_broker (some b) lease_id request base now s =
      let (a, b') = redeem lease_id request base now b in
      (answer (decision_of "" "" base) a, record s { broker = some b' })

  unfoldable pub with_lease :
      Option String
      → Option SignedEnvelope
      → ActionRequest
      → GateDecision
      → Datetime
      → State World
      → Result GateDecision × State World
  with_lease lease_id (some envelope) request base now s =
      with_signed runtime.authorizer envelope request base now s
  with_lease (some lease_id) none request base now s =
      with_broker s.broker lease_id request base now s
  with_lease none none request base now s = (ok base, s)

  unfoldable pub decide :
      Option String
      → Option SignedEnvelope
      → ActionRequest
      → GateDecision
      → Datetime
      → State World
      → Result GateDecision × State World
  decide lease_id envelope request base now s =
      if is_review base.verdict
      then with_lease lease_id envelope request base now s
      else (ok base, s)

  unfoldable pub keep_receipt :
      ActionRequest
      → GateDecision
      → String
      → Fields
      → String
      → State World
      → ActionReceipt × State World
  keep_receipt request decision outcome result created_at s =
      let receipt =
        create_receipt request decision runtime.registry outcome result s.previous_receipt_hash
          created_at in
      (receipt, record s { previous_receipt_hash = some receipt.receipt_hash })

  unfoldable pub act_on :
      Result GateDecision
      → ActionRequest
      → String
      → State World
      → Result ActionReceipt × State World
  act_on (raised e) request created_at s = (raised e, s)
  act_on (ok decision) request created_at s =
      let (r, world) = execute request s.world in
      let (skipped, s') = keep_receipt request decision "NOT_EXECUTED" end created_at s in
      let (done, s'') =
        keep_receipt request decision (outcome_of r) (result_of r) created_at
          (record s { world = world }) in
      if not (is_allow decision.verdict) then (ok skipped, s') else (ok done, s'')

  unfoldable pub run_with :
      Option String
      → Option SignedEnvelope
      → ActionRequest
      → Datetime
      → String
      → State World
      → Result ActionReceipt × State World
  run_with lease_id envelope request now created_at s =
      let (decision, s') =
        decide lease_id envelope request (evaluate request runtime.registry) now s in
      act_on decision request created_at s'

  -- `run`; `now` is the time that the caller gives, or that of the clock, and `created_at` is when
  -- the receipt is made.
  unfoldable pub run :
      Option String
      → Option SignedEnvelope
      → ActionRequest
      → Datetime
      → String
      → State World
      → Result ActionReceipt × State World
  run (some lease_id) (some envelope) request now created_at s =
      (fail value_error "choose_legacy_or_signed_review_lease_not_both", s)
  run lease_id envelope request now created_at s =
      run_with lease_id envelope request now created_at s

  -- The time in the envelope is a text: `now.isoformat()`, which is in the zone of the caller, where
  -- `now` is given, and else a reading of the clock.
  unfoldable pub signed_time : Option Datetime → String → Result String
  signed_time none sealed_at = ok sealed_at
  signed_time (some now) sealed_at =
      if not now.aware then fail value_error "now_must_be_timezone_aware" else ok sealed_at

  unfoldable pub keep_signed :
      Result SignedEnvelope
      → ActionReceipt
      → State World
      → Result (ActionReceipt × SignedEnvelope) × State World
  keep_signed (raised e) receipt s = (raised e, s)
  keep_signed (ok envelope) receipt s = (
    ok (receipt, envelope),
    record s { previous_signed_receipt_hash = some envelope.envelope_hash },
  )

  unfoldable pub sign_receipt :
      Signer
      → Result ActionReceipt
      → Result String
      → State World
      → Result (ActionReceipt × SignedEnvelope) × State World
  sign_receipt signer (raised e) signed_at s = (raised e, s)
  sign_receipt signer (ok receipt) (raised e) s = (raised e, s)
  sign_receipt signer (ok receipt) (ok signed_at) s =
      keep_signed (sign_action_receipt receipt signer signed_at s.previous_signed_receipt_hash)
        receipt s

  unfoldable pub run_signed_by :
      Option Signer
      → Option String
      → Option SignedEnvelope
      → ActionRequest
      → Option Datetime
      → Datetime
      → String
      → String
      → State World
      → Result (ActionReceipt × SignedEnvelope) × State World
  run_signed_by none lease_id envelope request now clock created_at sealed_at s =
      (fail value_error "receipt_signer_not_configured", s)
  run_signed_by (some signer) lease_id envelope request now clock created_at sealed_at s =
      let (receipt, s') = run lease_id envelope request (or_clock now clock) created_at s in
      sign_receipt signer receipt (signed_time now sealed_at) s'

  -- `run_signed`; `clock` and `created_at` are readings of the clock, and `sealed_at` is the text of
  -- the time that `signed_time` says.
  unfoldable pub run_signed :
      Option String
      → Option SignedEnvelope
      → ActionRequest
      → Option Datetime
      → Datetime
      → String
      → String
      → State World
      → Result (ActionReceipt × SignedEnvelope) × State World
  run_signed lease_id envelope request now clock created_at sealed_at s =
      run_signed_by runtime.receipt_signer lease_id envelope request now clock created_at sealed_at
        s
