-- ===== src/Permit/Outcome.antt =====
-- The signed result of an execution, and the final receipt (appliance.py).
use autonomy_harbor.Base.{
  String, Bool, true, false, not, ◌||◌, Option, none, some, [], ◌∷◌, ◌==◌, ◌<>◌, Result, ok, fail,
  reject_if, type_error, if◌then◌else◌, ◌>>=◌, ◌>>◌, ℕ,
}
use autonomy_harbor.Json.{Json, null, str, arr, obj, Fields, fields, get, json_eq}
use autonomy_harbor.Platform.{Platform, Datetime, text_of, to_utc}
use autonomy_harbor.Models.{ActionRequest, ActionReceipt, CapabilityRegistry, GateDecision, allow}
use autonomy_harbor.Broker.{request_digest}
use autonomy_harbor.Receipt.{create_receipt}
use autonomy_harbor.Signer.{Signer, TrustStore}
use autonomy_harbor.Envelope.{SignedEnvelope, sign_payload, required, dict_of}
use autonomy_harbor.Envelope.Verify.{verify_envelope}
use autonomy_harbor.Authorizer.{is_text_at, each_text}
use autonomy_harbor.Runtime.{sign_action_receipt}
use autonomy_harbor.Permit.{appliance_version}

-- `a.get(k) == b.get(k)`; a missing entry is `None`
abbrev or_null : Option Json → Json
or_null none = null
or_null (some v) = v

abbrev pub same_at : Option Json → Option Json → Bool
same_at v w = json_eq (or_null v) (or_null w)

-- `payload.get("outcome") not in {…}`; a list or a dictionary has no hash
unfoldable pub check_outcome : Option Json → Result (Bool × String)
check_outcome (some (arr vs)) = fail type_error "unhashable type: 'list'"
check_outcome (some (obj d)) = fail type_error "unhashable type: 'dict'"
check_outcome v =
    if is_text_at v "SUCCEEDED" || is_text_at v "FAILED"
    then ok (true, "verified")
    else ok (false, "execution_result_outcome_invalid")

pub record FinalParts : Type 0 where
  pub decision : GateDecision
  pub registry : CapabilityRegistry
  pub current : ℕ
  pub outcome : String
  pub result : Fields

module _ ⦃p : Platform⦄ where
  -- The payload of a result; the text of `result_id` is an argument, as it is made with a float.
  unfoldable pub execution_result_payload :
      String → String → String → ActionRequest → String → Fields → String → Fields
  execution_result_payload result_id permit_id permit_hash request outcome result executed_at =
      fields (
        ("result_version", str appliance_version)
        ∷ ("result_id", str result_id)
        ∷ ("permit_id", str permit_id)
        ∷ ("permit_hash", str permit_hash)
        ∷ ("request_digest", str (request_digest request))
        ∷ ("request_id", str request.request_id)
        ∷ ("capability", str request.capability)
        ∷ ("action", str request.action)
        ∷ ("resource", str request.resource)
        ∷ ("outcome", str outcome)
        ∷ ("result", obj result)
        ∷ ("executed_at", str executed_at)
        ∷ ("authority_effect", str "EVIDENCE_ONLY")
        ∷ [])

  unfoldable pub sign_execution_result :
      ActionRequest
      → SignedEnvelope
      → String
      → Fields
      → Signer
      → String
      → Datetime
      → Result SignedEnvelope
  sign_execution_result request permit outcome result signer result_id now = do
    current ← to_utc now
    permit_id ← required "permit_id" permit.payload
    sign_payload "execution_result"
        (execution_result_payload result_id (text_of permit_id) permit.envelope_hash request outcome
          result (p.isoformat current))
        signer (p.isoformat current) none

  -- `str(payload.get(k)) == t`
  abbrev pub reads : Option Json → String → Bool
  reads v t = text_of (or_null v) == t

  -- the first check of a result's payload to fail
  unfoldable pub result_refusal : Fields → SignedEnvelope → ActionRequest → Option String
  result_refusal payload permit request =
      if not (is_text_at (get "authority_effect" payload) "EVIDENCE_ONLY")
      then some "execution_result_authority_invalid"
      else if not (is_text_at (get "permit_hash" payload) permit.envelope_hash)
      then some "execution_result_permit_hash_mismatch"
      else if not (same_at (get "permit_id" payload) (get "permit_id" permit.payload))
      then some "execution_result_permit_id_mismatch"
      else if not (is_text_at (get "request_digest" payload) (request_digest request))
      then some "execution_result_request_digest_mismatch"
      else if not (reads (get "request_id" payload) request.request_id)
      then some "execution_result_request_id_mismatch"
      else if not (reads (get "capability" payload) request.capability)
      then some "execution_result_capability_mismatch"
      else if not (reads (get "action" payload) request.action)
      then some "execution_result_action_mismatch"
      else if not (reads (get "resource" payload) request.resource)
      then some "execution_result_resource_mismatch"
      else none

  unfoldable pub judge : Option String → Fields → Result (Bool × String)
  judge (some reason) payload = ok (false, reason)
  judge none payload = check_outcome (get "outcome" payload)

  unfoldable pub verify_execution_result :
      SignedEnvelope → SignedEnvelope → ActionRequest → TrustStore → Result (Bool × String)
  verify_execution_result envelope permit request store =
      let verified =
        verify_envelope envelope store (some "executor_result_signer") (some "execution_result") in
      if not verified.ok
      then ok (false, "execution_result_" <> verified.reason)
      else judge (result_refusal envelope.payload permit request) envelope.payload

  -- What the receipt is made of, once the permit and the result have been checked.
  unfoldable pub final_parts :
      ActionRequest → SignedEnvelope → SignedEnvelope → TrustStore → Datetime → Result FinalParts
  final_parts request permit result store now = do
    let permit_check =
        verify_envelope permit store (some "execution_permit_issuer") (some "execution_permit")
    reject_if (not permit_check.ok) ("invalid_execution_permit:" <> permit_check.reason)
    (result_ok, result_reason) ← verify_execution_result result permit request store
    reject_if (not result_ok) result_reason
    gate_reason ← required "gate_reason" permit.payload
    raw ← required "matched_grant_ids" permit.payload
    ids ← each_text raw
    registry_id ← required "registry_id" permit.payload
    version ← required "registry_version" permit.payload
    current ← to_utc now
    outcome ← required "outcome" result.payload
    raw_result ← required "result" result.payload
    value ← dict_of raw_result
    ok (record {
      decision = record { verdict = allow; reason = text_of gate_reason; matched_grant_ids = ids };
      registry = record {
        registry_id = text_of registry_id;
        version = text_of version;
        grants = [];
      };
      current = current;
      outcome = text_of outcome;
      result = value;
    })

  unfoldable pub signed_final :
      ActionReceipt → Signer → String → Option String → Result (ActionReceipt × SignedEnvelope)
  signed_final receipt signer signed_at previous_envelope = do
    signed ← sign_action_receipt receipt signer signed_at previous_envelope
    ok (receipt, signed)

  unfoldable pub final_receipt_from_appliance :
      ActionRequest
      → SignedEnvelope
      → SignedEnvelope
      → TrustStore
      → Signer
      → Option String
      → Option String
      → Datetime
      → Result (ActionReceipt × SignedEnvelope)
  final_receipt_from_appliance request permit result store signer previous previous_envelope now =
      do
        parts ← final_parts request permit result store now
        let made_at = p.isoformat parts.current
        signed_final
            (create_receipt request parts.decision parts.registry parts.outcome parts.result
              previous made_at)
            signer made_at previous_envelope
