-- ===== src/Permit/Fixtures.antt =====
-- A permit for the read of the reference appliance.
use autonomy_harbor.Base.{ok, raised, none, [], ◌∷◌, Result}
use autonomy_harbor.Json.{Fields, end}
use autonomy_harbor.Platform.Model.{model}
use autonomy_harbor.Models.{ActionReceipt, CapabilityRegistry, GateDecision, allow}
use autonomy_harbor.Receipt.{create_receipt}
use autonomy_harbor.Runtime.{action_receipt_payload}
use autonomy_harbor.Permit.Outcome.{execution_result_payload}
use autonomy_harbor.Gate.Fixtures.{read_request, registry}
use autonomy_harbor.Envelope.{SignedEnvelope, sealed_envelope}
use autonomy_harbor.Envelope.Fixtures.{signer}
use autonomy_harbor.Permit.{execution_permit_payload}

abbrev pub decision : GateDecision
decision = record {
  verdict = allow;
  reason = "explicit_capability_grant";
  matched_grant_ids = "sandbox-read-auto" ∷ [];
}

abbrev or_end : Result Fields → Fields
or_end (ok d) = d
or_end (raised e) = end

abbrev pub permit : SignedEnvelope
permit =
    sealed_envelope "execution_permit"
      (or_end (
        execution_permit_payload "P1" read_request decision registry (model.isoformat 1000000)
          (model.isoformat 31000000)))
      signer (model.isoformat 1000000) none

abbrev pub result : SignedEnvelope
result =
    sealed_envelope "execution_result"
      (execution_result_payload "result-1" "P1" permit.envelope_hash read_request "SUCCEEDED" end
        (model.isoformat 3000000))
      signer (model.isoformat 3000000) none

abbrev pub recorded : CapabilityRegistry
recorded = record registry { grants = [] }

abbrev pub final : ActionReceipt
final = create_receipt read_request decision recorded "SUCCEEDED" end none (model.isoformat 4000000)

abbrev pub final_envelope : SignedEnvelope
final_envelope =
    sealed_envelope "action_receipt" (action_receipt_payload final) signer (model.isoformat 4000000)
      none
