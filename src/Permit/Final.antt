-- ===== src/Permit/Final.antt =====
-- What stands behind a final receipt.
use autonomy_harbor.Base.{
  ◌≡◌, inl, inr, String, true, false, Option, none, some, ◌||◌, arith, ok, Result-cases, Bool-cases,
  sym, ap, ◌∙◌,
}
use autonomy_harbor.Json.{arr, obj, str, null, bool, int, get, Json}
use autonomy_harbor.Platform.{Platform, Datetime}
use autonomy_harbor.Models.{ActionRequest, ActionReceipt, allow}
use mathlib.Core.Path.{subst}
use autonomy_harbor.Broker.{request_digest}
use autonomy_harbor.Receipt.{create_receipt}
use autonomy_harbor.Receipt.Seal.{IsSealed, create_receipt-IsSealed}
use autonomy_harbor.Runtime.{sign_action_receipt, action_receipt_payload}
use autonomy_harbor.Envelope.Verified.{previous-sign_payload}
use autonomy_harbor.Signer.{Signer, TrustStore}
use autonomy_harbor.Envelope.{SignedEnvelope, sign_payload}
use autonomy_harbor.Envelope.Verify.{verify_envelope}
use autonomy_harbor.Envelope.Verified.{IsVerified, verify_envelope_iff}
use autonomy_harbor.Authorizer.{is_text_at}
use autonomy_harbor.Permit.Outcome.{
  FinalParts, final_parts, signed_final, result_refusal, judge, check_outcome,
  verify_execution_result, final_receipt_from_appliance,
}

check_outcome-text :
    (v : Option Json) (t : String)
    → check_outcome v ≡ ok (true, t)
    → (is_text_at v "SUCCEEDED" || is_text_at v "FAILED") ≡ true
unfolding check_outcome
check_outcome-text none t h = ground arith
check_outcome-text (some null) t h = ground arith
check_outcome-text (some (bool b)) t h = ground arith
check_outcome-text (some (int n)) t h = ground arith
check_outcome-text (some (str s)) t h = ground arith
check_outcome-text (some (arr vs)) t h = ground arith
check_outcome-text (some (obj d)) t h = ground arith

module _ ⦃p : Platform⦄ (request : ActionRequest) (permit result : SignedEnvelope)
    (store : TrustStore) where
  -- The evidence of an execution: a permit and a result that verify, and belong together.
  pub record IsEvidence : Type 0 where
    pub permit_verified :
        IsVerified permit store (some "execution_permit_issuer") (some "execution_permit")
    pub result_verified :
        IsVerified result store (some "executor_result_signer") (some "execution_result")
    pub of_permit : is_text_at (get "permit_hash" result.payload) permit.envelope_hash ≡ true
    pub of_request :
        is_text_at (get "request_digest" result.payload) (request_digest request) ≡ true
    pub evidence_only : is_text_at (get "authority_effect" result.payload) "EVIDENCE_ONLY" ≡ true
    pub outcome :
        (is_text_at (get "outcome" result.payload) "SUCCEEDED"
          || is_text_at (get "outcome" result.payload) "FAILED")
        ≡ true

  pub evidence_of_verified :
      (t : String)
      → (verify_envelope permit store (some "execution_permit_issuer") (some "execution_permit")).ok
        ≡ true
      → verify_execution_result result permit request store ≡ ok (true, t)
      → IsEvidence
  unfolding verify_execution_result result_refusal judge
  evidence_of_verified t v h = record {
    permit_verified =
        (verify_envelope_iff permit store (some "execution_permit_issuer")
            (some "execution_permit")).0
          v;
    result_verified =
        (verify_envelope_iff result store (some "executor_result_signer")
            (some "execution_result")).0
          (ground arith);
    of_permit = ground arith;
    of_request = ground arith;
    evidence_only = ground arith;
    outcome = check_outcome-text (get "outcome" result.payload) t (ground arith);
  }

  -- A final receipt is made only of a permit that verifies for an issuer of permits and a result that
  -- verifies for an executor, names that permit's digest and the request's, claims no authority, and
  -- has SUCCEEDED or FAILED as its outcome.
  pub final_receipt_from_appliance-IsEvidence :
      (signer : Signer) (previous previous_envelope : Option String) (now : Datetime)
      (out : ActionReceipt × SignedEnvelope)
      → final_receipt_from_appliance request permit result store signer previous previous_envelope
          now
        ≡ ok out
      → IsEvidence
  unfolding final_receipt_from_appliance final_parts
  final_receipt_from_appliance-IsEvidence signer previous previous_envelope now out h =
      elim (Bool-cases
        (verify_envelope permit store (some "execution_permit_issuer")
          (some "execution_permit")).ok) [
            | inr bad ↦ absurd (ground arith)
            | inl good ↦ elim (Result-cases (verify_execution_result result permit request store)) [
              | inr (e, bad) ↦ absurd (ground arith)
              | inl ((true, t), fine) ↦ evidence_of_verified t good fine
              | inl ((false, t), bad) ↦ absurd (ground arith)
            ]
          ]

  -- A final receipt is sealed, is linked to the receipt and to the envelope before it, and is for the
  -- request under ALLOW.
  pub record IsFinal (previous previous_envelope : Option String) (r : ActionReceipt)
      (e : SignedEnvelope) : Type 0 where
    pub sealed : IsSealed r
    pub linked : r.previous_receipt_hash ≡ previous
    pub chained : e.previous_envelope_hash ≡ previous_envelope
    pub allowed : r.gate ≡ allow
    pub same : r.request_id ≡ request.request_id

  parts_allow :
      (now : Datetime) (parts : FinalParts)
      → final_parts request permit result store now ≡ ok parts
      → parts.decision.verdict ≡ allow
  unfolding final_parts
  parts_allow now parts h = ground arith

  signed_final-eq :
      (receipt : ActionReceipt) (signer : Signer) (signed_at : String)
      (previous_envelope : Option String) (r : ActionReceipt) (e : SignedEnvelope)
      → signed_final receipt signer signed_at previous_envelope ≡ ok (r, e)
      → (r ≡ receipt) × (e.previous_envelope_hash ≡ previous_envelope)
  unfolding signed_final sign_action_receipt
  signed_final-eq receipt signer signed_at previous_envelope r e h =
      elim (Result-cases (
        sign_payload "action_receipt" (action_receipt_payload receipt) signer signed_at
          previous_envelope)) [
            | inr (x, bad) ↦ absurd (ground arith)
            | inl (signed, good) ↦
                let chained =
                  previous-sign_payload "action_receipt" (action_receipt_payload receipt) signer
                    previous_envelope signed_at signed good in
                ground (arith, good, chained)
          ]

  pub final_receipt_from_appliance-IsFinal :
      (signer : Signer) (previous previous_envelope : Option String) (now : Datetime)
      (r : ActionReceipt) (e : SignedEnvelope)
      → final_receipt_from_appliance request permit result store signer previous previous_envelope
          now
        ≡ ok (r, e)
      → IsFinal previous previous_envelope r e
  unfolding final_receipt_from_appliance
  final_receipt_from_appliance-IsFinal signer previous previous_envelope now r e h =
      elim (Result-cases (final_parts request permit result store now)) [
        | inr (x, bad) ↦ absurd (ground arith)
        | inl (parts, good) ↦
            let made_at = p.isoformat parts.current in
            let receipt : ActionReceipt =
              create_receipt request parts.decision parts.registry parts.outcome parts.result
                previous made_at in
            let signed : signed_final receipt signer made_at previous_envelope ≡ ok (r, e) =
              ground (arith, good) in
            let (same, chained) =
              signed_final-eq receipt signer made_at previous_envelope r e signed in
            record {
              sealed =
                  subst (λ (t : ActionReceipt). IsSealed t) (sym same)
                    (create_receipt-IsSealed request parts.decision parts.registry parts.outcome
                      parts.result previous made_at);
              linked =
                  unfold create_receipt in ap (λ (t : ActionReceipt). t.previous_receipt_hash) same;
              chained = chained;
              allowed =
                  unfold create_receipt in
                  ap (λ (t : ActionReceipt). t.gate) same ∙ parts_allow now parts good;
              same = unfold create_receipt in ap (λ (t : ActionReceipt). t.request_id) same;
            }
      ]
