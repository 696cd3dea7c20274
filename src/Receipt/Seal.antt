-- ===== src/Receipt/Seal.antt =====
-- What the digest of a receipt covers.
use autonomy_harbor.Base.{◌≡◌, refl, String, Option, [], ◌∷◌}
use autonomy_harbor.Json.{Json, str, arr, obj, Fields, fields, opt_str, strs}
use autonomy_harbor.Platform.{Platform, sha256_hex}
use autonomy_harbor.Models.{
  ActionRequest, CapabilityRegistry, GateDecision, ActionReceipt, verdict_text,
}
use autonomy_harbor.Receipt.{receipt_body, create_receipt}

-- The fields of a receipt but its digest, as an auditor reads them back.
abbrev pub audited_body : ActionReceipt → Json
audited_body r = obj (
    fields (
      ("receipt_version", str r.receipt_version)
      ∷ ("request_id", str r.request_id)
      ∷ ("capability", str r.capability)
      ∷ ("action", str r.action)
      ∷ ("resource", str r.resource)
      ∷ ("gate", str (verdict_text r.gate))
      ∷ ("gate_reason", str r.gate_reason)
      ∷ ("matched_grant_ids", arr (strs r.matched_grant_ids))
      ∷ ("outcome", str r.outcome)
      ∷ ("result", obj r.result)
      ∷ ("registry_id", str r.registry_id)
      ∷ ("registry_version", str r.registry_version)
      ∷ ("created_at", str r.created_at)
      ∷ ("previous_receipt_hash", opt_str r.previous_receipt_hash)
      ∷ []))

module _ ⦃p : Platform⦄ where
  abbrev pub IsSealed : ActionReceipt → Type 0
  IsSealed r = r.receipt_hash ≡ sha256_hex (audited_body r)

  -- A receipt carries the digest of all its other fields.
  pub create_receipt-IsSealed :
      (request : ActionRequest) (decision : GateDecision) (registry : CapabilityRegistry)
      (outcome : String) (result : Fields) (previous : Option String) (created_at : String)
      → IsSealed (create_receipt request decision registry outcome result previous created_at)
  unfolding create_receipt receipt_body
  create_receipt-IsSealed request decision registry outcome result previous created_at = refl
