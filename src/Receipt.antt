-- ===== src/Receipt.antt =====
-- receipt.py: the receipt of an attempt, sealed by the digest of its other fields.
pub mod Seal
use autonomy_harbor.Base.{String, Option, List, [], ◌∷◌}
use autonomy_harbor.Json.{Json, str, arr, obj, Fields, fields, opt_str, strs}
use autonomy_harbor.Platform.{Platform, sha256_hex}
use autonomy_harbor.Models.{
  ActionRequest, CapabilityRegistry, GateDecision, ActionReceipt, verdict_text,
}

abbrev pub receipt_version : String
receipt_version = "0.1"

-- `body`, which is hashed
unfoldable pub receipt_body :
    ActionRequest
    → GateDecision
    → CapabilityRegistry
    → String
    → Fields
    → Option String
    → String
    → Json
receipt_body request decision registry outcome result previous created_at = obj (
    fields (
      ("receipt_version", str receipt_version)
      ∷ ("request_id", str request.request_id)
      ∷ ("capability", str request.capability)
      ∷ ("action", str request.action)
      ∷ ("resource", str request.resource)
      ∷ ("gate", str (verdict_text decision.verdict))
      ∷ ("gate_reason", str decision.reason)
      ∷ ("matched_grant_ids", arr (strs decision.matched_grant_ids))
      ∷ ("outcome", str outcome)
      ∷ ("result", obj result)
      ∷ ("registry_id", str registry.registry_id)
      ∷ ("registry_version", str registry.version)
      ∷ ("created_at", str created_at)
      ∷ ("previous_receipt_hash", opt_str previous)
      ∷ []))

module _ ⦃p : Platform⦄ where
  -- `created_at` is the time that the caller gives, or that of the clock.
  unfoldable pub create_receipt :
      ActionRequest
      → GateDecision
      → CapabilityRegistry
      → String
      → Fields
      → Option String
      → String
      → ActionReceipt
  create_receipt request decision registry outcome result previous created_at = record {
    receipt_version = receipt_version;
    request_id = request.request_id;
    capability = request.capability;
    action = request.action;
    resource = request.resource;
    gate = decision.verdict;
    gate_reason = decision.reason;
    matched_grant_ids = decision.matched_grant_ids;
    outcome = outcome;
    result = result;
    registry_id = registry.registry_id;
    registry_version = registry.version;
    created_at = created_at;
    previous_receipt_hash = previous;
    receipt_hash =
        sha256_hex (receipt_body request decision registry outcome result previous created_at);
  }
