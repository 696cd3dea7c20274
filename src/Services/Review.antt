-- ===== src/Services/Review.antt =====
-- `review_signer_handler`, which signs a lease where a human has approved.
use autonomy_harbor.Base.{
  pos, String, Bool, false, not, ◌&&◌, Option, none, some, [], ◌∷◌, is_blank, Result, ok, fail,
  reject_if, permission_error, attribute_error, if◌then◌else◌, ◌>>=◌, ◌>>◌, zero,
}
use autonomy_harbor.Json.{Json, null, bool, int, str, arr, obj, nil, Fields, end, fields, get}
use autonomy_harbor.Platform.{Platform, Datetime, text_of}
use autonomy_harbor.Signer.{Signer, key_id}
use autonomy_harbor.Envelope.{required, dict_of, as_dict}
use autonomy_harbor.Authorizer.{int_of_json, issue_signed_review_lease}
use autonomy_harbor.Registry.{or_default}
use autonomy_harbor.Permit.Messages.{gate_decision_from_dict}
use autonomy_harbor.Services.{has_op, request_in}

-- `approval.get("approved") is not True`
abbrev pub is_true : Option Json → Bool
is_true (some (bool b)) = b
is_true v = false

-- `lease_id or …` takes what is truthy; what is truthy and no text has no `strip`.
unfoldable pub lease_id_of : Option Json → Result (Option String)
lease_id_of none = ok none
lease_id_of (some null) = ok none
lease_id_of (some (bool false)) = ok none
lease_id_of (some (int (pos zero))) = ok none
lease_id_of (some (arr nil)) = ok none
lease_id_of (some (obj end)) = ok none
lease_id_of (some (str s)) = ok (some s)
lease_id_of (some v) = fail attribute_error "object has no attribute 'strip'"

module _ ⦃p : Platform⦄ (signer : Signer) where
  -- whether a human has approved, by name
  unfoldable pub is_approved : Fields → Bool
  is_approved approval =
      is_true (get "approved" approval)
      && not (is_blank (text_of (or_default (get "approved_by" approval) (str ""))))

  unfoldable pub approve_review : Fields → Datetime → Result Fields
  approve_review message now = do
    approval ← dict_of (or_default (get "approval" message) (obj end))
    if is_approved approval then ok tt else fail permission_error "explicit_human_approval_required"
    request ← request_in message
    raw_base ← required "base_decision" message
    base_dict ← dict_of raw_base
    base ← gate_decision_from_dict base_dict
    ttl_seconds ← int_of_json (or_default (get "ttl_seconds" message) (int (pos 300)))
    lease_id ← lease_id_of (get "lease_id" message)
    envelope ← issue_signed_review_lease request base signer ttl_seconds lease_id now none
    ok (
        fields
          (("role", str "review_signer") ∷ ("signed_review_lease", obj (as_dict envelope)) ∷ []))

  unfoldable pub handle_review_signer : Fields → Datetime → Result Fields
  handle_review_signer message now =
      if has_op "health" message
      then ok (
          fields (
            ("role", str "review_signer")
            ∷ ("status", str "ok")
            ∷ ("key_id", str (key_id signer))
            ∷ []))
      else do
        reject_if (not (has_op "approve_review" message)) "review_signer_op_not_supported"
        approve_review message now
