-- ===== src/Authorizer.antt =====
-- The signed review leases of verifiable.py: their payloads, their issue, and
-- `SignedReviewAuthorizer.redeem`, whose state is the rows of the replay ledger.
pub mod Facts
pub mod Issued
use autonomy_harbor.Base.{
  ℕ, ℤ, pos, negsuc, String, Bool, true, false, not, ◌&&◌, ◌||◌, Option, none, some, List, [], ◌∷◌,
  ltb, leb, ◌==◌, ◌<>◌, texts_eq, or_else, Result, ok, raised, fail, reject_if, ErrorClass,
  value_error, key_error, type_error, if◌then◌else◌, ◌>>=◌, ◌>>◌,
}
use autonomy_harbor.Base.{
  overflow_error, permission_error, runtime_error, execution_error, adapter_error,
  adapter_not_found, adapter_conflict, attribute_error,
}
use autonomy_harbor.Json.{
  Json, null, bool, int, str, arr, obj, Items, nil, cons, Fields, fields, strs, keys, has_exactly,
  get,
}
use autonomy_harbor.Platform.{
  Platform, Datetime, text_of, parse_time, to_utc, add_seconds, timestamp_text,
}
use autonomy_harbor.Models.{ActionRequest, GateDecision, is_review}
use autonomy_harbor.Broker.{ReviewLease, ReviewAuthorization, request_digest, check_lease}
use autonomy_harbor.Broker.Methods.{lease_refusal}
use autonomy_harbor.Signer.{Signer, TrustStore}
use autonomy_harbor.Envelope.{SignedEnvelope, sign_payload, required}
use autonomy_harbor.Envelope.Verify.{VerificationResult, verify_envelope}
use autonomy_harbor.Ledger.{Row, Sqlite, consume_lease}

-- `type(exc).__name__`
abbrev pub class_name : ErrorClass → String
class_name value_error = "ValueError"
class_name key_error = "KeyError"
class_name type_error = "TypeError"
class_name overflow_error = "OverflowError"
class_name permission_error = "PermissionError"
class_name runtime_error = "RuntimeError"
class_name execution_error = "ExecutionError"
class_name adapter_error = "AdapterError"
class_name adapter_not_found = "AdapterNotFound"
class_name adapter_conflict = "AdapterConflict"
class_name attribute_error = "AttributeError"

unfoldable pub review_lease_payload : ReviewLease → Fields
review_lease_payload lease = fields (
    ("lease_id", str lease.lease_id)
    ∷ ("request_digest", str lease.request_digest)
    ∷ ("capability", str lease.capability)
    ∷ ("action", str lease.action)
    ∷ ("resource", str lease.resource)
    ∷ ("review_grant_ids", arr (strs lease.review_grant_ids))
    ∷ ("issued_by", str lease.issued_by)
    ∷ ("issued_at", str lease.issued_at)
    ∷ ("expires_at", str lease.expires_at)
    ∷ ("max_uses", int (pos lease.max_uses))
    ∷ ("issuer_type", str lease.issuer_type)
    ∷ ("authority_effect", str "ONE_SHOT_REVIEW_ONLY")
    ∷ [])

abbrev expected_fields : List String
expected_fields =
    "lease_id" ∷ "request_digest" ∷ "capability" ∷ "action" ∷ "resource" ∷ "review_grant_ids"
    ∷ "issued_by" ∷ "issued_at" ∷ "expires_at" ∷ "max_uses" ∷ "issuer_type" ∷ "authority_effect"
    ∷ []

-- whether `v == text`, and `d.get(k) == text`
abbrev pub is_text : String → Json → Bool
is_text t (str s) = s == t
is_text t _ = false

abbrev pub is_text_at : Option Json → String → Bool
is_text_at none t = false
is_text_at (some v) t = is_text t v

-- the texts of one character that a text is iterated as
unfoldable pub letters : String → List String
letters String.[] = []
letters (String.◌∷◌ c s) = String.◌∷◌ c String.[] ∷ letters s

module _ ⦃p : Platform⦄ where
  unfoldable pub texts_of : Items → List String
  texts_of nil = []
  texts_of (cons v vs) = text_of v ∷ texts_of vs

  -- `tuple(str(v) for v in value)`
  unfoldable pub each_text : Json → Result (List String)
  each_text (arr vs) = ok (texts_of vs)
  each_text (str s) = ok (letters s)
  each_text (obj d) = ok (keys d)
  each_text v = fail type_error "object is not iterable"

  int_read : Option ℤ → Result ℕ
  int_read none = fail value_error "invalid literal for int()"
  int_read (some (pos n)) = ok n
  int_read (some (negsuc n)) = ok 0

  -- `int(value)`, for `max_uses`; a negative number is read as 0, which no lease may have either
  unfoldable pub int_of_json : Json → Result ℕ
  unfolding int_read
  int_of_json (int n) = int_read (some n)
  int_of_json (bool true) = ok 1
  int_of_json (bool false) = ok 0
  int_of_json (str s) = int_read (p.int_of s)
  int_of_json v = fail type_error "int() argument must be a string or a number"

  unfoldable pub review_lease_from_payload : Fields → Result ReviewLease
  review_lease_from_payload payload = do
    reject_if (not (has_exactly expected_fields payload)) "review_lease_payload_fields_mismatch"
    reject_if (not (is_text_at (get "authority_effect" payload) "ONE_SHOT_REVIEW_ONLY"))
        "invalid_review_lease_authority_effect"
    lease_id ← required "lease_id" payload
    digest ← required "request_digest" payload
    capability ← required "capability" payload
    action ← required "action" payload
    resource ← required "resource" payload
    raw ← required "review_grant_ids" payload
    grant_ids ← each_text raw
    issued_by ← required "issued_by" payload
    issued_at ← required "issued_at" payload
    expires_at ← required "expires_at" payload
    raw_uses ← required "max_uses" payload
    max_uses ← int_of_json raw_uses
    issuer_type ← required "issuer_type" payload
    check_lease (record {
      lease_id = text_of lease_id;
      request_digest = text_of digest;
      capability = text_of capability;
      action = text_of action;
      resource = text_of resource;
      review_grant_ids = grant_ids;
      issued_by = text_of issued_by;
      issued_at = text_of issued_at;
      expires_at = text_of expires_at;
      max_uses = max_uses;
      issuer_type = text_of issuer_type;
    })

  -- `lease_id or f"signed-lease-…"`
  unfoldable pub lease_id_for : Option String → ActionRequest → ℕ → String
  lease_id_for lease_id request current =
      or_else lease_id ("signed-lease-" <> request.request_id <> "-" <> timestamp_text current)

  -- The lease that `issue_signed_review_lease` builds, before its class checks it.
  unfoldable pub signed_lease : ActionRequest → GateDecision → Signer → String → ℕ → ℕ → ReviewLease
  signed_lease request base_decision signer lease_id current expires = record {
    lease_id = lease_id;
    request_digest = request_digest request;
    capability = request.capability;
    action = request.action;
    resource = request.resource;
    review_grant_ids = base_decision.matched_grant_ids;
    issued_by = signer.subject;
    issued_at = p.isoformat current;
    expires_at = p.isoformat expires;
    max_uses = 1;
    issuer_type = "HUMAN";
  }

  unfoldable pub signed_lease_at :
      ActionRequest → GateDecision → Signer → ℕ → Option String → ℕ → Result ReviewLease
  signed_lease_at request base_decision signer ttl_seconds lease_id current = do
    expires ← add_seconds current ttl_seconds
    check_lease (
        signed_lease request base_decision signer (lease_id_for lease_id request current) current
          expires)

  unfoldable pub issue_signed_review_lease :
      ActionRequest
      → GateDecision
      → Signer
      → ℕ
      → Option String
      → Datetime
      → Option String
      → Result SignedEnvelope
  issue_signed_review_lease request base_decision signer ttl_seconds lease_id now previous = do
    reject_if (not (is_review base_decision.verdict)) "signed_lease_can_only_be_issued_for_review"
    reject_if (ltb ttl_seconds 1 || ltb 3600 ttl_seconds) "ttl_seconds_must_be_between_1_and_3600"
    current ← to_utc now
    lease ← signed_lease_at request base_decision signer ttl_seconds lease_id current
    sign_payload "review_lease" (review_lease_payload lease) signer (p.isoformat current) previous

  abbrev refused : String → Option String → ReviewAuthorization
  refused reason lease_id = record { authorized = false; reason = reason; lease_id = lease_id }

  module _ ⦃q : Sqlite⦄ where
    unfoldable pub answer_use : Bool × List Row → String → Result ReviewAuthorization × List Row
    answer_use (true, rows) lease_id = (
      ok (record {
        authorized = true;
        reason = "signed_human_review_lease_redeemed";
        lease_id = some lease_id;
      }),
      rows,
    )
    answer_use (false, rows) lease_id = (ok (refused "lease_already_used" (some lease_id)), rows)

    unfoldable pub use_lease :
        Result (Option String)
        → ReviewLease
        → SignedEnvelope
        → ℕ
        → List Row
        → Result ReviewAuthorization × List Row
    use_lease (raised e) lease envelope current rows = (raised e, rows)
    use_lease (ok (some reason)) lease envelope current rows =
        (ok (refused reason (some lease.lease_id)), rows)
    use_lease (ok none) lease envelope current rows =
        answer_use (consume_lease lease.lease_id envelope.envelope_hash (p.isoformat current) rows)
          lease.lease_id

    unfoldable pub redeem_lease :
        Result ReviewLease
        → SignedEnvelope
        → ActionRequest
        → GateDecision
        → ℕ
        → List Row
        → Result ReviewAuthorization × List Row
    redeem_lease (raised e) envelope request base_decision current rows =
        (ok (refused ("signed_lease_payload_invalid:" <> class_name e.kind) none), rows)
    redeem_lease (ok lease) envelope request base_decision current rows =
        if not (lease.issued_by == envelope.signer_id)
        then (ok (refused "signed_lease_issuer_mismatch" (some lease.lease_id)), rows)
        else use_lease (lease_refusal lease request base_decision current) lease envelope current
            rows

    unfoldable pub redeem_signed_at :
        Result ℕ
        → TrustStore
        → SignedEnvelope
        → ActionRequest
        → GateDecision
        → List Row
        → Result ReviewAuthorization × List Row
    redeem_signed_at (raised e) store envelope request base_decision rows = (raised e, rows)
    redeem_signed_at (ok current) store envelope request base_decision rows =
        let verification =
          verify_envelope envelope store (some "review_issuer") (some "review_lease") in
        if not (is_review base_decision.verdict)
        then (ok (refused "base_gate_is_not_review" none), rows)
        else if not verification.ok
        then (ok (refused ("signed_lease_" <> verification.reason) none), rows)
        else redeem_lease (review_lease_from_payload envelope.payload) envelope request
            base_decision current rows

    -- `SignedReviewAuthorizer.redeem`
    unfoldable pub redeem_signed :
        TrustStore
        → SignedEnvelope
        → ActionRequest
        → GateDecision
        → Datetime
        → List Row
        → Result ReviewAuthorization × List Row
    redeem_signed store envelope request base_decision now rows =
        redeem_signed_at (to_utc now) store envelope request base_decision rows
