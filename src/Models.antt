-- ===== src/Models.antt =====
-- models.py: requests, grants, registries, decisions and receipts, with the checks that their
-- constructors make. The payloads and the results are dictionaries of `Json`.
use autonomy_harbor.Base.{
  String, Bool, true, false, Option, List, [], ◌∷◌, ◌<>◌, is_blank, upper, codes, codes_eq, Result,
  ok, reject_if, fail, value_error, if◌then◌else◌, ◌>>=◌, ◌>>◌,
}
use autonomy_harbor.Json.{Fields}

pub record ActionRequest : Type 0 where
  pub request_id : String
  pub capability : String
  pub action : String
  pub resource : String
  pub payload : Fields
  pub actor : String

unfoldable pub make_request :
    String → String → String → String → Fields → String → Result ActionRequest
make_request request_id capability action resource payload actor = do
  reject_if (is_blank request_id) "request_id is required"
  reject_if (is_blank capability) "capability is required"
  reject_if (is_blank action) "action is required"
  reject_if (is_blank resource) "resource is required"
  ok (record {
    request_id = request_id;
    capability = capability;
    action = action;
    resource = resource;
    payload = payload;
    actor = actor;
  })

-- The effects and the verdicts: the texts ALLOW, REVIEW and DENY, and any other text.
pub data Verdict : Type 0 where
  allow review deny : Verdict
  other : String → Verdict

abbrev pub is_allow : Verdict → Bool
is_allow allow = true
is_allow _ = false

abbrev pub is_review : Verdict → Bool
is_review review = true
is_review _ = false

abbrev pub is_deny : Verdict → Bool
is_deny deny = true
is_deny _ = false

abbrev pub verdict_text : Verdict → String
verdict_text allow = "ALLOW"
verdict_text review = "REVIEW"
verdict_text deny = "DENY"
verdict_text (other t) = t

pub record CapabilityGrant : Type 0 where
  pub grant_id : String
  pub capability : String
  pub effect : Verdict
  pub actions : List String
  pub resources : List String
  pub issued_by : String
  pub note : String

-- `effect.upper()` where it is in `VALID_EFFECTS`
unfoldable pub parse_effect : String → Result Verdict
parse_effect effect =
    let u = upper effect in
    if codes_eq u (codes "ALLOW")
    then ok allow
    else if codes_eq u (codes "REVIEW")
    then ok review
    else if codes_eq u (codes "DENY")
    then ok deny
    else fail value_error ("invalid effect: " <> effect)

abbrev pub is_empty {ℓ} : {A : Type ℓ} → List A → Bool
is_empty [] = true
is_empty (x ∷ xs) = false

unfoldable pub make_grant :
    String → String → String → List String → List String → String → String → Result CapabilityGrant
unfolding parse_effect
make_grant grant_id capability effect actions resources issued_by note = do
  e ← parse_effect effect
  reject_if (is_blank grant_id) "grant_id is required"
  reject_if (is_blank capability) "capability is required"
  reject_if (is_empty actions) "at least one action is required"
  reject_if (is_empty resources) "at least one resource is required"
  ok (record {
    grant_id = grant_id;
    capability = capability;
    effect = e;
    actions = actions;
    resources = resources;
    issued_by = issued_by;
    note = note;
  })

pub record CapabilityRegistry : Type 0 where
  pub registry_id : String
  pub version : String
  pub grants : List CapabilityGrant

pub record GateDecision : Type 0 where
  pub verdict : Verdict
  pub reason : String
  pub matched_grant_ids : List String

pub record ActionReceipt : Type 0 where
  pub receipt_version : String
  pub request_id : String
  pub capability : String
  pub action : String
  pub resource : String
  pub gate : Verdict
  pub gate_reason : String
  pub matched_grant_ids : List String
  pub outcome : String
  pub result : Fields
  pub registry_id : String
  pub registry_version : String
  pub created_at : String
  pub previous_receipt_hash : Option String
  pub receipt_hash : String
