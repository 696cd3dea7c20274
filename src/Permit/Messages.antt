-- ===== src/Permit/Messages.antt =====
-- The dictionaries of requests and decisions that the services exchange (appliance.py).
use autonomy_harbor.Base.{
  ◌≡◌, refl, ap, String, true, ◌||◌, Option, none, some, [], ◌∷◌, ◌==◌, arith, Result, ok,
  if◌then◌else◌, ◌>>=◌,
}
use autonomy_harbor.Json.{Json, str, arr, obj, nil, Fields, end, fields, strs, get}
use autonomy_harbor.Platform.{Platform, text_of}
use autonomy_harbor.Models.{
  ActionRequest, make_request, GateDecision, Verdict, allow, review, deny, other, is_allow,
  is_review, is_deny, verdict_text,
}
use autonomy_harbor.Envelope.{required, dict_of}
use autonomy_harbor.Authorizer.{each_text}
use autonomy_harbor.Authorizer.Facts.{texts_of-strs}

unfoldable pub action_request_dict : ActionRequest → Fields
action_request_dict request = fields (
    ("request_id", str request.request_id)
    ∷ ("capability", str request.capability)
    ∷ ("action", str request.action)
    ∷ ("resource", str request.resource)
    ∷ ("payload", obj request.payload)
    ∷ ("actor", str request.actor)
    ∷ [])

unfoldable pub gate_decision_dict : GateDecision → Fields
gate_decision_dict decision = fields (
    ("verdict", str (verdict_text decision.verdict))
    ∷ ("reason", str decision.reason)
    ∷ ("matched_grant_ids", arr (strs decision.matched_grant_ids))
    ∷ [])

-- `value.get(k, default)`
abbrev pub or_default : Option Json → Json → Json
or_default none v = v
or_default (some v) w = v

unfoldable pub verdict_of : String → Verdict
verdict_of t =
    if t == "ALLOW"
    then allow
    else if t == "REVIEW"
    then review
    else if t == "DENY"
    then deny
    else other t

verdict_of-verdict_text :
    (v : Verdict)
    → (is_allow v || is_review v || is_deny v) ≡ true
    → verdict_of (verdict_text v) ≡ v
unfolding verdict_of
verdict_of-verdict_text allow h = refl
verdict_of-verdict_text review h = refl
verdict_of-verdict_text deny h = refl
verdict_of-verdict_text (other t) h = absurd (ground arith)

module _ ⦃p : Platform⦄ where
  unfoldable pub action_request_from_dict : Fields → Result ActionRequest
  action_request_from_dict value = do
    request_id ← required "request_id" value
    capability ← required "capability" value
    action ← required "action" value
    resource ← required "resource" value
    payload ← dict_of (or_default (get "payload" value) (obj end))
    make_request (text_of request_id) (text_of capability) (text_of action) (text_of resource)
        payload (text_of (or_default (get "actor" value) (str "agent")))

  unfoldable pub gate_decision_from_dict : Fields → Result GateDecision
  gate_decision_from_dict value = do
    verdict ← required "verdict" value
    reason ← required "reason" value
    ids ← each_text (or_default (get "matched_grant_ids" value) (arr nil))
    ok (record {
      verdict = verdict_of (text_of verdict);
      reason = text_of reason;
      matched_grant_ids = ids;
    })

  -- A request that is read back from its dictionary is what the constructor makes of its fields: the
  -- request itself, or what the checks raise.
  pub action_request_from_dict-action_request_dict :
      (r : ActionRequest)
      → action_request_from_dict (action_request_dict r)
        ≡ make_request r.request_id r.capability r.action r.resource r.payload r.actor
  unfolding action_request_from_dict action_request_dict text_of get
  action_request_from_dict-action_request_dict r = refl

  -- A decision whose verdict is ALLOW, REVIEW or DENY is read back from its dictionary unchanged.
  pub gate_decision_from_dict-gate_decision_dict :
      (d : GateDecision)
      → (is_allow d.verdict || is_review d.verdict || is_deny d.verdict) ≡ true
      → gate_decision_from_dict (gate_decision_dict d) ≡ ok d
  unfolding gate_decision_from_dict gate_decision_dict text_of get each_text
  gate_decision_from_dict-gate_decision_dict d h = rw (texts_of-strs d.matched_grant_ids) (
      ap (λ (v : Verdict). Result.ok (record d { verdict = v }))
        (verdict_of-verdict_text d.verdict h))
