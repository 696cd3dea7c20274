-- ===== src/Gate.antt =====
-- gate.py: the deterministic gate.
pub mod Strictest
pub mod Order
pub mod Allowed
pub mod Ids
pub mod Fixtures
mod Tests
use autonomy_harbor.Base.{String, Bool, not, ◌&&◌, List, [], ◌∷◌, map, any, keep, if◌then◌else◌}
use autonomy_harbor.Glob.Defs.{fnmatchcase}
use autonomy_harbor.Models.{
  ActionRequest, CapabilityGrant, CapabilityRegistry, GateDecision, Verdict, allow, review, deny,
  is_allow, is_review, is_deny, is_empty,
}
use text.Mathlib.Text.{starts_with}

abbrev pub protected_capability_prefixes : List String
protected_capability_prefixes =
    "runtime.permission." ∷ "runtime.registry." ∷ "runtime.gate." ∷ "runtime.policy." ∷ []

unfoldable pub is_protected : ActionRequest → Bool
is_protected request = any (starts_with request.capability) protected_capability_prefixes

unfoldable pub matches_grant : CapabilityGrant → ActionRequest → Bool
matches_grant grant request =
    fnmatchcase request.capability grant.capability
    && any (fnmatchcase request.action) grant.actions
    && any (fnmatchcase request.resource) grant.resources

unfoldable pub ids : List CapabilityGrant → List String
ids = map (λ g. g.grant_id)

-- The grants that match, and those of them with an effect.
unfoldable pub matching : ActionRequest → List CapabilityGrant → List CapabilityGrant
matching request = keep (λ g. matches_grant g request)

unfoldable pub with_effect : (Verdict → Bool) → List CapabilityGrant → List String
unfolding ids
with_effect test grants = ids (keep (λ g. test g.effect) grants)

unfoldable pub decide_matches : List CapabilityGrant → GateDecision
decide_matches found =
    let denies = with_effect is_deny found in
    let reviews = with_effect is_review found in
    let allows = with_effect is_allow found in
    if is_empty found
    then record { verdict = deny; reason = "no_matching_capability_grant"; matched_grant_ids = [] }
    else if not (is_empty denies)
    then record { verdict = deny; reason = "explicit_deny_precedence"; matched_grant_ids = denies }
    else if not (is_empty reviews)
    then record { verdict = review; reason = "human_review_required"; matched_grant_ids = reviews }
    else if not (is_empty allows)
    then record {
      verdict = allow;
      reason = "explicit_capability_grant";
      matched_grant_ids = allows;
    }
    else record { verdict = deny; reason = "no_effective_grant"; matched_grant_ids = [] }

unfoldable pub evaluate : ActionRequest → CapabilityRegistry → GateDecision
evaluate request registry =
    if is_protected request
    then record {
      verdict = deny;
      reason = "control_plane_capability_is_not_agent_addressable";
      matched_grant_ids = [];
    }
    else decide_matches (matching request registry.grants)
