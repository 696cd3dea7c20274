-- ===== src/Gate/Tests.antt =====
-- Runs of the gate on the registry of the reference appliance, and the theorems at it.
use mathlib.Core.List.Perm
use autonomy_harbor.Base.{◌≡◌, ◌↔◌, refl, true, [], ◌∷◌, if◌then◌else◌}
use autonomy_harbor.Glob.Defs.{fnmatchcase, compile}
use autonomy_harbor.Base.{codes}
use autonomy_harbor.Glob.Relation.{Fits, fnmatchcase_iff}
use autonomy_harbor.Models.{CapabilityGrant, CapabilityRegistry, allow, review, deny}
use autonomy_harbor.Gate.{
  is_protected, matches_grant, matching, with_effect, decide_matches, evaluate,
}
use autonomy_harbor.Gate.Fixtures.{
  read_grant, write_grant, deny_grant, registry, read_request, write_request,
}
use autonomy_harbor.Gate.Strictest.{or_deny, strictest, effects, evaluate-eq-strictest}
use autonomy_harbor.Gate.Order.{evaluate-perm}
use autonomy_harbor.Gate.Allowed.{
  extended, IsAllowed, evaluate-eq-allow_iff, evaluate-extended_deny,
}

runs :
    (evaluate read_request registry ≡ record {
      verdict = allow;
      reason = "explicit_capability_grant";
      matched_grant_ids = "sandbox-read-auto" ∷ [];
    })
    × ((evaluate write_request registry).verdict ≡ review)
unfolding evaluate is_protected decide_matches matching matches_grant fnmatchcase with_effect
runs = (refl, refl)

evaluate-eq-strictest_example : (evaluate write_request registry).verdict ≡ (
    if is_protected write_request
    then deny
    else or_deny (strictest (effects (matching write_request registry.grants))))
evaluate-eq-strictest_example = evaluate-eq-strictest write_request registry

abbrev shuffled : CapabilityRegistry
shuffled = record registry { grants = write_grant ∷ read_grant ∷ deny_grant ∷ [] }

evaluate-perm_example :
    (evaluate write_request registry).verdict ≡ (evaluate write_request shuffled).verdict
evaluate-perm_example =
    evaluate-perm write_request registry shuffled
      (Perm.swap write_grant read_grant (deny_grant ∷ []))

evaluate-eq-allow_iff_example :
    ((evaluate read_request registry).verdict ≡ allow) ↔ IsAllowed read_request registry.grants
evaluate-eq-allow_iff_example = evaluate-eq-allow_iff read_request registry

abbrev read_ban : CapabilityGrant
read_ban = record read_grant { grant_id = "ban"; effect = deny }

abbrev banning : CapabilityRegistry
banning = record registry { grants = read_ban ∷ [] }

evaluate-extended_deny_example :
    (evaluate read_request (extended banning (read_grant ∷ []))).verdict ≡ deny
unfolding matches_grant fnmatchcase
evaluate-extended_deny_example = evaluate-extended_deny read_request banning (read_grant ∷ []) refl

approved-Fits :
    (fnmatchcase "approved/a.txt" "approved/*" ≡ true)
    ↔ Fits (compile "approved/*") (codes "approved/a.txt")
approved-Fits = fnmatchcase_iff "approved/a.txt" "approved/*"
