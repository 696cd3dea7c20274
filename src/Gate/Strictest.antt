-- ===== src/Gate/Strictest.antt =====
-- The gate against its specification: the strictest effect among the matching grants.
use autonomy_harbor.Base.{
  ◌≡◌, refl, Bool, not, ◌&&◌, ◌||◌, List, [], ◌∷◌, any, arith, if◌then◌else◌,
}
use autonomy_harbor.Models.{
  ActionRequest, CapabilityGrant, CapabilityRegistry, Verdict, allow, review, deny, other, is_allow,
  is_review, is_deny, is_empty,
}
use autonomy_harbor.Gate.{is_protected, matching, with_effect, decide_matches, evaluate}

-- The stricter of two effects: DENY before REVIEW before ALLOW before any other text.
abbrev pub stricter : Verdict → Verdict → Verdict
stricter deny w = deny
stricter review deny = deny
stricter review w = review
stricter allow deny = deny
stricter allow review = review
stricter allow w = allow
stricter (other t) w = w

abbrev pub strictest : List Verdict → Verdict
strictest [] = other ""
strictest (v ∷ vs) = stricter v (strictest vs)

-- What grants nothing is denied.
abbrev pub or_deny : Verdict → Verdict
or_deny (other t) = deny
or_deny v = v

abbrev pub effects : List CapabilityGrant → List Verdict
effects [] = []
effects (g ∷ gs) = g.effect ∷ effects gs

is_empty-with_effect :
    (test : Verdict → Bool) (gs : List CapabilityGrant)
    → is_empty (with_effect test gs) ≡ not (any test (effects gs))
unfolding with_effect
is_empty-with_effect test [] = refl
is_empty-with_effect test (g ∷ gs) = ground (arith, is_empty-with_effect test gs)

pub strictest_tests :
    (vs : List Verdict)
    → (is_deny (strictest vs) ≡ any is_deny vs)
      × (is_review (strictest vs) ≡ (any is_review vs && not (any is_deny vs)))
      × (is_allow (strictest vs) ≡ (any is_allow vs && not (any is_review vs || any is_deny vs)))
strictest_tests [] = (refl, refl, refl)
strictest_tests (v ∷ vs) = ground (arith, strictest_tests vs)

verdict-decide_matches :
    (gs : List CapabilityGrant) → (decide_matches gs).verdict ≡ or_deny (strictest (effects gs))
unfolding decide_matches
verdict-decide_matches [] = refl
verdict-decide_matches (g ∷ gs) = ground (
  arith,
  strictest_tests (effects (g ∷ gs)),
  is_empty-with_effect is_deny (g ∷ gs),
  is_empty-with_effect is_review (g ∷ gs),
  is_empty-with_effect is_allow (g ∷ gs),
)

-- Outside the control plane the verdict is the strictest effect among the grants that match, and
-- DENY if none of these has an effect; inside it the verdict is DENY.
pub evaluate-eq-strictest :
    (request : ActionRequest) (registry : CapabilityRegistry)
    → (evaluate request registry).verdict ≡ (
        if is_protected request
        then deny
        else or_deny (strictest (effects (matching request registry.grants))))
unfolding evaluate
evaluate-eq-strictest request registry =
    ground (arith, verdict-decide_matches (matching request registry.grants))
