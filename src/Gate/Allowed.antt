-- ===== src/Gate/Allowed.antt =====
-- What a verdict of ALLOW takes, and what more grants can do to it.
use autonomy_harbor.Base.{
  ◌≡◌, refl, ◌↔◌, Bool, true, false, ◌&&◌, ◌||◌, List, [], ◌∷◌, ◌++◌, any, any-append, arith,
  String, ◌==◌, eq_iff, ◌<>◌, mem_text, Bool-cases, inl, inr,
}
use autonomy_harbor.Models.{
  ActionRequest, CapabilityGrant, CapabilityRegistry, Verdict, allow, deny, is_allow, is_review,
  is_deny,
}
use mathlib.Core.Path.{subst}
use text.Mathlib.Text.{starts_with}
use text.Mathlib.TextPositions.{starts_with-append}
use autonomy_harbor.Gate.{
  is_protected, protected_capability_prefixes, matches_grant, matching, evaluate,
}
use autonomy_harbor.Gate.Strictest.{effects, strictest_tests, evaluate-eq-strictest}

-- Some grant matches the request with an effect that passes the test.
abbrev pub offers : (Verdict → Bool) → ActionRequest → List CapabilityGrant → Bool
offers test request = any (λ g. matches_grant g request && test g.effect)

pub record IsAllowed (request : ActionRequest) (grants : List CapabilityGrant) : Type 0 where
  pub unprotected : is_protected request ≡ false
  pub allowed : offers is_allow request grants ≡ true
  pub not_reviewed : offers is_review request grants ≡ false
  pub not_denied : offers is_deny request grants ≡ false

any-matching :
    (test : Verdict → Bool) (request : ActionRequest) (gs : List CapabilityGrant)
    → any test (effects (matching request gs)) ≡ offers test request gs
unfolding matching
any-matching test request [] = refl
any-matching test request (g ∷ gs) = ground (arith, any-matching test request gs)

module _ (request : ActionRequest) (registry : CapabilityRegistry) where
  -- The verdict is ALLOW exactly when the capability is outside the control plane, some matching
  -- grant allows, and no matching grant asks for a review or denies.
  pub evaluate-eq-allow_iff :
      ((evaluate request registry).verdict ≡ allow) ↔ IsAllowed request registry.grants
  evaluate-eq-allow_iff = ground (
    arith,
    evaluate-eq-strictest request registry,
    strictest_tests (effects (matching request registry.grants)),
    any-matching is_allow request registry.grants,
    any-matching is_review request registry.grants,
    any-matching is_deny request registry.grants,
  )

offers-append :
    (test : Verdict → Bool) (request : ActionRequest) (gs hs : List CapabilityGrant)
    → offers test request (gs ++ hs) ≡ (offers test request gs || offers test request hs)
offers-append test request gs hs = any-append (λ g. matches_grant g request && test g.effect) gs hs

offers_quiet :
    (request : ActionRequest) (gs : List CapabilityGrant)
    → any (λ g. is_allow g.effect) gs ≡ false
    → offers is_allow request gs ≡ false
offers_quiet request [] h = refl
offers_quiet request (g ∷ gs) h = ground (arith, offers_quiet request gs)

abbrev pub extended : CapabilityRegistry → List CapabilityGrant → CapabilityRegistry
extended registry extra = record registry { grants = registry.grants ++ extra }

module _ (request : ActionRequest) (registry : CapabilityRegistry)
    (extra : List CapabilityGrant) where
  -- Grants none of which allows, put into a registry, make no request ALLOW that was not.
  pub evaluate-extended_no_allow :
      any (λ g. is_allow g.effect) extra ≡ false
      → (evaluate request (extended registry extra)).verdict ≡ allow
      → (evaluate request registry).verdict ≡ allow
  evaluate-extended_no_allow quiet h =
      let a = (evaluate-eq-allow_iff request (extended registry extra)).0 h in
      (evaluate-eq-allow_iff request registry).1 (record {
        unprotected = a.unprotected;
        allowed = ground (
          arith,
          a.allowed,
          offers-append is_allow request registry.grants extra,
          offers_quiet request extra quiet,
        );
        not_reviewed =
            ground (arith, a.not_reviewed, offers-append is_review request registry.grants extra);
        not_denied =
            ground (arith, a.not_denied, offers-append is_deny request registry.grants extra);
      })

  -- A request that a matching grant denies stays DENY, whatever grants are put in.
  pub evaluate-extended_deny :
      offers is_deny request registry.grants ≡ true
      → (evaluate request (extended registry extra)).verdict ≡ deny
  evaluate-extended_deny h = ground (
    arith,
    evaluate-eq-strictest request (extended registry extra),
    strictest_tests (effects (matching request (registry.grants ++ extra))),
    any-matching is_deny request (registry.grants ++ extra),
    offers-append is_deny request registry.grants extra,
  )

any-mem_text :
    (p : String → Bool) (t : String) (ts : List String)
    → mem_text t ts ≡ true
    → p t ≡ true
    → any p ts ≡ true
any-mem_text p t [] m h = m
any-mem_text p t (u ∷ us) m h = elim (Bool-cases (t == u)) [
  | inl same ↦ let here : p u ≡ true = subst (λ x. p x ≡ true) ((eq_iff t u).0 same) h in rw here
  | inr other ↦ ground (arith, any-mem_text p t us)
]

-- A capability that begins with a protected prefix is denied with no grant named, whatever the
-- registry says.
pub evaluate-protected_prefix :
    (request : ActionRequest) (registry : CapabilityRegistry) (prefix rest : String)
    → mem_text prefix protected_capability_prefixes ≡ true
    → request.capability ≡ prefix <> rest
    → ((evaluate request registry).verdict ≡ deny)
      × ((evaluate request registry).matched_grant_ids ≡ [])
unfolding evaluate is_protected
evaluate-protected_prefix request registry prefix rest m e =
    let starts : starts_with request.capability prefix ≡ true =
      rw e (starts_with-append prefix rest) in
    let guarded =
      any-mem_text (starts_with request.capability) prefix protected_capability_prefixes m starts in
    (rw guarded, rw guarded)
