-- ===== src/Promotion/Tests.antt =====
-- A simulation of the reference appliance, and the theorems at it.
use autonomy_harbor.Base.{◌≡◌, ◌↔◌, refl, true, false, none, [], ◌∷◌, ok, any, all, is_blank, arith}
use autonomy_harbor.Json.{end}
use autonomy_harbor.Platform.Model.{model}
use autonomy_harbor.Models.{CapabilityRegistry, allow}
use autonomy_harbor.Gate.Fixtures.{registry, read_grant, write_grant, deny_grant}
use autonomy_harbor.Envelope.{SignedEnvelope, sealed_envelope}
use autonomy_harbor.Envelope.Fixtures.{signer, trusted, store, known}
use autonomy_harbor.Envelope.Verified.{sign_payload-eq-ok}
use autonomy_harbor.Promotion.{
  PromotionRequest, diff_registries, registry_digest, has_possible_authority_expansion,
}
use autonomy_harbor.Promotion.Simulation.{
  PrspScenarioResult, PrspSimulationReceipt, pass, review, skip, hold, is_active, promotion_order,
  recompute_prsp_gate, summary_of,
}
use autonomy_harbor.Promotion.Evidence.{
  prsp_promotion_evidence_payload, evaluate_promotion, sign_prsp_promotion_evidence,
}
use autonomy_harbor.Promotion.Delta.{IsContained, has_possible_authority_expansion_iff}
use autonomy_harbor.Promotion.Eligible.{
  IsPromotable, recompute_prsp_gate-strictest, evaluate_promotion_iff, at_most, attains,
}
use autonomy_harbor.Promotion.Issued.{sign_prsp_promotion_evidence-passes}

abbrev widened : CapabilityRegistry
widened = record registry {
  grants = read_grant ∷ record write_grant { effect = allow } ∷ deny_grant ∷ [];
}

abbrev request : PromotionRequest
request = record {
  promotion_id = "promotion-1";
  app_id = "personal-agent-runtime";
  baseline_registry_digest = registry_digest registry;
  proposed_registry_digest = registry_digest widened;
  capability_delta = diff_registries registry widened;
  required_domains = "failure" ∷ "security" ∷ [];
  requested_by = "human";
  target_stage = "production-candidate";
}

abbrev failure : PrspScenarioResult
failure = record {
  scenario_id = "s1";
  domain = "failure";
  status = pass;
  reason = "";
  severity = "high";
  evidence_required = [];
}

abbrev security : PrspScenarioResult
security = record failure { scenario_id = "s2"; domain = "security" }

abbrev later : PrspScenarioResult
later = record failure { scenario_id = "s3"; domain = "cost"; status = skip }

abbrev doubtful : PrspScenarioResult
doubtful = record failure { scenario_id = "s4"; status = review }

abbrev receipt : PrspSimulationReceipt
receipt = record {
  receipt_version = "1";
  run_id = "run-1";
  app_id = "personal-agent-runtime";
  overall_gate = pass;
  results = failure ∷ security ∷ later ∷ [];
  generated_at = "";
  app_stage = "unknown";
  summary = end;
}

abbrev evidence : SignedEnvelope
evidence =
    sealed_envelope "prsp_promotion_evidence" (prsp_promotion_evidence_payload request receipt)
      signer (model.isoformat 1000000) none

has_possible_authority_expansion_iff_example :
    (has_possible_authority_expansion (diff_registries registry widened) ≡ false)
    ↔ IsContained registry widened
has_possible_authority_expansion_iff_example = has_possible_authority_expansion_iff registry widened

recompute_prsp_gate-strictest_example :
    let results = failure ∷ doubtful ∷ later ∷ [] in
    let gate = recompute_prsp_gate results in
    (any is_active results ≡ false → gate ≡ hold)
    × (any is_active results ≡ true
        → (attains gate results ≡ true) × (all (at_most (promotion_order gate)) results ≡ true))
recompute_prsp_gate-strictest_example =
    recompute_prsp_gate-strictest (failure ∷ doubtful ∷ later ∷ [])

evaluate_promotion_iff_example :
    ((evaluate_promotion store "promotion_evidence_issuer" request evidence).verdict ≡ pass) ↔ (
      (r : PrspSimulationReceipt) × IsPromotable store "promotion_evidence_issuer" request evidence
        r)
evaluate_promotion_iff_example =
    evaluate_promotion_iff store "promotion_evidence_issuer" request evidence

signs :
    sign_prsp_promotion_evidence request receipt signer (model.isoformat 1000000) none ≡ ok evidence
unfolding sign_prsp_promotion_evidence is_blank
signs =
    sign_payload-eq-ok "prsp_promotion_evidence" (prsp_promotion_evidence_payload request receipt)
      signer none 1000000 refl (ground arith)

sign_prsp_promotion_evidence-passes_example :
    (evaluate_promotion store "promotion_evidence_issuer" request evidence).verdict ≡ pass
sign_prsp_promotion_evidence-passes_example =
    sign_prsp_promotion_evidence-passes request receipt signer (model.isoformat 1000000) none
      evidence store trusted "promotion_evidence_issuer" signs known refl refl refl refl refl refl
      refl refl refl (unfold summary_of in refl)
