-- ===== src/Promotion/Evidence.antt =====
-- The evidence for a promotion and the gate that judges it (promotion.py).
use autonomy_harbor.Base.{
  String, Bool, not, Option, none, some, List, [], ◌∷◌, ◌<>◌, Result, ok, raised, if◌then◌else◌,
  ◌>>=◌, keep, sorted_set, any, ◌&&◌, ◌==◌,
}
use autonomy_harbor.Json.{Json, null, bool, str, arr, obj, Fields, fields, strs, opt_str, get}
use autonomy_harbor.Platform.{Platform}
use autonomy_harbor.Signer.{Signer, TrustStore}
use autonomy_harbor.Envelope.{SignedEnvelope, sign_payload, required}
use autonomy_harbor.Envelope.Verify.{verify_envelope}
use autonomy_harbor.Authorizer.{is_text_at, class_name}
use autonomy_harbor.Promotion.{PromotionRequest, promotion_request_digest, is_any}
use autonomy_harbor.Promotion.Simulation.{
  PrspStatus, pass, hold, reject, is_pass, status_text, status_lower, PrspScenarioResult,
  PrspSimulationReceipt, is_active, recompute_prsp_gate, simulation_receipt_dict,
  simulation_receipt_from_dict,
}

pub record PromotionDecision : Type 0 where
  pub verdict : PrspStatus
  pub reason : String
  pub promotion_id : String
  pub prsp_run_id : Option String
  pub missing_domains : List String
  pub observed_gate : Option PrspStatus

abbrev pub eligible : PromotionDecision → Bool
eligible decision = is_pass decision.verdict

abbrev opt_status : Option PrspStatus → Json
opt_status none = null
opt_status (some status) = str (status_text status)

unfoldable pub promotion_decision_dict : PromotionDecision → Fields
promotion_decision_dict decision = fields (
    ("verdict", str (status_text decision.verdict))
    ∷ ("reason", str decision.reason)
    ∷ ("promotion_id", str decision.promotion_id)
    ∷ ("prsp_run_id", opt_str decision.prsp_run_id)
    ∷ ("missing_domains", arr (strs decision.missing_domains))
    ∷ ("observed_gate", opt_status decision.observed_gate)
    ∷ ("eligible", bool (eligible decision))
    ∷ ("authority_effect", str "NONE")
    ∷ [])

-- a decision that names no run
unfoldable pub refuse : PromotionRequest → String → PromotionDecision
refuse request reason = record {
  verdict = reject;
  reason = reason;
  promotion_id = request.promotion_id;
  prsp_run_id = none;
  missing_domains = [];
  observed_gate = none;
}

abbrev pub covers : List PrspScenarioResult → String → Bool
covers results domain = any (λ (r : PrspScenarioResult). is_active r && r.domain == domain) results

-- `sorted(set(request.required_domains) - covered)`
unfoldable pub missing_domains_of : List String → List PrspScenarioResult → List String
missing_domains_of domains results =
    sorted_set (keep (λ (d : String). not (covers results d)) domains)

-- the decision on a receipt that was read
unfoldable pub judge_receipt : PromotionRequest → PrspSimulationReceipt → PromotionDecision
judge_receipt request receipt =
    let computed = recompute_prsp_gate receipt.results in
    let missing = missing_domains_of request.required_domains receipt.results in
    let decision : PromotionDecision = record {
      verdict = reject;
      reason = "prsp_receipt_app_id_mismatch";
      promotion_id = request.promotion_id;
      prsp_run_id = some receipt.run_id;
      missing_domains = [];
      observed_gate = none;
    } in
    if not (receipt.app_id == request.app_id)
    then decision
    else if not (status_text computed == status_text receipt.overall_gate)
    then record decision {
      reason =
          "prsp_gate_inconsistent:declared="
          <> status_text receipt.overall_gate
          <> ":computed="
          <> status_text computed;
      observed_gate = some computed;
    }
    else if is_any missing
    then record decision {
      verdict = hold;
      reason = "required_prsp_domains_missing";
      missing_domains = missing;
      observed_gate = some computed;
    }
    else if not (is_pass computed)
    then record decision {
      verdict = computed;
      reason = "prsp_overall_gate_" <> status_lower computed;
      observed_gate = some computed;
    }
    else record decision {
      verdict = pass;
      reason = "promotion_evidence_satisfies_prsp_gate";
      observed_gate = some computed;
    }

unfoldable pub judge_read : PromotionRequest → Result PrspSimulationReceipt → PromotionDecision
judge_read request (raised e) = refuse request ("invalid_prsp_receipt:" <> class_name e.kind)
judge_read request (ok receipt) = judge_receipt request receipt

module _ ⦃p : Platform⦄ where
  unfoldable pub prsp_promotion_evidence_payload : PromotionRequest → PrspSimulationReceipt → Fields
  prsp_promotion_evidence_payload request receipt = fields (
      ("promotion_request_digest", str (promotion_request_digest request))
      ∷ ("promotion_id", str request.promotion_id)
      ∷ ("app_id", str request.app_id)
      ∷ ("prsp_receipt", obj (simulation_receipt_dict receipt))
      ∷ ("authority_effect", str "EVIDENCE_ONLY")
      ∷ [])

  unfoldable pub sign_prsp_promotion_evidence :
      PromotionRequest
      → PrspSimulationReceipt
      → Signer
      → String
      → Option String
      → Result SignedEnvelope
  sign_prsp_promotion_evidence request receipt signer signed_at previous =
      sign_payload "prsp_promotion_evidence" (prsp_promotion_evidence_payload request receipt)
        signer signed_at previous

  unfoldable pub read_receipt : Fields → Result PrspSimulationReceipt
  read_receipt payload = do
    value ← required "prsp_receipt" payload
    simulation_receipt_from_dict value

  -- the decision on a payload whose envelope is verified
  unfoldable pub judge_payload : PromotionRequest → Fields → PromotionDecision
  judge_payload request payload =
      if not (is_text_at (get "authority_effect" payload) "EVIDENCE_ONLY")
      then refuse request "promotion_evidence_attempted_authority_effect"
      else if not
          (is_text_at (get "promotion_request_digest" payload) (promotion_request_digest request))
      then refuse request "promotion_request_digest_mismatch"
      else if not (is_text_at (get "promotion_id" payload) request.promotion_id)
      then refuse request "promotion_id_mismatch"
      else if not (is_text_at (get "app_id" payload) request.app_id)
      then refuse request "promotion_app_id_mismatch"
      else judge_read request (read_receipt payload)

  -- `PRSPPromotionGate.evaluate`, of a gate with a trust store and a role
  unfoldable pub evaluate_promotion :
      TrustStore → String → PromotionRequest → SignedEnvelope → PromotionDecision
  evaluate_promotion store role request evidence =
      let verification =
        verify_envelope evidence store (some role) (some "prsp_promotion_evidence") in
      if not verification.ok
      then refuse request ("invalid_signed_promotion_evidence:" <> verification.reason)
      else judge_payload request evidence.payload
