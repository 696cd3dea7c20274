-- ===== src/Promotion/Issued.antt =====
-- The evidence that is signed for a simulation that passes is accepted.
use mathlib.Core.Path.{subst}
use autonomy_harbor.Base.{
  ◌≡◌, refl, sym, String, true, Option, some, List, [], ◌∷◌, arith, any, all, eq_refl, ok, upper,
  lookup,
}
use autonomy_harbor.Json.{obj, Fields, get}
use autonomy_harbor.Platform.{Platform, text_of}
use autonomy_harbor.Signer.{Signer, TrustStore, TrustedSigner, key_id, public_key_b64}
use autonomy_harbor.Envelope.{SignedEnvelope}
use autonomy_harbor.Envelope.Verify.{role_in}
use autonomy_harbor.Envelope.Verified.{
  verify_envelope_iff, sign_payload-IsVerified, payload-sign_payload,
}
use autonomy_harbor.Authorizer.{each_text, is_text_at}
use autonomy_harbor.Authorizer.Facts.{texts_of-strs}
use autonomy_harbor.Promotion.{PromotionRequest, promotion_request_digest}
use autonomy_harbor.Promotion.Simulation.{
  PrspStatus, pass, review, hold, reject, skip, status_text, parse_status, parse_overall_gate,
  PrspScenarioResult, PrspSimulationReceipt, is_active, scenario_result_dict, scenario_result_dicts,
  simulation_receipt_dict, scenario_result_from_dict, scenario_results_from, results_of, summary_of,
  simulation_receipt_from_dict,
}
use autonomy_harbor.Promotion.Evidence.{
  covers, read_receipt, prsp_promotion_evidence_payload, sign_prsp_promotion_evidence,
  evaluate_promotion,
}
use autonomy_harbor.Promotion.Eligible.{is_passed, evaluate_promotion_iff}

parse_status-status_text : (s : PrspStatus) → parse_status (status_text s) ≡ ok s
unfolding parse_status upper
parse_status-status_text pass = refl
parse_status-status_text review = refl
parse_status-status_text hold = refl
parse_status-status_text reject = refl
parse_status-status_text skip = refl

parse_overall_gate-pass : (s : PrspStatus) → s ≡ pass → parse_overall_gate (status_text s) ≡ ok s
unfolding parse_overall_gate upper
parse_overall_gate-pass pass h = refl
parse_overall_gate-pass review h = absurd (ground arith)
parse_overall_gate-pass hold h = absurd (ground arith)
parse_overall_gate-pass reject h = absurd (ground arith)
parse_overall_gate-pass skip h = absurd (ground arith)

module _ ⦃p : Platform⦄ where
  scenario_result_from_dict-scenario_result_dict :
      (r : PrspScenarioResult) → scenario_result_from_dict (obj (scenario_result_dict r)) ≡ ok r
  unfolding scenario_result_from_dict scenario_result_dict each_text text_of get
  scenario_result_from_dict-scenario_result_dict r =
      rw (texts_of-strs r.evidence_required, parse_status-status_text r.status) refl

  scenario_results_from-scenario_result_dicts :
      (rs : List PrspScenarioResult) → scenario_results_from (scenario_result_dicts rs) ≡ ok rs
  unfolding scenario_results_from
  scenario_results_from-scenario_result_dicts [] = refl
  scenario_results_from-scenario_result_dicts (r ∷ rs) =
      rw
        (
          scenario_result_from_dict-scenario_result_dict r,
          scenario_results_from-scenario_result_dicts rs,
        )
        refl

  -- The receipt of a simulation whose gate is no SKIP and whose summary holds integers is read back
  -- from its dictionary unchanged.
  pub simulation_receipt_from_dict-simulation_receipt_dict :
      (r : PrspSimulationReceipt)
      → parse_overall_gate (status_text r.overall_gate) ≡ ok r.overall_gate
      → summary_of r.summary ≡ ok r.summary
      → simulation_receipt_from_dict (obj (simulation_receipt_dict r)) ≡ ok r
  unfolding simulation_receipt_from_dict simulation_receipt_dict results_of text_of get
  simulation_receipt_from_dict-simulation_receipt_dict r declared counts =
      rw (counts, scenario_results_from-scenario_result_dicts r.results, declared) refl

  -- what the gate reads of a payload
  abbrev IsAbout : PromotionRequest → PrspSimulationReceipt → Fields → Type 0
  IsAbout request receipt d =
      (is_text_at (get "authority_effect" d) "EVIDENCE_ONLY" ≡ true)
      × (is_text_at (get "promotion_request_digest" d) (promotion_request_digest request) ≡ true)
      × (is_text_at (get "promotion_id" d) request.promotion_id ≡ true)
      × (is_text_at (get "app_id" d) request.app_id ≡ true)
      × (read_receipt d ≡ ok receipt)

  payload-IsAbout :
      (request : PromotionRequest) (receipt : PrspSimulationReceipt)
      → receipt.overall_gate ≡ pass
      → summary_of receipt.summary ≡ ok receipt.summary
      → IsAbout request receipt (prsp_promotion_evidence_payload request receipt)
  unfolding prsp_promotion_evidence_payload read_receipt get
  payload-IsAbout request receipt declared counts = (
    refl,
    eq_refl (promotion_request_digest request),
    eq_refl request.promotion_id,
    eq_refl request.app_id,
    simulation_receipt_from_dict-simulation_receipt_dict receipt
        (parse_overall_gate-pass receipt.overall_gate declared) counts,
  )

  -- The evidence that an issuer signs for a request passes at every gate that asks for a role which
  -- its store gives the issuer's key, where the simulation is of the same application, declares PASS,
  -- has a result that is not skipped, has only results that pass or are skipped, and covers the
  -- required domains, and its summary holds integers.
  pub sign_prsp_promotion_evidence-passes :
      (request : PromotionRequest) (receipt : PrspSimulationReceipt) (signer : Signer)
      (signed_at : String) (previous : Option String) (e : SignedEnvelope) (store : TrustStore)
      (trusted : TrustedSigner) (role : String)
      → sign_prsp_promotion_evidence request receipt signer signed_at previous ≡ ok e
      → lookup (key_id signer) store ≡ some trusted
      → trusted.status ≡ "ACTIVE"
      → trusted.subject ≡ signer.subject
      → trusted.public_key_b64 ≡ public_key_b64 signer
      → role_in (some role) trusted.roles ≡ true
      → receipt.app_id ≡ request.app_id
      → receipt.overall_gate ≡ pass
      → any is_active receipt.results ≡ true
      → all is_passed receipt.results ≡ true
      → all (covers receipt.results) request.required_domains ≡ true
      → summary_of receipt.summary ≡ ok receipt.summary
      → (evaluate_promotion store role request e).verdict ≡ pass
  unfolding sign_prsp_promotion_evidence
  sign_prsp_promotion_evidence-passes request receipt signer signed_at previous e store trusted role
        made known active subject key has same_app declared some_active passed covered counts =
      let d = prsp_promotion_evidence_payload request receipt in
      let same : e.payload ≡ d =
        payload-sign_payload "prsp_promotion_evidence" d signer previous signed_at e made in
      let accepted =
        sign_payload-IsVerified "prsp_promotion_evidence" d signer previous signed_at e store
          trusted (some role) made known active subject key has in
      let about =
        subst (IsAbout request receipt) (sym same)
          (payload-IsAbout request receipt declared counts) in
      (evaluate_promotion_iff store role request e).1 (
        receipt,
        record {
          verified =
              (verify_envelope_iff e store (some role) (some "prsp_promotion_evidence")).0 accepted;
          no_authority = about.0;
          digest = about.1;
          id = about.2;
          app = about.3;
          read = about.4;
          same_app = same_app;
          declared = declared;
          active = some_active;
          passed = passed;
          covered = covered;
        },
      )
