-- ===== src/Promotion/Eligible.antt =====
-- When a promotion passes.
use autonomy_harbor.Base.{
  ℕ, ◌≡◌, ◌↔◌, refl, String, Bool, true, false, not, ◌&&◌, ◌||◌, some, List, [], ◌∷◌, arith, any,
  all, keep, mem_text, sorted_set, mem-sorted_set, eq_iff, eq_refl, Result, ok, raised, leb, ◌==◌,
  ◌∙◌,
}
use autonomy_harbor.Json.{get}
use autonomy_harbor.Platform.{Platform}
use autonomy_harbor.Signer.{TrustStore}
use autonomy_harbor.Envelope.{SignedEnvelope}
use autonomy_harbor.Envelope.Verified.{IsVerified, verify_envelope_iff}
use autonomy_harbor.Authorizer.{is_text_at}
use autonomy_harbor.Promotion.{PromotionRequest, promotion_request_digest, is_any}
use autonomy_harbor.Promotion.Simulation.{
  PrspStatus, pass, review, hold, reject, skip, is_pass, promotion_order, status_text,
  PrspScenarioResult, PrspSimulationReceipt, is_active, recompute_prsp_gate, is_reject, is_hold,
  is_review,
}
use autonomy_harbor.Promotion.Evidence.{
  refuse, covers, missing_domains_of, judge_receipt, judge_read, judge_payload, read_receipt,
  evaluate_promotion,
}

-- the order of a result that is not skipped
abbrev order_of : PrspScenarioResult → ℕ
order_of r = promotion_order r.status

abbrev pub at_most : ℕ → PrspScenarioResult → Bool
at_most n r = leb (promotion_order r.status) n

abbrev has : (PrspStatus → Bool) → List PrspScenarioResult → Bool
has test results = any (λ (r : PrspScenarioResult). test r.status) results

abbrev pub attains : PrspStatus → List PrspScenarioResult → Bool
attains status results =
    any (λ (r : PrspScenarioResult). is_active r && status_text r.status == status_text status)
      results

attains-has :
    (rs : List PrspScenarioResult)
    → (has is_reject rs ≡ true → attains reject rs ≡ true)
      × (has is_hold rs ≡ true → attains hold rs ≡ true)
      × (has is_review rs ≡ true → attains review rs ≡ true)
      × (has is_pass rs ≡ true → attains pass rs ≡ true)
attains-has [] = ground arith
attains-has (r ∷ rs) = ground (arith, attains-has rs, eq_refl (status_text r.status))

at_most-has :
    (rs : List PrspScenarioResult)
    → (all (at_most 3) rs ≡ true)
      × (has is_reject rs ≡ false → all (at_most 2) rs ≡ true)
      × (has is_reject rs ≡ false → has is_hold rs ≡ false → all (at_most 1) rs ≡ true)
      × (has is_reject rs ≡ false
          → has is_hold rs ≡ false
          → has is_review rs ≡ false
          → all (at_most 0) rs ≡ true)
at_most-has [] = ground arith
at_most-has (r ∷ rs) = ground (arith, at_most-has rs)

has-active :
    (rs : List PrspScenarioResult)
    → any is_active rs ≡ (has is_reject rs || has is_hold rs || has is_review rs || has is_pass rs)
has-active [] = refl
has-active (r ∷ rs) = ground (arith, has-active rs)

-- The gate that is recomputed is HOLD where every result is skipped, and otherwise the strictest
-- status of the results that are not skipped, in the order PASS, REVIEW, HOLD, REJECT: one of them
-- has it, and none has a stricter one.
pub recompute_prsp_gate-strictest :
    (results : List PrspScenarioResult)
    → let gate = recompute_prsp_gate results in
      (any is_active results ≡ false → gate ≡ hold)
      × (any is_active results ≡ true
          → (attains gate results ≡ true) × (all (at_most (promotion_order gate)) results ≡ true))
unfolding recompute_prsp_gate
recompute_prsp_gate-strictest results =
    ground (arith, attains-has results, at_most-has results, has-active results)

abbrev pub is_passed : PrspScenarioResult → Bool
is_passed r = not (is_active r) || is_pass r.status

-- What a promotion passes on: evidence of a trusted issuer, for this request, with the receipt of a
-- simulation of this application, whose results all pass and cover the domains that are required.
pub record IsPromotable ⦃p : Platform⦄ (store : TrustStore) (role : String)
    (request : PromotionRequest) (e : SignedEnvelope) (receipt : PrspSimulationReceipt)
    : Type 0 where
  pub verified : IsVerified e store (some role) (some "prsp_promotion_evidence")
  pub no_authority : is_text_at (get "authority_effect" e.payload) "EVIDENCE_ONLY" ≡ true
  pub digest :
      is_text_at (get "promotion_request_digest" e.payload) (promotion_request_digest request)
      ≡ true
  pub id : is_text_at (get "promotion_id" e.payload) request.promotion_id ≡ true
  pub app : is_text_at (get "app_id" e.payload) request.app_id ≡ true
  pub read : read_receipt e.payload ≡ ok receipt
  pub same_app : receipt.app_id ≡ request.app_id
  pub declared : receipt.overall_gate ≡ pass
  pub active : any is_active receipt.results ≡ true
  pub passed : all is_passed receipt.results ≡ true
  pub covered : all (covers receipt.results) request.required_domains ≡ true

passed-has :
    (rs : List PrspScenarioResult)
    → all is_passed rs ≡ not (has is_reject rs || has is_hold rs || has is_review rs)
passed-has [] = refl
passed-has (r ∷ rs) = ground (arith, passed-has rs)

recompute_prsp_gate-pass_iff :
    (rs : List PrspScenarioResult)
    → (recompute_prsp_gate rs ≡ pass) ↔ ((any is_active rs ≡ true) × (all is_passed rs ≡ true))
unfolding recompute_prsp_gate
recompute_prsp_gate-pass_iff rs = ground (arith, passed-has rs)

is_any-mem : (t : String) (ts : List String) → mem_text t ts ≡ true → is_any ts ≡ true
is_any-mem t [] h = absurd (ground arith)
is_any-mem t (u ∷ us) h = refl

is_any-sorted_set : (ts : List String) → is_any (sorted_set ts) ≡ is_any ts
unfolding sorted_set
is_any-sorted_set [] = refl
is_any-sorted_set (t ∷ ts) =
    is_any-mem t (sorted_set (t ∷ ts)) (ground (arith, mem-sorted_set t (t ∷ ts), eq_refl t))

is_any-keep :
    (test : String → Bool) (ts : List String)
    → is_any (keep (λ (t : String). not (test t)) ts) ≡ not (all test ts)
is_any-keep test [] = refl
is_any-keep test (t ∷ ts) = ground (arith, is_any-keep test ts)

is_any-missing :
    (domains : List String) (rs : List PrspScenarioResult)
    → is_any (missing_domains_of domains rs) ≡ not (all (covers rs) domains)
unfolding missing_domains_of
is_any-missing domains rs =
    is_any-sorted_set (keep (λ (d : String). not (covers rs d)) domains)
    ∙ is_any-keep (covers rs) domains

status_text-pass : (s : PrspStatus) → ("PASS" == status_text s) ≡ is_pass s
status_text-pass pass = refl
status_text-pass review = refl
status_text-pass hold = refl
status_text-pass reject = refl
status_text-pass skip = refl

judge_receipt_iff :
    (request : PromotionRequest) (receipt : PrspSimulationReceipt)
    → ((judge_receipt request receipt).verdict ≡ pass) ↔ (
        (receipt.app_id ≡ request.app_id)
        × (receipt.overall_gate ≡ pass)
        × (recompute_prsp_gate receipt.results ≡ pass)
        × (all (covers receipt.results) request.required_domains ≡ true))
unfolding judge_receipt
judge_receipt_iff request receipt = ground (
  arith,
  is_any-missing request.required_domains receipt.results,
  status_text-pass receipt.overall_gate,
  eq_iff receipt.app_id request.app_id,
)

module _ ⦃p : Platform⦄ (store : TrustStore) (role : String) (request : PromotionRequest)
    (e : SignedEnvelope) where
  receipt_of_pass :
      (read : Result PrspSimulationReceipt)
      → read_receipt e.payload ≡ read
      → (evaluate_promotion store role request e).verdict ≡ pass
      → (receipt : PrspSimulationReceipt) × IsPromotable store role request e receipt
  unfolding evaluate_promotion judge_payload judge_read refuse
  receipt_of_pass (raised x) read h = absurd (ground arith)
  receipt_of_pass (ok receipt) read h =
      let judged = (judge_receipt_iff request receipt).0 (ground arith) in
      let computed = (recompute_prsp_gate-pass_iff receipt.results).0 judged.2 in
      (
        receipt,
        record {
          verified =
              (verify_envelope_iff e store (some role) (some "prsp_promotion_evidence")).0
                (ground arith);
          no_authority = ground arith;
          digest = ground arith;
          id = ground arith;
          app = ground arith;
          read = read;
          same_app = judged.0;
          declared = judged.1;
          active = computed.0;
          passed = computed.1;
          covered = judged.3;
        },
      )

  pass_of_promotable :
      (receipt : PrspSimulationReceipt)
      → IsPromotable store role request e receipt
      → (evaluate_promotion store role request e).verdict ≡ pass
  unfolding evaluate_promotion judge_payload judge_read refuse
  pass_of_promotable receipt w =
      let verified =
        (verify_envelope_iff e store (some role) (some "prsp_promotion_evidence")).1 w.verified in
      let computed = (recompute_prsp_gate-pass_iff receipt.results).1 (w.active, w.passed) in
      let judged =
        (judge_receipt_iff request receipt).1 (w.same_app, w.declared, computed, w.covered) in
      rw (verified, w.no_authority, w.digest, w.id, w.app, w.read) judged

  -- A promotion passes exactly when its evidence is verified for the role that is asked for, claims no
  -- authority, names the digest, the id and the application of the request, and holds the receipt of
  -- a simulation of the same application that declares PASS, of which some result is not skipped,
  -- every such result passes, and every required domain has one.
  pub evaluate_promotion_iff :
      ((evaluate_promotion store role request e).verdict ≡ pass)
      ↔ ((receipt : PrspSimulationReceipt) × IsPromotable store role request e receipt)
  evaluate_promotion_iff =
      (receipt_of_pass (read_receipt e.payload) refl, λ (receipt, w). pass_of_promotable receipt w)
