-- ===== src/Promotion/Simulation.antt =====
-- The receipt of a simulation, and the gate that is recomputed from its results (promotion.py).
use autonomy_harbor.Base.{
  ℕ, String, Bool, true, false, not, Option, none, some, List, [], ◌∷◌, ◌<>◌, any, Result, ok, fail,
  value_error, type_error, upper, codes, codes_eq, if◌then◌else◌, ◌>>=◌, ℤ, pos,
}
use autonomy_harbor.Json.{
  Json, bool, int, str, arr, obj, Items, nil, cons, Fields, end, fields, strs, get, field,
}
use autonomy_harbor.Platform.{Platform, text_of}
use autonomy_harbor.Envelope.{required}
use autonomy_harbor.Authorizer.{each_text}
use autonomy_harbor.Registry.{or_default}

-- `VALID_PRSP_STATUSES`
pub data PrspStatus : Type 0 where
  pass review hold reject skip : PrspStatus

abbrev pub status_text : PrspStatus → String
status_text pass = "PASS"
status_text review = "REVIEW"
status_text hold = "HOLD"
status_text reject = "REJECT"
status_text skip = "SKIP"

-- `status.lower()`
abbrev pub status_lower : PrspStatus → String
status_lower pass = "pass"
status_lower review = "review"
status_lower hold = "hold"
status_lower reject = "reject"
status_lower skip = "skip"

abbrev pub is_pass : PrspStatus → Bool
is_pass pass = true
is_pass _ = false

abbrev pub is_skip : PrspStatus → Bool
is_skip skip = true
is_skip _ = false

abbrev pub is_hold : PrspStatus → Bool
is_hold hold = true
is_hold _ = false

abbrev pub is_reject : PrspStatus → Bool
is_reject reject = true
is_reject _ = false

abbrev pub is_review : PrspStatus → Bool
is_review review = true
is_review _ = false

-- `PROMOTION_ORDER`, of the statuses that are no SKIP
abbrev pub promotion_order : PrspStatus → ℕ
promotion_order pass = 0
promotion_order review = 1
promotion_order hold = 2
promotion_order reject = 3
promotion_order skip = 0

abbrev status_of : List ℕ → Option PrspStatus
status_of u =
    if codes_eq u (codes "PASS")
    then some pass
    else if codes_eq u (codes "REVIEW")
    then some review
    else if codes_eq u (codes "HOLD")
    then some hold
    else if codes_eq u (codes "REJECT")
    then some reject
    else if codes_eq u (codes "SKIP")
    then some skip
    else none

abbrev or_invalid : Option PrspStatus → String → Result PrspStatus
or_invalid none message = fail value_error message
or_invalid (some status) message = ok status

abbrev but_skip : Option PrspStatus → Option PrspStatus
but_skip (some skip) = none
but_skip status = status

-- the check of a result's status, and the one of the declared gate
unfoldable pub parse_status : String → Result PrspStatus
parse_status status = or_invalid (status_of (upper status)) ("invalid_prsp_status:" <> status)

unfoldable pub parse_overall_gate : String → Result PrspStatus
parse_overall_gate gate = or_invalid (but_skip (status_of (upper gate))) "invalid_prsp_overall_gate"

pub record PrspScenarioResult : Type 0 where
  pub scenario_id : String
  pub domain : String
  pub status : PrspStatus
  pub reason : String
  pub severity : String
  pub evidence_required : List String

pub record PrspSimulationReceipt : Type 0 where
  pub receipt_version : String
  pub run_id : String
  pub app_id : String
  pub overall_gate : PrspStatus
  pub results : List PrspScenarioResult
  pub generated_at : String
  pub app_stage : String
  pub summary : Fields

abbrev pub is_active : PrspScenarioResult → Bool
is_active r = not (is_skip r.status)

unfoldable pub recompute_prsp_gate : List PrspScenarioResult → PrspStatus
recompute_prsp_gate results =
    if not (any is_active results)
    then hold
    else if any (λ (r : PrspScenarioResult). is_reject r.status) results
    then reject
    else if any (λ (r : PrspScenarioResult). is_hold r.status) results
    then hold
    else if any (λ (r : PrspScenarioResult). is_review r.status) results
    then review
    else pass

-- What is indexed by a text and is no dictionary raises.
abbrev mapping_of : Json → Result Fields
mapping_of (obj d) = ok d
mapping_of v = fail type_error "indices must be integers"

unfoldable pub scenario_result_dict : PrspScenarioResult → Fields
scenario_result_dict r = fields (
    ("scenario_id", str r.scenario_id)
    ∷ ("domain", str r.domain)
    ∷ ("status", str (status_text r.status))
    ∷ ("reason", str r.reason)
    ∷ ("severity", str r.severity)
    ∷ ("evidence_required", arr (strs r.evidence_required))
    ∷ [])

abbrev pub scenario_result_dicts : List PrspScenarioResult → Items
scenario_result_dicts [] = nil
scenario_result_dicts (r ∷ rs) = cons (obj (scenario_result_dict r)) (scenario_result_dicts rs)

unfoldable pub simulation_receipt_dict : PrspSimulationReceipt → Fields
simulation_receipt_dict receipt = fields (
    ("receipt_version", str receipt.receipt_version)
    ∷ ("run_id", str receipt.run_id)
    ∷ ("generated_at", str receipt.generated_at)
    ∷ ("app_id", str receipt.app_id)
    ∷ ("app_stage", str receipt.app_stage)
    ∷ ("overall_gate", str (status_text receipt.overall_gate))
    ∷ ("summary", obj receipt.summary)
    ∷ ("results", arr (scenario_result_dicts receipt.results))
    ∷ [])

-- `dict(v)`, for the summary. Python also takes a list of pairs, which is refused here.
abbrev summary_in : Json → Result Fields
summary_in (obj d) = ok d
summary_in (arr nil) = ok end
summary_in (arr (cons v vs)) = fail value_error "dictionary update sequence"
summary_in (str String.[]) = ok end
summary_in (str (String.◌∷◌ c s)) = fail value_error "dictionary update sequence"
summary_in v = fail type_error "object is not iterable"

module _ ⦃p : Platform⦄ where
  unfoldable pub scenario_result_from_dict : Json → Result PrspScenarioResult
  scenario_result_from_dict v = do
    value ← mapping_of v
    scenario_id ← required "scenario_id" value
    domain ← required "domain" value
    raw_status ← required "status" value
    evidence ← each_text (or_default (get "evidence_required" value) (arr nil))
    status ← parse_status (text_of raw_status)
    ok (record {
      scenario_id = text_of scenario_id;
      domain = text_of domain;
      status = status;
      reason = text_of (or_default (get "reason" value) (str ""));
      severity = text_of (or_default (get "severity" value) (str "unknown"));
      evidence_required = evidence;
    })

  unfoldable pub scenario_results_from : Items → Result (List PrspScenarioResult)
  scenario_results_from nil = ok []
  scenario_results_from (cons v vs) = do
    r ← scenario_result_from_dict v
    rs ← scenario_results_from vs
    ok (r ∷ rs)

  -- the results, from whatever stands at "results"
  unfoldable pub results_of : Json → Result (List PrspScenarioResult)
  results_of (arr vs) = scenario_results_from vs
  results_of (str String.[]) = ok []
  results_of (obj end) = ok []
  results_of v = fail type_error "the results are no list of dictionaries"

  int_text : Option ℤ → Result Json
  int_text none = fail value_error "invalid literal for int()"
  int_text (some n) = ok (int n)

  -- `int(v)`
  unfoldable pub int_value : Json → Result Json
  unfolding int_text
  int_value (int n) = ok (int n)
  int_value (bool true) = ok (int (pos 1))
  int_value (bool false) = ok (int (pos 0))
  int_value (str s) = int_text (p.int_of s)
  int_value v = fail type_error "int() argument must be a string or a number"

  unfoldable pub summary_of : Fields → Result Fields
  summary_of end = ok end
  summary_of (field k v d) = do n ← int_value v; rest ← summary_of d; ok (field k n rest)

  unfoldable pub simulation_receipt_from_dict : Json → Result PrspSimulationReceipt
  simulation_receipt_from_dict v = do
    value ← mapping_of v
    receipt_version ← required "receipt_version" value
    run_id ← required "run_id" value
    app_id ← required "app_id" value
    raw_gate ← required "overall_gate" value
    raw_summary ← summary_in (or_default (get "summary" value) (obj end))
    summary ← summary_of raw_summary
    raw_results ← required "results" value
    results ← results_of raw_results
    gate ← parse_overall_gate (text_of raw_gate)
    ok (record {
      receipt_version = text_of receipt_version;
      run_id = text_of run_id;
      app_id = text_of app_id;
      overall_gate = gate;
      results = results;
      generated_at = text_of (or_default (get "generated_at" value) (str ""));
      app_stage = text_of (or_default (get "app_stage" value) (str "unknown"));
      summary = summary;
    })
