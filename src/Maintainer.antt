-- ===== src/Maintainer.antt =====
-- The triage of repositories (repo_maintainer.py). `str.lower` is an argument.
pub mod Selected
pub mod Receipts
mod Tests
use Prim.Native.Char.{Char, code}
use autonomy_harbor.Base.{
  ℕ, zero, suc, ℤ, pos, negsuc, ◌+ℤ◌, ltb_ℤ, int_eq, String, Bool, true, false, not, ◌&&◌, ◌||◌,
  Option, none, some, List, [], ◌∷◌, ◌++◌, ◌<>◌, ◌==◌, nat_eq, mem_text, take, length, lookup,
  before, sort_by, is_blank, Result, ok, raised, fail, value_error, reject_if, if◌then◌else◌, ◌>>=◌,
  ◌>>◌, ◌≡◌,
}
use autonomy_harbor.Json.{
  Json, bool, int, str, arr, obj, Items, nil, cons, Fields, end, fields, strs,
}
use autonomy_harbor.Json.Print.{decimal}
use autonomy_harbor.Platform.{Platform, sha256_hex, text_of}
use autonomy_harbor.Models.{ActionRequest, make_request}

abbrev class_weights : List (String × ℤ)
class_weights =
    ("core", pos 30)
    ∷ ("core_candidate", pos 28)
    ∷ ("core_promotion_gate", pos 26)
    ∷ ("optional_core", pos 16)
    ∷ ("optional", pos 8)
    ∷ ("experimental", pos 4)
    ∷ ("legacy", negsuc 24)
    ∷ []

abbrev signal_weights : List (String × ℤ)
signal_weights =
    ("runtime_integration_gap", pos 28)
    ∷ ("spec_only", pos 20)
    ∷ ("missing_tests", pos 14)
    ∷ ("missing_adapter", pos 14)
    ∷ ("production_blocker", pos 22)
    ∷ ("duplicate_role", pos 5)
    ∷ ("stale_reference", pos 5)
    ∷ ("already_integrated", negsuc 19)
    ∷ ("legacy", negsuc 29)
    ∷ ("archived", negsuc 59)
    ∷ []

abbrev task_by_signal : List (String × String)
task_by_signal =
    ("production_blocker", "production_gap")
    ∷ ("runtime_integration_gap", "integration_adapter")
    ∷ ("spec_only", "implementation_gap")
    ∷ ("missing_tests", "test_gap")
    ∷ ("missing_adapter", "adapter_gap")
    ∷ ("duplicate_role", "consolidation_review")
    ∷ []

pub record RepoObservation : Type 0 where
  pub full_name : String
  pub repo_class : String
  pub maturity : String
  pub size_kb : ℤ
  pub archived : Bool
  pub signals : List String
  pub evidence : List String

abbrev dedupe_after : List String → List String → List String
dedupe_after seen [] = []
dedupe_after seen (t ∷ ts) =
    let rest = dedupe_after (t ∷ seen) ts in
    let skipped = dedupe_after seen ts in if mem_text t seen then skipped else t ∷ rest

-- `RepoObservation.__post_init__`, which keeps the first of equal signals
unfoldable pub make_repo_observation : RepoObservation → Result RepoObservation
make_repo_observation o = do
  reject_if (is_blank o.full_name) "full_name is required"
  ok (record o { signals = dedupe_after [] o.signals })

pub record MaintenanceCandidate : Type 0 where
  pub full_name : String
  pub score : ℤ
  pub task_type : String
  pub title : String
  pub rationale : String
  pub evidence : List String
  pub requested_capability : String
  pub requested_action : String
  pub route : String

abbrev or_zero : Option ℤ → ℤ
or_zero none = pos 0
or_zero (some n) = n

unfoldable pub signal_score : List String → ℤ
signal_score [] = pos 0
signal_score (s ∷ ss) = or_zero (lookup s signal_weights) +ℤ signal_score ss

unfoldable pub score_of : RepoObservation → ℤ
score_of o =
    let live = or_zero (lookup o.repo_class class_weights) +ℤ signal_score o.signals in
    if o.archived then live +ℤ negsuc 59 else live

abbrev task_among : List (String × String) → List String → String
task_among [] signals = "maintenance_review"
task_among ((signal, mapped) ∷ rest) signals =
    let later = task_among rest signals in if mem_text signal signals then mapped else later

unfoldable pub task_type_of : RepoObservation → String
task_type_of o = task_among task_by_signal o.signals

-- what follows the first "/", where there is one
abbrev after_slash : String → Option String
after_slash String.[] = none
after_slash (String.◌∷◌ c s) =
    let rest = after_slash s in if nat_eq (code c) 47 then some s else rest

abbrev repo_short : String → String
repo_short full_name = elim (after_slash full_name) [ none ↦ full_name | some short ↦ short ]

abbrev joined_after : String → List String → String
joined_after separator [] = ""
joined_after separator (t ∷ ts) = separator <> t <> joined_after separator ts

-- `separator.join(ts)`
abbrev join : String → List String → String
join separator [] = ""
join separator (t ∷ ts) = t <> joined_after separator ts

abbrev labels : List (String × String)
labels =
    ("production_gap", "Close production-readiness gap")
    ∷ ("integration_adapter", "Add Personal Agent Runtime integration adapter")
    ∷ ("implementation_gap", "Implement the documented core contract")
    ∷ ("test_gap", "Add regression coverage for core invariants")
    ∷ ("adapter_gap", "Add missing adapter contract")
    ∷ ("consolidation_review", "Review overlap and consolidation path")
    ∷ ("maintenance_review", "Review next maintenance step")
    ∷ []

-- Every task type has a label.
abbrev label_or : Option String → String
label_or none = ""
label_or (some label) = label

unfoldable pub title_of : String → String → String
title_of short task_type =
    "[Repo Maintainer] " <> label_or (lookup task_type labels) <> " — " <> short

abbrev signal_text : List String → String
signal_text [] = "no explicit maintenance signal"
signal_text (s ∷ ss) = join ", " (s ∷ ss)

unfoldable pub rationale_of : RepoObservation → String
rationale_of o =
    repo_short o.full_name
    <> " is classified as "
    <> o.repo_class
    <> " with maturity '"
    <> o.maturity
    <> "'. Observed maintenance signals: "
    <> signal_text o.signals
    <> ". Create a reviewable maintenance task; do not modify the repository automatically."

unfoldable pub candidate : RepoObservation → MaintenanceCandidate
candidate o = record {
  full_name = o.full_name;
  score = score_of o;
  task_type = task_type_of o;
  title = title_of (repo_short o.full_name) (task_type_of o);
  rationale = rationale_of o;
  evidence = o.evidence;
  requested_capability = "github.issue.create";
  requested_action = "create_issue";
  route = "REVIEW";
}

abbrev bulleted : List String → List String
bulleted [] = []
bulleted (t ∷ ts) = ("- " <> t) ∷ bulleted ts

abbrev evidence_lines : List String → List String
evidence_lines [] = []
evidence_lines (t ∷ ts) = "" ∷ "Evidence:" ∷ bulleted (t ∷ ts)

abbrev pub candidates : List RepoObservation → List MaintenanceCandidate
candidates [] = []
candidates (o ∷ os) = let rest = candidates os in if o.archived then rest else candidate o ∷ rest

abbrev count_of : ℤ → ℕ
count_of (pos n) = n
count_of (negsuc n) = 0

module _ (lower : String → String) where
  -- the order by `(-item.score, item.full_name.lower())`
  unfoldable pub comes_first : MaintenanceCandidate → MaintenanceCandidate → Bool
  comes_first c d =
      ltb_ℤ d.score c.score
      || (not (ltb_ℤ c.score d.score) && before (lower c.full_name) (lower d.full_name))

  unfoldable pub ranked : List RepoObservation → List MaintenanceCandidate
  ranked observations = sort_by comes_first (candidates observations)

  -- `RepoMaintainer.select`
  unfoldable pub select : List RepoObservation → ℤ → Result (List MaintenanceCandidate)
  select observations limit = do
    reject_if (ltb_ℤ limit (pos 1)) "limit must be >= 1"
    ok (take (count_of limit) (ranked observations))

module _ ⦃p : Platform⦄ where
  -- `to_action_request`
  unfoldable pub to_action_request : MaintenanceCandidate → String → Result ActionRequest
  to_action_request c request_id =
      let lines =
        c.rationale ∷ evidence_lines c.evidence
        ++ ""
          ∷ ("Maintainer score: " <> text_of (int c.score))
          ∷ "Generated by Personal Agent Runtime Repo Maintainer. Human review required."
          ∷ [] in
      make_request request_id c.requested_capability c.requested_action c.full_name
        (fields (("title", str c.title) ∷ ("body", str (join "\n" lines)) ∷ []))
        "repo-maintainer-agent"
