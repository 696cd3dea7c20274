-- ===== src/Maintainer/Receipts.antt =====
-- The receipts of the triage: `build_receipt` and `MaintenanceReceipt` of repo_maintainer.py.
use autonomy_harbor.Base.{
  ℕ, ℤ, pos, String, List, [], ◌∷◌, length, before, sort_by, Result, ok, ◌>>=◌,
}
use autonomy_harbor.Json.{bool, int, str, arr, obj, Items, nil, cons, Fields, fields, strs}
use autonomy_harbor.Platform.{Platform, sha256_hex}
use autonomy_harbor.Maintainer.{RepoObservation, MaintenanceCandidate, select}

unfoldable pub sorted_observations : (String → String) → List RepoObservation → List RepoObservation
sorted_observations lower =
    sort_by (λ (a b : RepoObservation). before (lower a.full_name) (lower b.full_name))

unfoldable pub observation_dict : RepoObservation → Fields
observation_dict o = fields (
    ("full_name", str o.full_name)
    ∷ ("repo_class", str o.repo_class)
    ∷ ("maturity", str o.maturity)
    ∷ ("size_kb", int o.size_kb)
    ∷ ("archived", bool o.archived)
    ∷ ("signals", arr (strs o.signals))
    ∷ ("evidence", arr (strs o.evidence))
    ∷ [])

abbrev observation_dicts : List RepoObservation → Items
observation_dicts [] = nil
observation_dicts (o ∷ os) = cons (obj (observation_dict o)) (observation_dicts os)

unfoldable pub summary_dict : MaintenanceCandidate → Fields
summary_dict c =
    fields (
      ("full_name", str c.full_name) ∷ ("score", int c.score) ∷ ("task_type", str c.task_type) ∷ [])

abbrev summary_dicts : List MaintenanceCandidate → Items
summary_dicts [] = nil
summary_dicts (c ∷ cs) = cons (obj (summary_dict c)) (summary_dicts cs)

pub record MaintenanceReceipt : Type 0 where
  pub receipt_version : String
  pub snapshot_id : String
  pub observed_repositories : ℕ
  pub selected : List MaintenanceCandidate
  pub input_digest : String
  pub receipt_hash : String

unfoldable pub candidate_dict : MaintenanceCandidate → Fields
candidate_dict c = fields (
    ("full_name", str c.full_name)
    ∷ ("score", int c.score)
    ∷ ("task_type", str c.task_type)
    ∷ ("title", str c.title)
    ∷ ("rationale", str c.rationale)
    ∷ ("evidence", arr (strs c.evidence))
    ∷ ("requested_capability", str c.requested_capability)
    ∷ ("requested_action", str c.requested_action)
    ∷ ("route", str c.route)
    ∷ [])

abbrev candidate_dicts : List MaintenanceCandidate → Items
candidate_dicts [] = nil
candidate_dicts (c ∷ cs) = cons (obj (candidate_dict c)) (candidate_dicts cs)

-- `MaintenanceReceipt.as_dict`
unfoldable pub maintenance_receipt_dict : MaintenanceReceipt → Fields
maintenance_receipt_dict receipt = fields (
    ("receipt_version", str receipt.receipt_version)
    ∷ ("snapshot_id", str receipt.snapshot_id)
    ∷ ("observed_repositories", int (pos receipt.observed_repositories))
    ∷ ("selected", arr (candidate_dicts receipt.selected))
    ∷ ("input_digest", str receipt.input_digest)
    ∷ ("receipt_hash", str receipt.receipt_hash)
    ∷ [])

module _ ⦃p : Platform⦄ where
  unfoldable pub maintenance_receipt :
      (String → String)
      → List RepoObservation
      → String
      → List MaintenanceCandidate
      → MaintenanceReceipt
  maintenance_receipt lower observations snapshot_id selected =
      let input_digest =
        sha256_hex (arr (observation_dicts (sorted_observations lower observations))) in
      record {
        receipt_version = "0.5";
        snapshot_id = snapshot_id;
        observed_repositories = length observations;
        selected = selected;
        input_digest = input_digest;
        receipt_hash = sha256_hex (
            obj (
              fields (
                ("receipt_version", str "0.5")
                ∷ ("snapshot_id", str snapshot_id)
                ∷ ("observed_repositories", int (pos (length observations)))
                ∷ ("selected", arr (summary_dicts selected))
                ∷ ("input_digest", str input_digest)
                ∷ [])));
      }

  -- `RepoMaintainer.build_receipt`
  unfoldable pub build_receipt :
      (String → String) → List RepoObservation → String → ℤ → Result MaintenanceReceipt
  build_receipt lower observations snapshot_id limit = do
    selected ← select lower observations limit
    ok (maintenance_receipt lower observations snapshot_id selected)
