-- ===== src/Maintainer/Selected.antt =====
-- What the triage selects.
use autonomy_harbor.Base.{ℕ, zero, suc, ltb_ℤ, String, Bool, not, List, [], ◌∷◌, ◌||◌, ◌&&◌, before}
use autonomy_harbor.Maintainer.{MaintenanceCandidate}

rest_of : ℕ → List MaintenanceCandidate → List MaintenanceCandidate
rest_of zero xs = xs
rest_of (suc n) [] = []
rest_of (suc n) (x ∷ xs) = rest_of n xs

module _ (lower : String → String) where
  -- The first has the greater score, or the scores are the same and its name is not after the other's.
  abbrev pub in_order : MaintenanceCandidate → MaintenanceCandidate → Bool
  in_order c d =
      ltb_ℤ d.score c.score
      || (not (ltb_ℤ c.score d.score) && not (before (lower d.full_name) (lower c.full_name)))
