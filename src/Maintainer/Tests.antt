-- ===== src/Maintainer/Tests.antt =====
-- A selection from three repositories.
use autonomy_harbor.Base.{
  ◌≡◌, pos, refl, String, true, false, List, [], ◌∷◌, ok, sort_by, lookup, before,
}
use autonomy_harbor.Maintainer.{
  RepoObservation, candidate, comes_first, ranked, select, score_of, signal_score,
}

abbrev lower : String → String
lower s = s

abbrev runtime_repo : RepoObservation
runtime_repo = record {
  full_name = "owner/runtime";
  repo_class = "core";
  maturity = "beta";
  size_kb = pos 120;
  archived = false;
  signals = "missing_tests" ∷ [];
  evidence = [];
}

abbrev notes_repo : RepoObservation
notes_repo = record runtime_repo {
  full_name = "owner/notes";
  repo_class = "experimental";
  signals = [];
}

abbrev old_repo : RepoObservation
old_repo = record runtime_repo { full_name = "owner/old"; archived = true }

abbrev observations : List RepoObservation
observations = notes_repo ∷ old_repo ∷ runtime_repo ∷ []

-- the name decides between two repositories with the same signals
abbrev tools_repo : RepoObservation
tools_repo = record runtime_repo { full_name = "owner/abacus" }

select_tie : select lower (runtime_repo ∷ tools_repo ∷ []) (pos 1) ≡ ok (candidate tools_repo ∷ [])
unfolding select ranked sort_by comes_first candidate score_of signal_score lookup before
select_tie = refl
