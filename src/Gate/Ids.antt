-- ===== src/Gate/Ids.antt =====
-- The grants that a decision names.
use autonomy_harbor.Base.{Bool, false}
use autonomy_harbor.Models.{Verdict, allow, review, deny, other, is_allow, is_review, is_deny}

abbrev pub test_of : Verdict → Verdict → Bool
test_of allow = is_allow
test_of review = is_review
test_of deny = is_deny
test_of (other t) = λ _. false
