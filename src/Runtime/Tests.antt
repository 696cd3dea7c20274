-- ===== src/Runtime/Tests.antt =====
-- Runs, and the theorems at them.
use autonomy_harbor.Runtime.Start.{
  make_runtime, check_registry, check_attested, IsAttested, make_runtime-IsAttested,
}
use autonomy_harbor.Registry.Attested.{
  attest_capability_registry-accepted, registry_from_dict-registry_dict,
}
use autonomy_harbor.Registry.{
  capability_registry_payload, attest_capability_registry, registry_from_dict, registry_dict,
}
use autonomy_harbor.Authorizer.Issued.{count-request_digest, issue_signed_review_lease-authorizes}
use autonomy_harbor.Envelope.Verified.{sign_payload-eq-ok}
use autonomy_harbor.Envelope.{sealed_envelope, SignedEnvelope}
use autonomy_harbor.Base.{
  ℕ, ◌≡◌, ◌⊎◌, ◌↔◌, ◌≤◌, refl, true, none, some, [], ◌∷◌, any, ◌==◌, is_blank, ok, arith, upper,
}
use autonomy_harbor.Platform.{parse_time-isoformat, Datetime, to_utc, add_seconds}
use autonomy_harbor.Platform.Model.{model}
use autonomy_harbor.Models.{GateDecision, review, make_grant, parse_effect}
use autonomy_harbor.Gate.Fixtures.{read_request, write_request, policy_request, registry}
use autonomy_harbor.Gate.{evaluate, is_protected}
use autonomy_harbor.Broker.{ReviewLease, check_lease}
use autonomy_harbor.Broker.Redeem.{authorizes}
use autonomy_harbor.Envelope.Fixtures.{store, envelope, signer, trusted, known}
use autonomy_harbor.Ledger.{Row}
use autonomy_harbor.Ledger.Model.{table}
use autonomy_harbor.Ledger.OneShot.{consume_all, accepted_of, consume_lease_once}
use autonomy_harbor.Authorizer.{
  lease_id_for, review_lease_payload, redeem_signed, signed_lease, issue_signed_review_lease,
  signed_lease_at,
}
use autonomy_harbor.Authorizer.Facts.{IsAuthorized, redeem_signed_iff}
use autonomy_harbor.Runtime.{run, SignedEnvelope}
use autonomy_harbor.Runtime.Permitted.{IsPermitted, IsUnexecuted, run-IsPermitted, run-denied}
use autonomy_harbor.Runtime.Chained.{Attempt, IsReceiptChain, run_all, run_all-IsReceiptChain}
use autonomy_harbor.Runtime.Fixtures.{counting, runtime, start}

abbrev at : ℕ → Datetime
at t = record { instant = t; aware = true }

abbrev row : Row
row = record { id = "L1"; envelope_hash = "h"; consumed_at = "t" }

consume_lease_once_example :
    (accepted_of "L1" (row ∷ row ∷ []) (consume_all (row ∷ row ∷ []) []).0 ≤ 1)
    × (any (λ (r : Row). r.id == "L1") [] ≡ true
        → accepted_of "L1" (row ∷ row ∷ []) (consume_all (row ∷ row ∷ []) []).0 ≡ 0)
consume_lease_once_example = consume_lease_once "L1" (row ∷ row ∷ []) []

abbrev lease : ReviewLease
lease = record {
  lease_id = "L1";
  request_digest = "d";
  capability = "filesystem.write";
  action = "write_text";
  resource = "approved/a.txt";
  review_grant_ids = "g1" ∷ "g2" ∷ [];
  issued_by = "human";
  issued_at = "t";
  expires_at = "u";
  max_uses = 1;
  issuer_type = "HUMAN";
}

abbrev base : GateDecision
base = record { verdict = review; reason = "human_review_required"; matched_grant_ids = [] }

redeem_signed_iff_example :
    (authorizes (redeem_signed store envelope write_request base (at 2000000) []).0 ≡ true)
    ↔ IsAuthorized store envelope write_request base (at 2000000) []
redeem_signed_iff_example = redeem_signed_iff store envelope write_request base (at 2000000) []

run-IsPermitted_example :
    IsPermitted counting runtime read_request none none (at 1) start
    ⊎ (IsUnexecuted counting runtime read_request
          (run counting runtime none none read_request (at 1) "t" start).0
        × ((run counting runtime none none read_request (at 1) "t" start).1.world ≡ 0))
run-IsPermitted_example = run-IsPermitted counting runtime read_request none none (at 1) "t" start

run-denied_example :
    IsUnexecuted counting runtime policy_request
      (run counting runtime (some "L1") none policy_request (at 1) "t" start).0
    × ((run counting runtime (some "L1") none policy_request (at 1) "t" start).1.world ≡ 0)
unfolding evaluate is_protected
run-denied_example =
    run-denied counting runtime policy_request (some "L1") none (at 1) "t" start refl

abbrev attempt : Attempt
attempt = record {
  lease_id = none;
  envelope = none;
  request = read_request;
  now = at 1;
  created_at = "t";
}

run_all-IsReceiptChain_example :
    IsReceiptChain none
      (run_all counting runtime (attempt ∷ attempt ∷ []) start).0
      (run_all counting runtime (attempt ∷ attempt ∷ []) start).1.previous_receipt_hash
run_all-IsReceiptChain_example =
    run_all-IsReceiptChain counting runtime (attempt ∷ attempt ∷ []) start

abbrev issued_lease : ReviewLease
issued_lease = signed_lease write_request base signer "L1" 1000000 31000000

abbrev leased : SignedEnvelope
leased =
    sealed_envelope "review_lease" (review_lease_payload issued_lease) signer
      (model.isoformat 1000000) none

well_formed : check_lease issued_lease ≡ ok issued_lease
unfolding check_lease signed_lease is_blank
well_formed = ground (
  arith,
  count-request_digest write_request,
  parse_time-isoformat 1000000 (ground arith),
  parse_time-isoformat 31000000 (ground arith),
)

leases :
    issue_signed_review_lease write_request base signer 30 (some "L1") (at 1000000) none ≡ ok leased
unfolding issue_signed_review_lease signed_lease_at lease_id_for to_utc add_seconds is_blank
leases = rw (well_formed) (
    sign_payload-eq-ok "review_lease" (review_lease_payload issued_lease) signer none 1000000 refl
      (ground arith))

issue_signed_review_lease-authorizes_example :
    authorizes (redeem_signed store leased write_request base (at 2000000) []).0 ≡ true
issue_signed_review_lease-authorizes_example =
    issue_signed_review_lease-authorizes write_request base signer 30 (some "L1") (at 1000000)
      (at 2000000) none leased store trusted [] leases known refl refl refl refl refl (ground arith)
      (ground arith) refl

abbrev attestation : SignedEnvelope
attestation =
    sealed_envelope "capability_registry" (capability_registry_payload registry) signer
      (model.isoformat 1000000) none

attests : attest_capability_registry registry signer (model.isoformat 1000000) none ≡ ok attestation
unfolding attest_capability_registry is_blank
attests =
    sign_payload-eq-ok "capability_registry" (capability_registry_payload registry) signer none
      1000000 refl (ground arith)

starts :
    make_runtime registry (some store) (some signer) (some store) (some attestation) true
    ≡ ok runtime
unfolding make_runtime check_registry check_attested
starts = ground (
  arith,
  attest_capability_registry-accepted registry signer (model.isoformat 1000000) none attestation
      store trusted attests known refl refl refl refl,
)

make_runtime-IsAttested_example :
    IsAttested registry (some attestation) (some store) × (runtime.registry ≡ registry)
make_runtime-IsAttested_example =
    make_runtime-IsAttested registry (some store) (some signer) (some store) (some attestation) true
      runtime starts refl

registry_from_dict-registry_dict_example : registry_from_dict (registry_dict registry) ≡ ok registry
registry_from_dict-registry_dict_example =
    registry_from_dict-registry_dict registry
      (unfold make_grant parse_effect upper is_blank in (refl, (refl, (refl, tt))))
