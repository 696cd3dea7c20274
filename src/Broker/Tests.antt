-- ===== src/Broker/Tests.antt =====
-- A lease that is issued, redeemed and cancelled, and the theorems at it.
use autonomy_harbor.Base.{
  ℕ, ◌≤◌, ◌≡◌, refl, ◌↔◌, true, false, none, some, List, [], ◌∷◌, lookup, insert, is_blank,
}
use autonomy_harbor.Json.Print.{canonical_bytes}
use autonomy_harbor.Platform.{Datetime, parse_time, to_utc, add_seconds, replace_z, sha256_hex}
use autonomy_harbor.Platform.Model.{model}
use autonomy_harbor.Models.{GateDecision, review}
use autonomy_harbor.Gate.Fixtures.{write_request}
use autonomy_harbor.Broker.{
  ReviewBroker, empty_broker, check_lease, append_event, register, request_digest, request_body,
}
use autonomy_harbor.Broker.Methods.{
  lease_for, new_lease, enter, issue_for_review, cancel, same_scope, lease_refusal, refusal,
  consume, settle, redeem_found, redeem_at, redeem,
}
use autonomy_harbor.Broker.Run.{Call, issue, perform, run}
use autonomy_harbor.Broker.Valid.{
  IsValid, run-IsValid, empty_broker-IsValid, redemptions, redemptions-run,
}
use autonomy_harbor.Broker.Redeem.{authorizes, IsRedeemable, redeem_iff}
use autonomy_harbor.Broker.Log.{IsChained, run-IsChained}
use autonomy_harbor.Broker.Lasting.{redeem_once, cancel_lasts}

abbrev base : GateDecision
base = record {
  verdict = review;
  reason = "human_review_required";
  matched_grant_ids = "sandbox-write-review" ∷ [];
}

abbrev at : ℕ → Datetime
at t = record { instant = t; aware = true }

abbrev calls : List Call
calls = issue write_request base "human" 300 (some "L1") (at 1000000) ∷ []

abbrev issued_broker : ReviewBroker
issued_broker = run calls empty_broker

redeems : authorizes (redeem "L1" write_request base (at 2000000) issued_broker).0 ≡ true
unfolding run perform issue_for_review enter new_lease lease_for check_lease register append_event
    redeem redeem_at redeem_found settle consume refusal lease_refusal same_scope to_utc add_seconds
    parse_time replace_z sha256_hex request_digest request_body canonical_bytes model lookup insert
    is_blank
redeems = refl

redeem_once_example :
    authorizes
      (redeem "L1" write_request base
        (at 3000000)
        (run calls (redeem "L1" write_request base (at 2000000) issued_broker).1)).0
    ≡ false
redeem_once_example =
    redeem_once calls "L1" write_request base (at 2000000) calls write_request base (at 3000000)
      redeems

redeem_iff_example :
    (authorizes (redeem "L1" write_request base (at 2000000) issued_broker).0 ≡ true)
    ↔ IsRedeemable "L1" write_request base (at 2000000) issued_broker
redeem_iff_example = redeem_iff "L1" write_request base (at 2000000) issued_broker

cancel_lasts_example :
    authorizes
      (redeem "L1" write_request base
        (at 3000000)
        (run calls (cancel "L1" "human" "changed" (at 2000000) issued_broker).1)).0
    ≡ false
unfolding run perform issue_for_review enter new_lease lease_for check_lease register append_event
    to_utc add_seconds parse_time replace_z sha256_hex request_digest request_body canonical_bytes
    model lookup insert is_blank
cancel_lasts_example =
    cancel_lasts "L1" "human" "changed" (at 2000000) issued_broker calls write_request base
      (at 3000000) refl

redemptions-run_example : redemptions "L1" (run calls empty_broker).events ≤ 1
redemptions-run_example = redemptions-run calls "L1"

run-IsChained_example : IsChained none (run calls empty_broker).events
run-IsChained_example = run-IsChained calls

run-IsValid_example : IsValid (run calls empty_broker)
run-IsValid_example = run-IsValid calls empty_broker empty_broker-IsValid
