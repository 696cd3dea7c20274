-- ===== src/Permit/Tests.antt =====
-- A permit that is consumed, and the theorems at it.
use autonomy_harbor.Permit.Issued.{issue_execution_permit-authorizes}
use autonomy_harbor.Envelope.Verified.{sign_payload-eq-ok}
use autonomy_harbor.Base.{
  ℕ, ◌≡◌, refl, true, false, [], ◌++◌, lookup, none, is_blank, ok, some, arith,
}
use autonomy_harbor.Json.{has_exactly, get, json_eq}
use autonomy_harbor.Json.Print.{canonical_bytes}
use autonomy_harbor.Platform.{
  Datetime, sha256_hex, to_utc, text_of, replace_z, parse_time, add_seconds,
}
use autonomy_harbor.Platform.Model.{model}
use autonomy_harbor.Gate.Fixtures.{read_request, policy_request, registry}
use autonomy_harbor.Broker.{request_digest, request_body}
use autonomy_harbor.Signer.{key_id_of, key_id, public_key_b64, sign}
use autonomy_harbor.Envelope.{
  sealed_envelope, view_of, signature_view, hash_view, sign_payload, check_envelope,
}
use autonomy_harbor.Envelope.Fixtures.{store, signer, trusted, known}
use autonomy_harbor.Envelope.Verify.{
  verify_envelope, checks_of, all_passed, verify_with, signature_verifies,
}
use autonomy_harbor.Ledger.{consume_permit, committed}
use autonomy_harbor.Ledger.Model.{table}
use autonomy_harbor.Authorizer.{each_text, texts_of}
use autonomy_harbor.Permit.{
  permit_id_for, execution_permit_payload, permit_payload, time_at, payload_refusal,
  request_refusal, span_refusal, granted, answer_consumed, consume_within, times_of, consume_timed,
  consume_checked, consume_at, verify_and_consume_execution_permit, issue_execution_permit,
  add_seconds,
}
use autonomy_harbor.Permit.Consumed.{
  is_authorized, IsConsumed, IsConsumed-of_authorized, permit_once,
}
use autonomy_harbor.Permit.Fixtures.{decision, permit, result, final, final_envelope}
use autonomy_harbor.Permit.Outcome.{
  execution_result_payload, result_refusal, judge, check_outcome, verify_execution_result,
  final_receipt_from_appliance, final_parts, signed_final,
}
use autonomy_harbor.Permit.Final.{IsEvidence, final_receipt_from_appliance-IsEvidence}
use autonomy_harbor.Receipt.{create_receipt, receipt_body}
use autonomy_harbor.Runtime.{sign_action_receipt, action_receipt_payload}

abbrev at : ℕ → Datetime
at t = record { instant = t; aware = true }

authorizes :
    is_authorized (verify_and_consume_execution_permit permit read_request store (at 2000000) []).0
    ≡ true
unfolding execution_permit_payload permit_payload time_at payload_refusal request_refusal
    span_refusal granted answer_consumed consume_within times_of consume_timed consume_checked
    consume_at verify_and_consume_execution_permit each_text texts_of table consume_permit committed
    verify_envelope checks_of all_passed verify_with signature_verifies sealed_envelope view_of
    signature_view hash_view key_id_of key_id public_key_b64 sign request_digest request_body model
    sha256_hex to_utc text_of replace_z canonical_bytes has_exactly get json_eq lookup
authorizes = refl

IsConsumed-of_authorized_example :
    IsConsumed permit read_request store
      (at 2000000)
      []
      (verify_and_consume_execution_permit permit read_request store (at 2000000) []).1
IsConsumed-of_authorized_example =
    IsConsumed-of_authorized permit read_request store (at 2000000) [] authorizes

permit_once_example :
    is_authorized
      (verify_and_consume_execution_permit permit policy_request store
        (at 3000000)
        ((verify_and_consume_execution_permit permit read_request store (at 2000000) []).1 ++ [])).0
    ≡ false
permit_once_example =
    permit_once permit read_request policy_request store store (at 2000000) (at 3000000) [] []
      authorizes

completes :
    final_receipt_from_appliance read_request permit result store signer none none (at 4000000)
    ≡ ok (final, final_envelope)
unfolding final_receipt_from_appliance final_parts signed_final verify_execution_result
    result_refusal judge check_outcome execution_result_payload create_receipt receipt_body
    sign_action_receipt action_receipt_payload sign_payload check_envelope parse_time is_blank
    execution_permit_payload permit_payload each_text texts_of verify_envelope checks_of all_passed
    verify_with signature_verifies sealed_envelope view_of signature_view hash_view key_id_of key_id
    public_key_b64 sign request_digest request_body model sha256_hex to_utc text_of replace_z
    canonical_bytes get json_eq lookup
completes = refl

final_receipt_from_appliance-IsEvidence_example : IsEvidence read_request permit result store
final_receipt_from_appliance-IsEvidence_example =
    final_receipt_from_appliance-IsEvidence read_request permit result store signer none none
      (at 4000000) (final, final_envelope) completes

issues :
    issue_execution_permit read_request decision registry signer 30 (some "P1") (at 1000000)
    ≡ ok permit
unfolding issue_execution_permit execution_permit_payload permit_payload to_utc add_seconds
    permit_id_for is_blank
issues =
    sign_payload-eq-ok "execution_permit"
      (permit_payload "P1" read_request decision registry (model.isoformat 1000000)
        (model.isoformat 31000000))
      signer none 1000000 refl (ground arith)

issue_execution_permit-authorizes_example :
    is_authorized (verify_and_consume_execution_permit permit read_request store (at 2000000) []).0
    ≡ true
issue_execution_permit-authorizes_example =
    issue_execution_permit-authorizes read_request decision registry signer 30 (some "P1")
      (at 1000000) (at 2000000) permit store trusted [] issues known refl refl refl refl refl
      (ground arith) (ground arith) refl
