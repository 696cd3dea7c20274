-- ===== src/Permit.antt =====
-- The one-shot execution permits of appliance.py; the state is the rows of `ExecutionPermitLedger`.
pub mod Consumed
pub mod Outcome
pub mod Final
pub mod Messages
pub mod Issued
pub mod Fixtures
mod Tests
use autonomy_harbor.Base.{
  ℕ, ap, ◌<◌, ◌≡◌, pos, String, Bool, true, false, not, ◌&&◌, ◌||◌, Option, none, some, List, [],
  ◌∷◌, ltb, leb, ◌==◌, ◌<>◌, or_else, Result, ok, raised, fail, reject_if, value_error,
  if◌then◌else◌, ◌>>=◌, ◌>>◌,
}
use autonomy_harbor.Json.{Json, int, str, arr, obj, Fields, fields, strs, has_exactly, get, json_eq}
use autonomy_harbor.Platform.{
  Platform, Datetime, text_of, to_utc, end_of_time, add_seconds, timestamp_text, replace_z,
}
use autonomy_harbor.Models.{
  ActionRequest, CapabilityRegistry, GateDecision, allow, is_allow, verdict_text,
}
use autonomy_harbor.Broker.{request_digest}
use autonomy_harbor.Signer.{Signer, TrustStore}
use autonomy_harbor.Envelope.{SignedEnvelope, sign_payload, required}
use autonomy_harbor.Envelope.Verify.{verify_envelope}
use autonomy_harbor.Ledger.{Row, Sqlite, consume_permit}
use autonomy_harbor.Authorizer.{is_text_at, each_text}

abbrev pub appliance_version : String
appliance_version = "0.9"

module _ ⦃p : Platform⦄ where
  -- The payload, which is returned only for an ALLOW.
  unfoldable pub permit_payload :
      String → ActionRequest → GateDecision → CapabilityRegistry → String → String → Fields
  permit_payload permit_id request decision registry issued_at expires_at = fields (
      ("permit_version", str appliance_version)
      ∷ ("permit_id", str permit_id)
      ∷ ("request_digest", str (request_digest request))
      ∷ ("request_id", str request.request_id)
      ∷ ("capability", str request.capability)
      ∷ ("action", str request.action)
      ∷ ("resource", str request.resource)
      ∷ ("actor", str request.actor)
      ∷ ("gate_verdict", str (verdict_text decision.verdict))
      ∷ ("gate_reason", str decision.reason)
      ∷ ("matched_grant_ids", arr (strs decision.matched_grant_ids))
      ∷ ("registry_id", str registry.registry_id)
      ∷ ("registry_version", str registry.version)
      ∷ ("issued_at", str issued_at)
      ∷ ("expires_at", str expires_at)
      ∷ ("max_uses", int (pos 1))
      ∷ ("authority_effect", str "EXECUTION_ONCE")
      ∷ [])

  unfoldable pub execution_permit_payload :
      String → ActionRequest → GateDecision → CapabilityRegistry → String → String → Result Fields
  execution_permit_payload permit_id request decision registry issued_at expires_at = do
    reject_if (not (is_allow decision.verdict)) "execution_permit_requires_allow"
    ok (permit_payload permit_id request decision registry issued_at expires_at)

  -- `permit_id or f"permit-…"`
  unfoldable pub permit_id_for : Option String → ActionRequest → ℕ → String
  permit_id_for permit_id request current =
      or_else permit_id ("permit-" <> request.request_id <> "-" <> timestamp_text current)

  unfoldable pub issue_execution_permit :
      ActionRequest
      → GateDecision
      → CapabilityRegistry
      → Signer
      → ℕ
      → Option String
      → Datetime
      → Result SignedEnvelope
  issue_execution_permit request decision registry signer ttl_seconds permit_id now = do
    reject_if (ltb ttl_seconds 1 || ltb 300 ttl_seconds) "permit_ttl_must_be_between_1_and_300"
    current ← to_utc now
    expires ← add_seconds current ttl_seconds
    payload ←
        execution_permit_payload (permit_id_for permit_id request current) request decision registry
          (p.isoformat current) (p.isoformat expires)
    sign_payload "execution_permit" payload signer (p.isoformat current) none

pub record PermitAuthorization : Type 0 where
  pub authorized : Bool
  pub reason : String
  pub permit_id : Option String
  pub gate_decision : Option GateDecision
  pub registry_id : Option String
  pub registry_version : Option String

abbrev pub permit_fields : List String
permit_fields =
    "permit_version" ∷ "permit_id" ∷ "request_digest" ∷ "request_id" ∷ "capability" ∷ "action"
    ∷ "resource" ∷ "actor" ∷ "gate_verdict" ∷ "gate_reason" ∷ "matched_grant_ids" ∷ "registry_id"
    ∷ "registry_version" ∷ "issued_at" ∷ "expires_at" ∷ "max_uses" ∷ "authority_effect" ∷ []

abbrev permit_refused : String → Option String → PermitAuthorization
permit_refused reason permit_id = record {
  authorized = false;
  reason = reason;
  permit_id = permit_id;
  gate_decision = none;
  registry_id = none;
  registry_version = none;
}

-- `payload[k] == 1`
abbrev pub is_one_at : Option Json → Bool
is_one_at none = false
is_one_at (some v) = json_eq v (int (pos 1))

module _ ⦃p : Platform⦄ where
  read_time : Option Datetime → Result Datetime
  read_time none = fail value_error "Invalid isoformat string"
  read_time (some d) = ok d

  -- `datetime.fromisoformat(str(v).replace("Z", "+00:00"))`
  unfoldable pub time_at : Json → Result Datetime
  unfolding read_time
  time_at v = read_time (p.fromisoformat (replace_z (text_of v)))

  pub time_at-isoformat :
      (t : ℕ)
      → t < end_of_time
      → time_at (str (p.isoformat t)) ≡ ok (record { instant = t; aware = true })
  unfolding time_at read_time text_of
  time_at-isoformat t h = ap read_time (p.fromisoformat-isoformat t h)

  -- whether `str(payload[k]) == t`
  abbrev pub shows : Option Json → String → Bool
  shows none t = false
  shows (some v) t = text_of v == t

  -- The first of the checks on the payload's own fields to fail, which are present.
  unfoldable pub payload_refusal : Fields → Option String
  payload_refusal payload =
      if not (has_exactly permit_fields payload)
      then some "permit_payload_fields_mismatch"
      else if not (is_text_at (get "permit_version" payload) appliance_version)
      then some "permit_version_mismatch"
      else if not (is_text_at (get "authority_effect" payload) "EXECUTION_ONCE")
          || not (is_one_at (get "max_uses" payload))
      then some "permit_authority_invalid"
      else if not (is_text_at (get "gate_verdict" payload) "ALLOW")
      then some "permit_gate_not_allow"
      else none

  -- The first of the checks against the request to fail.
  unfoldable pub request_refusal : Fields → ActionRequest → Option String
  request_refusal payload request =
      if not (is_text_at (get "request_digest" payload) (request_digest request))
      then some "permit_request_digest_mismatch"
      else if not (shows (get "request_id" payload) request.request_id)
      then some "permit_request_id_mismatch"
      else if not (shows (get "capability" payload) request.capability)
      then some "permit_capability_mismatch"
      else if not (shows (get "action" payload) request.action)
      then some "permit_action_mismatch"
      else if not (shows (get "resource" payload) request.resource)
      then some "permit_resource_mismatch"
      else if not (shows (get "actor" payload) request.actor)
      then some "permit_actor_mismatch"
      else none

  abbrev named_refusal : Option String → String → Option (String × Option String)
  named_refusal none permit_id = none
  named_refusal (some reason) permit_id = some (reason, some permit_id)

  -- The checks of the span and of the request: a refusal, which names the permit from the second
  -- on, or the permit's id.
  unfoldable pub span_refusal :
      Datetime → Datetime → ℕ → Fields → ActionRequest → String → Option (String × Option String)
  span_refusal issued expires current payload request permit_id =
      if not issued.aware || not expires.aware
      then some ("permit_timestamp_invalid", none)
      else if ltb current issued.instant
      then some ("permit_not_yet_valid", some permit_id)
      else if leb expires.instant current
      then some ("permit_expired", some permit_id)
      else named_refusal (request_refusal payload request) permit_id

  module _ ⦃q : Sqlite⦄ where
    -- the answer once the row is in the ledger; reading the decision's grants may raise
    unfoldable pub granted : Fields → String → Result PermitAuthorization
    granted payload permit_id = do
      gate_reason ← required "gate_reason" payload
      raw ← required "matched_grant_ids" payload
      ids ← each_text raw
      registry_id ← required "registry_id" payload
      registry_version ← required "registry_version" payload
      ok (record {
        authorized = true;
        reason = "execution_permit_redeemed";
        permit_id = some permit_id;
        gate_decision =
            some
              (record { verdict = allow; reason = text_of gate_reason; matched_grant_ids = ids });
        registry_id = some (text_of registry_id);
        registry_version = some (text_of registry_version);
      })

    unfoldable pub answer_consumed :
        Bool × List Row → Fields → String → Result PermitAuthorization × List Row
    answer_consumed (true, rows) payload permit_id = (granted payload permit_id, rows)
    answer_consumed (false, rows) payload permit_id =
        (ok (permit_refused "permit_already_used" (some permit_id)), rows)

    unfoldable pub consume_within :
        Option (String × Option String)
        → SignedEnvelope
        → String
        → ℕ
        → List Row
        → Result PermitAuthorization × List Row
    consume_within (some (reason, permit_id)) envelope id current rows =
        (ok (permit_refused reason permit_id), rows)
    consume_within none envelope id current rows =
        answer_consumed (consume_permit id envelope.envelope_hash (p.isoformat current) rows)
          envelope.payload id

    -- the times of the permit, and its id
    unfoldable pub times_of : Fields → Result (Datetime × Datetime × String)
    times_of payload = do
      issued_text ← required "issued_at" payload
      issued ← time_at issued_text
      expires_text ← required "expires_at" payload
      expires ← time_at expires_text
      permit_id ← required "permit_id" payload
      ok (issued, expires, text_of permit_id)

    unfoldable pub consume_timed :
        Result (Datetime × Datetime × String)
        → SignedEnvelope
        → ActionRequest
        → ℕ
        → List Row
        → Result PermitAuthorization × List Row
    consume_timed (raised e) envelope request current rows = (raised e, rows)
    consume_timed (ok (issued, expires, id)) envelope request current rows =
        consume_within (span_refusal issued expires current envelope.payload request id) envelope id
          current rows

    unfoldable pub consume_checked :
        Option String
        → SignedEnvelope
        → ActionRequest
        → ℕ
        → List Row
        → Result PermitAuthorization × List Row
    consume_checked (some reason) envelope request current rows =
        (ok (permit_refused reason none), rows)
    consume_checked none envelope request current rows =
        consume_timed (times_of envelope.payload) envelope request current rows

    unfoldable pub consume_at :
        Result ℕ
        → SignedEnvelope
        → ActionRequest
        → TrustStore
        → List Row
        → Result PermitAuthorization × List Row
    consume_at (raised e) envelope request store rows = (raised e, rows)
    consume_at (ok current) envelope request store rows =
        let verified =
          verify_envelope envelope store (some "execution_permit_issuer")
            (some "execution_permit") in
        if not verified.ok
        then (ok (permit_refused ("permit_" <> verified.reason) none), rows)
        else consume_checked (payload_refusal envelope.payload) envelope request current rows

    unfoldable pub verify_and_consume_execution_permit :
        SignedEnvelope
        → ActionRequest
        → TrustStore
        → Datetime
        → List Row
        → Result PermitAuthorization × List Row
    verify_and_consume_execution_permit envelope request store now rows =
        consume_at (to_utc now) envelope request store rows
