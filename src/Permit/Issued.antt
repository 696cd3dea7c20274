-- ===== src/Permit/Issued.antt =====
-- A permit that was issued is accepted once, within its span.
use mathlib.Core.Path.{subst}
use autonomy_harbor.Base.{
  ℕ, ◌+◌, ◌*◌, ◌≤◌, ◌<◌, ◌≡◌, refl, sym, String, true, false, Option, none, some, List, any, arith,
  eq_refl, ok, lookup, inl, inr,
}
use autonomy_harbor.Json.{Fields, get, has_exactly, json_eq}
use autonomy_harbor.Platform.{Platform, Datetime, end_of_time, to_utc, add_seconds, text_of}
use autonomy_harbor.Models.{ActionRequest, CapabilityRegistry, GateDecision, allow}
use autonomy_harbor.Signer.{Signer, TrustStore, TrustedSigner, key_id, public_key_b64}
use autonomy_harbor.Envelope.{SignedEnvelope, sign_payload}
use autonomy_harbor.Envelope.Verify.{verify_envelope, role_in}
use autonomy_harbor.Envelope.Verified.{sign_payload-IsVerified, payload-sign_payload}
use autonomy_harbor.Broker.{request_digest}
use autonomy_harbor.Ledger.{Row, Sqlite, clashes, consume_permit}
use autonomy_harbor.Ledger.OneShot.{consume-cases}
use autonomy_harbor.Authorizer.{each_text}
use autonomy_harbor.Permit.{
  permit_payload, execution_permit_payload, permit_id_for, issue_execution_permit, payload_refusal,
  time_at-isoformat, request_refusal, span_refusal, granted, answer_consumed, consume_within,
  times_of, consume_timed, consume_checked, consume_at, verify_and_consume_execution_permit,
}
use autonomy_harbor.Permit.Consumed.{is_authorized, permit_row}

module _ ⦃p : Platform⦄ ⦃q : Sqlite⦄ where
  abbrev aware_at : ℕ → Datetime
  aware_at t = record { instant = t; aware = true }

  module _ (id : String) (request : ActionRequest) (decision : GateDecision)
      (registry : CapabilityRegistry) where
    module _ (issued_at expires_at : String) where
      payload_refusal-permit_payload :
          decision.verdict ≡ allow
          → payload_refusal (permit_payload id request decision registry issued_at expires_at)
            ≡ none
      unfolding payload_refusal permit_payload has_exactly get json_eq
      payload_refusal-permit_payload allowed = rw (allowed) refl

      request_refusal-permit_payload :
          request_refusal (permit_payload id request decision registry issued_at expires_at) request
          ≡ none
      unfolding request_refusal permit_payload get text_of
      request_refusal-permit_payload = ground (
        arith,
        eq_refl (request_digest request),
        eq_refl request.request_id,
        eq_refl request.capability,
        eq_refl request.action,
        eq_refl request.resource,
        eq_refl request.actor,
      )

      granted-permit_payload :
          is_authorized
            (granted (permit_payload id request decision registry issued_at expires_at) id)
          ≡ true
      unfolding granted permit_payload get each_text
      granted-permit_payload = refl

    times_of-permit_payload :
        (t u : ℕ)
        → t < end_of_time
        → u < end_of_time
        → times_of (permit_payload id request decision registry (p.isoformat t) (p.isoformat u))
          ≡ ok (aware_at t, aware_at u, id)
    unfolding times_of permit_payload get text_of
    times_of-permit_payload t u ht hu = rw (time_at-isoformat t ht, time_at-isoformat u hu) refl

  -- What an issuer's call has found out, where it returns.
  record IsIssued (request : ActionRequest) (decision : GateDecision)
      (registry : CapabilityRegistry) (signer : Signer) (ttl : ℕ) (permit_id : Option String)
      (now : Datetime) (e : SignedEnvelope) : Type 0 where
    allowed : decision.verdict ≡ allow
    ends : now.instant + ttl * 1000000 < end_of_time
    signed :
        sign_payload "execution_permit"
          (permit_payload
            (permit_id_for permit_id request now.instant)
            request
            decision
            registry
            (p.isoformat now.instant)
            (p.isoformat (now.instant + ttl * 1000000)))
          signer
          (p.isoformat now.instant)
          none
        ≡ ok e

  issue_execution_permit-IsIssued :
      (request : ActionRequest) (decision : GateDecision) (registry : CapabilityRegistry)
      (signer : Signer) (ttl : ℕ) (permit_id : Option String) (now : Datetime) (e : SignedEnvelope)
      → issue_execution_permit request decision registry signer ttl permit_id now ≡ ok e
      → IsIssued request decision registry signer ttl permit_id now e
  unfolding issue_execution_permit execution_permit_payload to_utc add_seconds
  issue_execution_permit-IsIssued request decision registry signer ttl permit_id now e h = record {
    allowed = ground arith;
    ends = ground arith;
    signed = ground arith;
  }

  -- The use of an envelope that is verified and has the payload of a permit.
  verified-authorizes :
      (e : SignedEnvelope) (request : ActionRequest) (store : TrustStore) (now : Datetime)
      (rows : List Row) (issued expires : ℕ) (id : String)
      → (verify_envelope e store (some "execution_permit_issuer") (some "execution_permit")).ok
        ≡ true
      → payload_refusal e.payload ≡ none
      → request_refusal e.payload request ≡ none
      → times_of e.payload ≡ ok (aware_at issued, aware_at expires, id)
      → is_authorized (granted e.payload id) ≡ true
      → now.aware ≡ true
      → issued ≤ now.instant
      → now.instant < expires
      → any (clashes (permit_row id e now)) rows ≡ false
      → is_authorized (verify_and_consume_execution_permit e request store now rows).0 ≡ true
  unfolding verify_and_consume_execution_permit consume_at consume_checked consume_timed
      consume_within span_refusal answer_consumed consume_permit to_utc
  verified-authorizes e request store now rows issued expires id verified proper named times reads
        aware begun running free =
      elim (consume-cases (permit_row id e now) rows) [
        | inr (taken, x) ↦ absurd (ground (arith, free))
        | inl (unused, x) ↦ ground (arith, verified, proper, named, times, reads, x)
      ]

  -- A permit that was issued is accepted for its request by every store that trusts the signer's key
  -- and subject as an issuer of permits, at any time from its issue until its lifetime is over, as
  -- long as no row of the ledger has its id or the envelope's digest.
  pub issue_execution_permit-authorizes :
      (request : ActionRequest) (decision : GateDecision) (registry : CapabilityRegistry)
      (signer : Signer) (ttl : ℕ) (permit_id : Option String) (now later : Datetime)
      (e : SignedEnvelope) (store : TrustStore) (trusted : TrustedSigner) (rows : List Row)
      → issue_execution_permit request decision registry signer ttl permit_id now ≡ ok e
      → lookup (key_id signer) store ≡ some trusted
      → trusted.status ≡ "ACTIVE"
      → trusted.subject ≡ signer.subject
      → trusted.public_key_b64 ≡ public_key_b64 signer
      → role_in (some "execution_permit_issuer") trusted.roles ≡ true
      → later.aware ≡ true
      → now.instant ≤ later.instant
      → later.instant < now.instant + ttl * 1000000
      → any (clashes (permit_row (permit_id_for permit_id request now.instant) e later)) rows
        ≡ false
      → is_authorized (verify_and_consume_execution_permit e request store later rows).0 ≡ true
  issue_execution_permit-authorizes request decision registry signer ttl permit_id now later e store
        trusted rows made known active subject key role aware begun running free =
      let w =
        issue_execution_permit-IsIssued request decision registry signer ttl permit_id now e made in
      let id = permit_id_for permit_id request now.instant in
      let t = now.instant in
      let u = now.instant + ttl * 1000000 in
      let d = permit_payload id request decision registry (p.isoformat t) (p.isoformat u) in
      let same : d ≡ e.payload =
        sym (payload-sign_payload "execution_permit" d signer none (p.isoformat t) e w.signed) in
      verified-authorizes e request store later rows t u id
        (sign_payload-IsVerified "execution_permit" d signer none (p.isoformat t) e store trusted
          (some "execution_permit_issuer") w.signed known active subject key role)
        (subst (λ (f : Fields). payload_refusal f ≡ none) same
          (payload_refusal-permit_payload id request decision registry (p.isoformat t)
            (p.isoformat u) w.allowed))
        (subst (λ (f : Fields). request_refusal f request ≡ none) same
          (request_refusal-permit_payload id request decision registry (p.isoformat t)
            (p.isoformat u)))
        (subst (λ (f : Fields). times_of f ≡ ok (aware_at t, aware_at u, id)) same
          (times_of-permit_payload id request decision registry t u (omega (arith, w.ends)) w.ends))
        (subst (λ (f : Fields). is_authorized (granted f id) ≡ true) same
          (granted-permit_payload id request decision registry (p.isoformat t) (p.isoformat u)))
        aware begun running free
