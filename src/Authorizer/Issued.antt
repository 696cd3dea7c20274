-- ===== src/Authorizer/Issued.antt =====
-- A signed lease that was issued is redeemed once, within its span.
use mathlib.Core.Path.{subst}
use Prim.Native.String.{count}
use autonomy_harbor.Broker.{request_digest}
use autonomy_harbor.Base.{
  ℕ, ◌+◌, ◌*◌, ◌≤◌, ◌<◌, ◌≡◌, ◌∙◌, refl, sym, String, true, false, Option, some, List, any, arith,
  ok, lookup, Result-cases, inr, inl,
}
use autonomy_harbor.Json.{Fields}
use autonomy_harbor.Platform.{
  sha256_hex, Platform, Datetime, end_of_time, to_utc, add_seconds, parse_time-isoformat,
}
use autonomy_harbor.Models.{ActionRequest, GateDecision, is_review}
use autonomy_harbor.Signer.{Signer, TrustStore, TrustedSigner, key_id, public_key_b64}
use autonomy_harbor.Broker.{ReviewLease, check_lease}
use autonomy_harbor.Broker.Redeem.{authorizes, Covers}
use autonomy_harbor.Envelope.{SignedEnvelope, sign_payload}
use autonomy_harbor.Envelope.Verify.{role_in}
use autonomy_harbor.Envelope.Verified.{
  verify_envelope_iff, sign_payload-IsVerified, payload-sign_payload, signer_id-sign_payload,
}
use autonomy_harbor.Ledger.{Row, Sqlite, clashes}
use autonomy_harbor.Authorizer.{
  review_lease_payload, review_lease_from_payload, lease_id_for, signed_lease, signed_lease_at,
  issue_signed_review_lease, redeem_signed,
}
use autonomy_harbor.Authorizer.Facts.{review_lease_from_payload-payload, use_row, redeem_signed_iff}

module _ ⦃p : Platform⦄ where
  pub count-request_digest : (r : ActionRequest) → count (request_digest r) ≡ 64
  unfolding request_digest sha256_hex
  count-request_digest r = p.count-sha256 _

  check_lease-eq : (l m : ReviewLease) → check_lease l ≡ ok m → m ≡ l
  unfolding check_lease
  check_lease-eq l m h = ground arith

  -- What a signer's call has found out, where it returns.
  record IsIssued (request : ActionRequest) (base : GateDecision) (signer : Signer) (ttl : ℕ)
      (lease_id : Option String) (now : Datetime) (previous : Option String) (e : SignedEnvelope)
      : Type 0 where
    lease : ReviewLease
    drafted :
        signed_lease request base signer
          (lease_id_for lease_id request now.instant)
          now.instant
          (now.instant + ttl * 1000000)
        ≡ lease
    checked : check_lease lease ≡ ok lease
    reviewed : is_review base.verdict ≡ true
    ends : now.instant + ttl * 1000000 < end_of_time
    signed :
        sign_payload "review_lease"
          (review_lease_payload lease)
          signer
          (p.isoformat now.instant)
          previous
        ≡ ok e

  issue_signed_review_lease-IsIssued :
      (request : ActionRequest) (base : GateDecision) (signer : Signer) (ttl : ℕ)
      (lease_id : Option String) (now : Datetime) (previous : Option String) (e : SignedEnvelope)
      → issue_signed_review_lease request base signer ttl lease_id now previous ≡ ok e
      → IsIssued request base signer ttl lease_id now previous e
  unfolding issue_signed_review_lease signed_lease_at to_utc add_seconds
  issue_signed_review_lease-IsIssued request base signer ttl lease_id now previous e h =
      let draft =
        signed_lease request base signer (lease_id_for lease_id request now.instant) now.instant
          (now.instant + ttl * 1000000) in
      elim (Result-cases (check_lease draft)) [
        | inr (x, bad) ↦ absurd (ground arith)
        | inl (lease, good) ↦
            let same = check_lease-eq draft lease good in
            record {
              lease = lease;
              drafted = sym same;
              checked = subst (λ (l : ReviewLease). check_lease l ≡ ok lease) (sym same) good;
              reviewed = ground arith;
              ends = ground arith;
              signed = ground (arith, good);
            }
      ]

  -- A signed lease that was issued is redeemed for its request, under the decision that it was issued
  -- for, by every store that trusts the signer's key and subject as a review issuer, at any time from
  -- its issue until its lifetime is over, as long as no row of the ledger has its id or the
  -- envelope's digest.
  pub issue_signed_review_lease-authorizes :
      ⦃q : Sqlite⦄ (request : ActionRequest) (base : GateDecision) (signer : Signer) (ttl : ℕ)
      (lease_id : Option String) (now later : Datetime) (previous : Option String)
      (e : SignedEnvelope) (store : TrustStore) (trusted : TrustedSigner) (rows : List Row)
      → issue_signed_review_lease request base signer ttl lease_id now previous ≡ ok e
      → lookup (key_id signer) store ≡ some trusted
      → trusted.status ≡ "ACTIVE"
      → trusted.subject ≡ signer.subject
      → trusted.public_key_b64 ≡ public_key_b64 signer
      → role_in (some "review_issuer") trusted.roles ≡ true
      → later.aware ≡ true
      → now.instant ≤ later.instant
      → later.instant < now.instant + ttl * 1000000
      → any
          (clashes (
            use_row
              (signed_lease request base signer
                (lease_id_for lease_id request now.instant)
                now.instant
                (now.instant + ttl * 1000000))
              e
              later))
          rows
        ≡ false
      → authorizes (redeem_signed store e request base later rows).0 ≡ true
  unfolding signed_lease
  issue_signed_review_lease-authorizes request base signer ttl lease_id now later previous e store
        trusted rows made known active subject key role aware begun running free =
      let w =
        issue_signed_review_lease-IsIssued request base signer ttl lease_id now previous e made in
      let d = review_lease_payload w.lease in
      let t = now.instant in
      let u = now.instant + ttl * 1000000 in
      let same : d ≡ e.payload =
        sym (payload-sign_payload "review_lease" d signer previous (p.isoformat t) e w.signed) in
      let verified =
        sign_payload-IsVerified "review_lease" d signer previous (p.isoformat t) e store trusted
          (some "review_issuer") w.signed known active subject key role in
      let from_signer =
        signer_id-sign_payload "review_lease" d signer previous (p.isoformat t) e w.signed in
      let draft = signed_lease request base signer (lease_id_for lease_id request t) t u in
      let covered : Covers draft request base later.instant = record {
        issued_time = t;
        expires_time = u;
        issued = parse_time-isoformat t (omega (arith, w.ends));
        expires = parse_time-isoformat u w.ends;
        begun = begun;
        running = running;
        digest = refl;
        capability = refl;
        action = refl;
        resource = refl;
        grants = refl;
      } in
      (redeem_signed_iff store e request base later rows).1 (record {
        aware = aware;
        reviewed = w.reviewed;
        verified =
            (verify_envelope_iff e store (some "review_issuer") (some "review_lease")).0 verified;
        lease = w.lease;
        read =
            subst (λ (f : Fields). review_lease_from_payload f ≡ ok w.lease) same
              (review_lease_from_payload-payload w.lease ∙ w.checked);
        issuer = subst (λ (l : ReviewLease). l.issued_by ≡ e.signer_id) w.drafted (sym from_signer);
        covers = subst (λ (l : ReviewLease). Covers l request base later.instant) w.drafted covered;
        unused =
            subst (λ (l : ReviewLease). any (clashes (use_row l e later)) rows ≡ false) w.drafted
              free;
      })
