-- ===== src/Authorizer/Facts.antt =====
-- What a signed lease says, and exactly when it authorizes.
use autonomy_harbor.Base.{
  ◌≡◌, ◌↔◌, refl, ap, String, true, false, some, List, [], ◌∷◌, any, arith, eq_iff, ok, is_blank,
  Result-cases, inl, inr,
}
use autonomy_harbor.Json.{strs, has_exactly, get}
use autonomy_harbor.Platform.{Platform, Datetime, to_utc, text_of}
use autonomy_harbor.Models.{ActionRequest, GateDecision, is_review}
use autonomy_harbor.Broker.{ReviewLease, check_lease}
use autonomy_harbor.Broker.Redeem.{authorizes, Covers, lease_refusal-none, lease_refusal_of_Covers}
use autonomy_harbor.Signer.{TrustStore}
use autonomy_harbor.Envelope.{SignedEnvelope}
use autonomy_harbor.Envelope.Verify.{verify_envelope}
use autonomy_harbor.Envelope.Verified.{IsVerified, verify_envelope_iff}
use autonomy_harbor.Ledger.{Row, Sqlite, clashes, consume_lease}
use autonomy_harbor.Ledger.OneShot.{consume-cases}
use autonomy_harbor.Authorizer.{
  texts_of, each_text, int_of_json, review_lease_payload, review_lease_from_payload, answer_use,
  use_lease, redeem_lease, redeem_signed_at, redeem_signed,
}

module _ ⦃p : Platform⦄ where
  pub texts_of-strs : (ts : List String) → texts_of (strs ts) ≡ ts
  unfolding texts_of text_of
  texts_of-strs [] = refl
  texts_of-strs (t ∷ ts) = ap (λ us. t ∷ us) (texts_of-strs ts)

  -- Reading a lease back from its payload gives what the lease's own checks give: the lease itself,
  -- or what they raise.
  pub review_lease_from_payload-payload :
      (lease : ReviewLease)
      → review_lease_from_payload (review_lease_payload lease) ≡ check_lease lease
  unfolding review_lease_from_payload review_lease_payload each_text int_of_json text_of has_exactly
      check_lease get is_blank
  review_lease_from_payload-payload lease = rw (texts_of-strs lease.review_grant_ids) refl

  -- the row that the use of a lease adds
  abbrev pub use_row : ReviewLease → SignedEnvelope → Datetime → Row
  use_row lease envelope now = record {
    id = lease.lease_id;
    envelope_hash = envelope.envelope_hash;
    consumed_at = p.isoformat now.instant;
  }

  module _ ⦃q : Sqlite⦄ (store : TrustStore) (envelope : SignedEnvelope) (request : ActionRequest)
      (base : GateDecision) (now : Datetime) (rows : List Row) where
    pub record IsAuthorized : Type 0 where
      pub aware : now.aware ≡ true
      pub reviewed : is_review base.verdict ≡ true
      pub verified : IsVerified envelope store (some "review_issuer") (some "review_lease")
      pub lease : ReviewLease
      pub read : review_lease_from_payload envelope.payload ≡ ok lease
      pub issuer : lease.issued_by ≡ envelope.signer_id
      pub covers : Covers lease request base now.instant
      pub unused : any (clashes (use_row lease envelope now)) rows ≡ false

    authorized_of_authorizes :
        authorizes (redeem_signed store envelope request base now rows).0 ≡ true → IsAuthorized
    unfolding redeem_signed redeem_signed_at redeem_lease use_lease answer_use to_utc consume_lease
    authorized_of_authorizes h = elim (Result-cases (review_lease_from_payload envelope.payload)) [
      | inr (e, bad) ↦ absurd (ground arith)
      | inl (lease, read) ↦ elim (consume-cases (use_row lease envelope now) rows) [
        | inr (taken, e) ↦ absurd (ground (arith, e))
        | inl (free, e) ↦ record {
          aware = ground arith;
          reviewed = ground arith;
          verified =
              (verify_envelope_iff envelope store (some "review_issuer") (some "review_lease")).0
                (ground arith);
          lease = lease;
          read = read;
          issuer = ground (arith, eq_iff lease.issued_by envelope.signer_id);
          covers = lease_refusal-none lease request base now.instant (ground arith);
          unused = free;
        }
      ]
    ]

    authorizes_of_authorized :
        IsAuthorized → authorizes (redeem_signed store envelope request base now rows).0 ≡ true
    unfolding redeem_signed redeem_signed_at redeem_lease use_lease answer_use to_utc consume_lease
    authorizes_of_authorized a = elim (consume-cases (use_row a.lease envelope now) rows) [
      | inr (taken, e) ↦ absurd (ground (arith, a.unused))
      | inl (free, e) ↦
          let verified : (verify_envelope envelope store (some "review_issuer")
                (some "review_lease")).ok
              ≡ true =
            (verify_envelope_iff envelope store (some "review_issuer") (some "review_lease")).1
              a.verified in
          let covered = lease_refusal_of_Covers a.lease request base now.instant a.covers in
          ground (
            arith,
            e,
            verified,
            covered,
            a.read,
            a.issuer,
            eq_iff a.lease.issued_by envelope.signer_id,
          )
    ]

    -- A signed lease authorizes exactly when the time is aware, the gate asks for a review, the
    -- envelope is verified for a review issuer and a review lease, its payload is a valid lease that
    -- its signer issued, the lease covers the request under the decision at the time, and no row of
    -- the ledger has its id or the envelope's digest.
    pub redeem_signed_iff :
        (authorizes (redeem_signed store envelope request base now rows).0 ≡ true) ↔ IsAuthorized
    redeem_signed_iff = (authorized_of_authorizes, authorizes_of_authorized)
