-- ===== src/Broker/Redeem.antt =====
-- Exactly when a lease is redeemed.
use autonomy_harbor.Base.{
  ℕ, ◌≤◌, ◌<◌, ◌≡◌, ◌↔◌, String, Bool, true, false, none, some, arith, eq_iff, Result, ok, raised,
  lookup, get_or, contains, eq_of_texts_eq, texts_eq_refl, Result-cases, Option-cases, inl, inr,
}
use autonomy_harbor.Platform.{Platform, Datetime, parse_time, to_utc}
use autonomy_harbor.Models.{ActionRequest, GateDecision, is_review}
use autonomy_harbor.Broker.{ReviewLease, ReviewAuthorization, ReviewBroker, request_digest}
use autonomy_harbor.Broker.Methods.{
  same_scope, lease_refusal, refusal, reject, consume, settle, redeem_found, redeem_at, redeem,
}

abbrev pub authorizes : Result ReviewAuthorization → Bool
authorizes (ok a) = a.authorized
authorizes (raised e) = false

module _ ⦃p : Platform⦄ where
  -- The lease covers this request at this time, under the decision that it was issued for.
  pub record Covers (lease : ReviewLease) (request : ActionRequest) (base : GateDecision)
      (current : ℕ) : Type 0 where
    pub issued_time : ℕ
    pub expires_time : ℕ
    pub issued : parse_time lease.issued_at ≡ ok issued_time
    pub expires : parse_time lease.expires_at ≡ ok expires_time
    pub begun : issued_time ≤ current
    pub running : current < expires_time
    pub digest : request_digest request ≡ lease.request_digest
    pub capability : request.capability ≡ lease.capability
    pub action : request.action ≡ lease.action
    pub resource : request.resource ≡ lease.resource
    pub grants : base.matched_grant_ids ≡ lease.review_grant_ids

  pub record IsRedeemable (lease_id : String) (request : ActionRequest) (base : GateDecision)
      (now : Datetime) (b : ReviewBroker) : Type 0 where
    pub aware : now.aware ≡ true
    pub lease : ReviewLease
    pub known : lookup lease_id b.leases ≡ some lease
    pub reviewed : is_review base.verdict ≡ true
    pub active : contains lease_id b.cancellations ≡ false
    pub unused : get_or 0 lease_id b.uses < lease.max_uses
    pub covers : Covers lease request base now.instant

  pub lease_refusal-none :
      (lease : ReviewLease) (request : ActionRequest) (base : GateDecision) (current : ℕ)
      → lease_refusal lease request base current ≡ ok none
      → Covers lease request base current
  unfolding lease_refusal same_scope
  lease_refusal-none lease request base current h =
      elim (Result-cases (parse_time lease.issued_at)) [
        | inr (e, bad) ↦ absurd (ground arith)
        | inl (issued_time, good) ↦ elim (Result-cases (parse_time lease.expires_at)) [
          | inr (e, bad) ↦ absurd (ground arith)
          | inl (expires_time, fine) ↦ record {
            issued_time = issued_time;
            expires_time = expires_time;
            issued = good;
            expires = fine;
            begun = ground arith;
            running = ground arith;
            digest = ground (arith, eq_iff (request_digest request) lease.request_digest);
            capability = ground (arith, eq_iff request.capability lease.capability);
            action = ground (arith, eq_iff request.action lease.action);
            resource = ground (arith, eq_iff request.resource lease.resource);
            grants = ground (arith, eq_of_texts_eq base.matched_grant_ids lease.review_grant_ids);
          }
        ]
      ]

  pub lease_refusal_of_Covers :
      (lease : ReviewLease) (request : ActionRequest) (base : GateDecision) (current : ℕ)
      → Covers lease request base current
      → lease_refusal lease request base current ≡ ok none
  unfolding lease_refusal same_scope
  lease_refusal_of_Covers lease request base current c = ground (
    arith,
    c.issued,
    c.expires,
    eq_iff (request_digest request) lease.request_digest,
    eq_iff request.capability lease.capability,
    eq_iff request.action lease.action,
    eq_iff request.resource lease.resource,
    texts_eq_refl lease.review_grant_ids,
  )

  module _ (lease_id : String) (request : ActionRequest) (base : GateDecision) (now : Datetime)
      (b : ReviewBroker) where
    IsRedeemable-of_authorizes :
        authorizes (redeem lease_id request base now b).0 ≡ true
        → IsRedeemable lease_id request base now b
    unfolding redeem redeem_at redeem_found refusal settle reject to_utc
    IsRedeemable-of_authorizes h = elim (Option-cases (lookup lease_id b.leases)) [
      | inl missing ↦ absurd (ground arith)
      | inr (lease, known) ↦ record {
        aware = ground arith;
        lease = lease;
        known = known;
        reviewed = ground arith;
        active = ground arith;
        unused = ground arith;
        covers = lease_refusal-none lease request base now.instant (ground arith);
      }
    ]

    authorizes_of_redeemable :
        IsRedeemable lease_id request base now b
        → authorizes (redeem lease_id request base now b).0 ≡ true
    unfolding redeem redeem_at redeem_found refusal settle consume to_utc
    authorizes_of_redeemable r =
        ground (arith, r.known, lease_refusal_of_Covers r.lease request base now.instant r.covers)

    -- A lease is redeemed exactly when it is known, not cancelled and not used up, the gate asks for
    -- a review, the time lies in the lease's span, and the request and the grants are those that the
    -- lease was issued for.
    pub redeem_iff :
        (authorizes (redeem lease_id request base now b).0 ≡ true)
        ↔ IsRedeemable lease_id request base now b
    redeem_iff = (IsRedeemable-of_authorizes, authorizes_of_redeemable)
