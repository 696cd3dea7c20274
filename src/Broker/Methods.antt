-- ===== src/Broker/Methods.antt =====
-- The methods of `ReviewBroker` that issue, cancel and redeem leases.
use autonomy_harbor.Base.{
  ℕ, ◌+◌, String, Bool, true, false, not, ◌&&◌, ◌||◌, Option, none, some, ltb, leb, ◌==◌, ◌<>◌,
  texts_eq, or_else, Result, ok, raised, fail, reject_if, value_error, key_error, lookup, insert,
  contains, get_or, if◌then◌else◌, ◌>>=◌, ◌>>◌,
}
use autonomy_harbor.Platform.{Platform, Datetime, parse_time, to_utc, add_seconds, timestamp_text}
use autonomy_harbor.Models.{ActionRequest, GateDecision, is_review}
use autonomy_harbor.Broker.{
  ReviewLease, ReviewAuthorization, ReviewEventReceipt, ReviewBroker, Method, cancelled, redeemed,
  rejected, request_digest, check_lease, append_event, register,
}

module _ ⦃p : Platform⦄ where
  -- The lease that `issue_for_review` builds, at the time that it has read. `lease_id or f"lease-…"`
  -- takes the generated id where none is given or the given one is empty.
  unfoldable pub lease_for :
      ActionRequest → GateDecision → String → ℕ → Option String → ℕ → Result ReviewLease
  lease_for request base_decision issued_by ttl_seconds lease_id current = do
    expires ← add_seconds current ttl_seconds
    let generated = "lease-" <> request.request_id <> "-" <> timestamp_text current
    check_lease (record {
      lease_id = or_else lease_id generated;
      request_digest = request_digest request;
      capability = request.capability;
      action = request.action;
      resource = request.resource;
      review_grant_ids = base_decision.matched_grant_ids;
      issued_by = issued_by;
      issued_at = p.isoformat current;
      expires_at = p.isoformat expires;
      max_uses = 1;
      issuer_type = "HUMAN";
    })

  -- The lease to register, or what is raised before the broker is touched.
  unfoldable pub new_lease :
      ActionRequest → GateDecision → String → ℕ → Option String → Datetime → Result ReviewLease
  new_lease request base_decision issued_by ttl_seconds lease_id now = do
    reject_if (not (is_review base_decision.verdict)) "lease_can_only_be_issued_for_review"
    reject_if (ltb ttl_seconds 1 || ltb 3600 ttl_seconds) "ttl_seconds_must_be_between_1_and_3600"
    current ← to_utc now
    lease_for request base_decision issued_by ttl_seconds lease_id current

  unfoldable pub enter : Result ReviewLease → Method ReviewLease
  enter (raised e) b = (raised e, b)
  enter (ok lease) b = let (r, b') = register lease b in (r >>= λ _. ok lease, b')

  unfoldable pub issue_for_review :
      ActionRequest → GateDecision → String → ℕ → Option String → Datetime → Method ReviewLease
  issue_for_review request base_decision issued_by ttl_seconds lease_id now =
      enter (new_lease request base_decision issued_by ttl_seconds lease_id now)

  unfoldable pub log_cancellation :
      Result ℕ → ReviewLease → String → String → Method ReviewEventReceipt
  log_cancellation (raised e) lease cancelled_by reason b = (raised e, b)
  log_cancellation (ok current) lease cancelled_by reason b =
      let (receipt, b') =
        append_event cancelled lease none reason cancelled_by (p.isoformat current) b in
      (ok receipt, b')

  -- The reason is kept before the time is read: with a naive `now` the lease is cancelled, and the
  -- call raises with no event logged.
  unfoldable pub cancel_found :
      Option ReviewLease → String → String → String → Datetime → Method ReviewEventReceipt
  cancel_found none lease_id cancelled_by reason now b = (fail key_error "lease_not_found", b)
  cancel_found (some lease) lease_id cancelled_by reason now b =
      if contains lease_id b.cancellations
      then (fail value_error "lease_already_cancelled", b)
      else log_cancellation (to_utc now) lease cancelled_by reason
          (record b { cancellations = insert lease_id reason b.cancellations })

  unfoldable pub cancel : String → String → String → Datetime → Method ReviewEventReceipt
  cancel lease_id cancelled_by reason now b =
      cancel_found (lookup lease_id b.leases) lease_id cancelled_by reason now b

  unfoldable pub same_scope : ReviewLease → ActionRequest → Bool
  same_scope lease request =
      request.capability == lease.capability
      && request.action == lease.action
      && request.resource == lease.resource

  -- The checks on a lease that do not depend on the broker: the reason to reject, if any.
  unfoldable pub lease_refusal :
      ReviewLease → ActionRequest → GateDecision → ℕ → Result (Option String)
  lease_refusal lease request base_decision current = do
    issued_time ← parse_time lease.issued_at
    if ltb current issued_time then ok (some "lease_not_yet_valid") else do
      expires_time ← parse_time lease.expires_at
      ok (
          if leb expires_time current
          then some "lease_expired"
          else if not (request_digest request == lease.request_digest)
          then some "request_digest_mismatch"
          else if not (same_scope lease request)
          then some "lease_scope_mismatch"
          else if not (texts_eq base_decision.matched_grant_ids lease.review_grant_ids)
          then some "review_policy_changed"
          else none)

  unfoldable pub refusal :
      String
      → ReviewLease
      → ActionRequest
      → GateDecision
      → ℕ
      → ReviewBroker
      → Result (Option String)
  refusal lease_id lease request base_decision current b =
      if not (is_review base_decision.verdict)
      then ok (some "base_gate_is_not_review")
      else if contains lease_id b.cancellations
      then ok (some "lease_cancelled")
      else if leb lease.max_uses (get_or 0 lease_id b.uses)
      then ok (some "lease_already_used")
      else lease_refusal lease request base_decision current

  unfoldable pub reject : ReviewLease → ActionRequest → String → ℕ → Method ReviewAuthorization
  reject lease request reason current b = (
    ok (record { authorized = false; reason = reason; lease_id = some lease.lease_id }),
    (append_event rejected lease (some request.request_id) reason request.actor
        (p.isoformat current) b).1,
  )

  -- The lease is used up before anything is executed.
  unfoldable pub consume : String → ReviewLease → ActionRequest → ℕ → Method ReviewAuthorization
  consume lease_id lease request current b = (
    ok (record {
      authorized = true;
      reason = "human_review_lease_redeemed";
      lease_id = some lease_id;
    }),
    (append_event redeemed lease (some request.request_id) "one_shot_review_lease_redeemed"
        lease.issued_by (p.isoformat current)
        (record b { uses = insert lease_id (get_or 0 lease_id b.uses + 1) b.uses })).1,
  )

  unfoldable pub settle :
      Result (Option String) → String → ReviewLease → ActionRequest → ℕ → Method ReviewAuthorization
  settle (raised e) lease_id lease request current b = (raised e, b)
  settle (ok (some reason)) lease_id lease request current b = reject lease request reason current b
  settle (ok none) lease_id lease request current b = consume lease_id lease request current b

  unfoldable pub redeem_found :
      Option ReviewLease → String → ActionRequest → GateDecision → ℕ → Method ReviewAuthorization
  redeem_found none lease_id request base_decision current b =
      (ok (record { authorized = false; reason = "lease_not_found"; lease_id = some lease_id }), b)
  redeem_found (some lease) lease_id request base_decision current b =
      settle (refusal lease_id lease request base_decision current b) lease_id lease request current
        b

  unfoldable pub redeem_at :
      Result ℕ → String → ActionRequest → GateDecision → Method ReviewAuthorization
  redeem_at (raised e) lease_id request base_decision b = (raised e, b)
  redeem_at (ok current) lease_id request base_decision b =
      redeem_found (lookup lease_id b.leases) lease_id request base_decision current b

  unfoldable pub redeem :
      String → ActionRequest → GateDecision → Datetime → Method ReviewAuthorization
  redeem lease_id request base_decision now = redeem_at (to_utc now) lease_id request base_decision
