-- ===== src/Broker/Induction.antt =====
-- A property of brokers that the five elementary changes keep is kept by every call.
use autonomy_harbor.Base.{
  ℕ, ◌+◌, ◌≡◌, String, false, Option, none, some, List, [], ◌∷◌, Result, ok, raised, lookup, insert,
  contains, get_or, Bool-cases, inl, inr,
}
use autonomy_harbor.Platform.{Platform, Datetime, to_utc}
use autonomy_harbor.Models.{ActionRequest, GateDecision}
use autonomy_harbor.Broker.{
  ReviewLease, ReviewBroker, Event, cancelled, rejected, redeemed, issued, check_lease,
  append_event, register,
}
use autonomy_harbor.Broker.Methods.{
  issue_for_review, new_lease, enter, cancel, log_cancellation, cancel_found, refusal, reject,
  consume, settle, redeem_found, redeem_at, redeem,
}
use autonomy_harbor.Broker.Run.{
  Call, register_lease, issue, cancel_lease, redeem_lease, perform, run,
}
use autonomy_harbor.Broker.Valid.{entered}

-- what `cancel` and `redeem` write into the tables
abbrev pub marked : String → String → ReviewBroker → ReviewBroker
marked lease_id reason b = record b { cancellations = insert lease_id reason b.cancellations }

abbrev pub used : String → ReviewBroker → ReviewBroker
used lease_id b = record b { uses = insert lease_id (get_or 0 lease_id b.uses + 1) b.uses }

module _ ⦃p : Platform⦄ where
  pub record IsKept (P : ReviewBroker → Type 0) : Type 0 where
    pub on_append :
        (event : Event) (lease : ReviewLease) (request_id : Option String)
        (reason actor created_at : String) (b : ReviewBroker)
        → P b
        → P (append_event event lease request_id reason actor created_at b).1
    pub on_enter :
        (lease : ReviewLease) (b : ReviewBroker)
        → contains lease.lease_id b.leases ≡ false
        → P b
        → P (entered lease b)
    pub on_mark : (lease_id reason : String) (b : ReviewBroker) → P b → P (marked lease_id reason b)
    pub on_use : (lease_id : String) (b : ReviewBroker) → P b → P (used lease_id b)

  module _ {P : ReviewBroker → Type 0} (kept : IsKept P) where
    register-kept : (lease : ReviewLease) (b : ReviewBroker) → P b → P (register lease b).1
    unfolding register
    register-kept lease b h = elim (Bool-cases (contains lease.lease_id b.leases)) [
      | inl taken ↦ rw taken h
      | inr free ↦ rw free (
          kept.on_append issued lease none "human_review_lease_registered" lease.issued_by
            lease.issued_at (entered lease b) (kept.on_enter lease b free h))
    ]

    enter-kept : (r : Result ReviewLease) (b : ReviewBroker) → P b → P (enter r b).1
    unfolding enter
    enter-kept (raised e) b h = h
    enter-kept (ok lease) b h = register-kept lease b h

    log_cancellation-kept :
        (t : Result ℕ) (lease : ReviewLease) (cancelled_by reason : String) (b : ReviewBroker)
        → P b
        → P (log_cancellation t lease cancelled_by reason b).1
    unfolding log_cancellation
    log_cancellation-kept (raised e) lease cancelled_by reason b h = h
    log_cancellation-kept (ok current) lease cancelled_by reason b h =
        kept.on_append cancelled lease none reason cancelled_by (p.isoformat current) b h

    cancel_found-kept :
        (l : Option ReviewLease) (lease_id cancelled_by reason : String) (now : Datetime)
        (b : ReviewBroker)
        → P b
        → P (cancel_found l lease_id cancelled_by reason now b).1
    unfolding cancel_found
    cancel_found-kept none lease_id cancelled_by reason now b h = h
    cancel_found-kept (some lease) lease_id cancelled_by reason now b h =
        elim (Bool-cases (contains lease_id b.cancellations)) [
          | inl again ↦ rw again h
          | inr fresh ↦ rw fresh (
              log_cancellation-kept (to_utc now) lease cancelled_by reason
                (marked lease_id reason b) (kept.on_mark lease_id reason b h))
        ]

    settle-kept :
        (r : Result (Option String)) (lease_id : String) (lease : ReviewLease)
        (request : ActionRequest) (current : ℕ) (b : ReviewBroker)
        → P b
        → P (settle r lease_id lease request current b).1
    unfolding settle reject consume
    settle-kept (raised e) lease_id lease request current b h = h
    settle-kept (ok (some reason)) lease_id lease request current b h =
        kept.on_append rejected lease (some request.request_id) reason request.actor
          (p.isoformat current) b h
    settle-kept (ok none) lease_id lease request current b h =
        kept.on_append redeemed lease (some request.request_id) "one_shot_review_lease_redeemed"
          lease.issued_by (p.isoformat current) (used lease_id b) (kept.on_use lease_id b h)

    redeem_found-kept :
        (l : Option ReviewLease) (lease_id : String) (request : ActionRequest) (base : GateDecision)
        (current : ℕ) (b : ReviewBroker)
        → P b
        → P (redeem_found l lease_id request base current b).1
    unfolding redeem_found
    redeem_found-kept none lease_id request base current b h = h
    redeem_found-kept (some lease) lease_id request base current b h =
        settle-kept (refusal lease_id lease request base current b) lease_id lease request current b
          h

    redeem_at-kept :
        (t : Result ℕ) (lease_id : String) (request : ActionRequest) (base : GateDecision)
        (b : ReviewBroker)
        → P b
        → P (redeem_at t lease_id request base b).1
    unfolding redeem_at
    redeem_at-kept (raised e) lease_id request base b h = h
    redeem_at-kept (ok current) lease_id request base b h =
        redeem_found-kept (lookup lease_id b.leases) lease_id request base current b h

    perform-kept : (c : Call) (b : ReviewBroker) → P b → P (perform c b)
    unfolding perform issue_for_review cancel redeem
    perform-kept (register_lease lease) b h = built (check_lease lease)
      where
        built : (r : Result ReviewLease) → P (elim r [ raised e ↦ b | ok l ↦ (register l b).1 ])
        built (raised e) = h
        built (ok l) = register-kept l b h
    perform-kept (issue request base issued_by ttl lease_id now) b h =
        enter-kept (new_lease request base issued_by ttl lease_id now) b h
    perform-kept (cancel_lease lease_id cancelled_by reason now) b h =
        cancel_found-kept (lookup lease_id b.leases) lease_id cancelled_by reason now b h
    perform-kept (redeem_lease lease_id request base now) b h =
        redeem_at-kept (to_utc now) lease_id request base b h

    pub run-kept : (cs : List Call) (b : ReviewBroker) → P b → P (run cs b)
    unfolding run
    run-kept [] b h = h
    run-kept (c ∷ cs) b h = run-kept cs (perform c b) (perform-kept c b h)
