-- ===== src/Broker/Valid.antt =====
-- The invariant of the leases and of the log, kept by every method.
use autonomy_harbor.Base.{
  ℕ, ◌+◌, ◌≤◌, ◌≡◌, refl, String, Bool, true, false, Option, none, some, List, [], ◌∷◌, ◌++◌, ◌∙◌,
  Bool-cases, inl, inr, arith, ◌==◌, ◌∙◌, Bool-cases, inl, inr, eq_iff, Result, ok, raised, lookup,
  insert, lookup-insert, lookup-nil, ap, get_or, contains, if◌then◌else◌,
}
use autonomy_harbor.Platform.{Platform, Datetime, to_utc}
use autonomy_harbor.Models.{ActionRequest, GateDecision}
use autonomy_harbor.Broker.{
  ReviewLease, ReviewEventReceipt, ReviewBroker, Event, issued, cancelled, redeemed, rejected,
  empty_broker, check_lease, append_event, register,
}
use autonomy_harbor.Broker.Methods.{
  lease_for, issue_for_review, cancel, refusal, reject, consume, settle, redeem_found, redeem_at,
  redeem, new_lease, enter, log_cancellation, cancel_found,
}
use autonomy_harbor.Broker.Run.{
  Call, register_lease, issue, cancel_lease, redeem_lease, perform, run,
}

abbrev pub is_redeemed : Event → Bool
is_redeemed redeemed = true
is_redeemed _ = false

-- how often the log says that a lease was redeemed
abbrev pub redemptions : String → List ReviewEventReceipt → ℕ
redemptions k [] = 0
redemptions k (e ∷ es) =
    (if is_redeemed e.event then (if e.lease_id == k then 1 else 0) else 0) + redemptions k es

pub redemptions-append :
    (k : String) (es fs : List ReviewEventReceipt)
    → redemptions k (es ++ fs) ≡ redemptions k es + redemptions k fs
redemptions-append k [] fs = omega arith
redemptions-append k (e ∷ es) fs = omega (arith, redemptions-append k es fs)

-- Every lease stands at its own id and is for one use; the counter of uses is what the log says,
-- at most one, and nought for an id with no lease.
pub record IsValid (b : ReviewBroker) : Type 0 where
  pub keyed : (k : String) (l : ReviewLease) → lookup k b.leases ≡ some l → l.lease_id ≡ k
  pub one_shot : (k : String) (l : ReviewLease) → lookup k b.leases ≡ some l → l.max_uses ≡ 1
  pub counted : (k : String) → redemptions k b.events ≡ get_or 0 k b.uses
  pub bounded : (k : String) → get_or 0 k b.uses ≤ 1
  pub unknown : (k : String) → lookup k b.leases ≡ none → get_or 0 k b.uses ≡ 0

redemptions-snoc :
    (k : String) (es : List ReviewEventReceipt) (e : ReviewEventReceipt)
    → redemptions k (es ++ e ∷ [])
      ≡ redemptions k es + (if is_redeemed e.event then (if e.lease_id == k then 1 else 0) else 0)
redemptions-snoc k es e = omega (arith, redemptions-append k es (e ∷ []))

redemptions-snoc_quiet :
    (k : String) (es : List ReviewEventReceipt) (e : ReviewEventReceipt)
    → is_redeemed e.event ≡ false
    → redemptions k (es ++ e ∷ []) ≡ redemptions k es
redemptions-snoc_quiet k es e quiet = ground (arith, redemptions-append k es (e ∷ []))

-- what `register` does to the tables for an id that is free
abbrev pub entered : ReviewLease → ReviewBroker → ReviewBroker
entered lease b = record b {
  leases = insert lease.lease_id lease b.leases;
  uses = insert lease.lease_id 0 b.uses;
}

entered-IsValid :
    (lease : ReviewLease) (b : ReviewBroker)
    → lease.max_uses ≡ 1
    → contains lease.lease_id b.leases ≡ false
    → IsValid b
    → IsValid (entered lease b)
entered-IsValid lease b one free v =
    let leases_at = λ (k : String). lookup-insert lease.lease_id k lease b.leases in
    let uses_at = λ (k : String). lookup-insert {V = ℕ} lease.lease_id k 0 b.uses in
    record {
      keyed = λ k l h. ground (arith, leases_at k, eq_iff lease.lease_id k, v.keyed k l);
      one_shot = λ k l h. ground (arith, leases_at k, v.one_shot k l);
      counted = λ k. ground (arith, uses_at k, eq_iff lease.lease_id k, v.counted k, v.unknown k);
      bounded = λ k. ground (arith, uses_at k, v.bounded k);
      unknown = λ k h. ground (arith, uses_at k, leases_at k, v.unknown k);
    }

module _ ⦃p : Platform⦄ where
  check_lease-eq :
      (lease built : ReviewLease)
      → check_lease lease ≡ ok built
      → (built ≡ lease) × (lease.max_uses ≡ 1)
  unfolding check_lease
  check_lease-eq lease built h = ground arith

  append-IsValid :
      (event : Event) (lease : ReviewLease) (request_id : Option String)
      (reason actor created_at : String) (b : ReviewBroker)
      → is_redeemed event ≡ false
      → IsValid b
      → IsValid (append_event event lease request_id reason actor created_at b).1
  unfolding append_event
  append-IsValid event lease request_id reason actor created_at b quiet v = record {
    keyed = v.keyed;
    one_shot = v.one_shot;
    counted = λ k. redemptions-snoc_quiet k b.events _ quiet ∙ v.counted k;
    bounded = v.bounded;
    unknown = v.unknown;
  }

  register-IsValid :
      (lease : ReviewLease) (b : ReviewBroker)
      → lease.max_uses ≡ 1
      → IsValid b
      → IsValid (register lease b).1
  unfolding register
  register-IsValid lease b one v = elim (Bool-cases (contains lease.lease_id b.leases)) [
    | inl taken ↦ rw taken v
    | inr free ↦ rw free (
        append-IsValid issued lease none "human_review_lease_registered" lease.issued_by
          lease.issued_at (entered lease b) refl (entered-IsValid lease b one free v))
  ]

  consume-IsValid :
      (lease_id : String) (lease : ReviewLease) (request : ActionRequest) (current : ℕ)
      (b : ReviewBroker)
      → lookup lease_id b.leases ≡ some lease
      → get_or 0 lease_id b.uses ≡ 0
      → IsValid b
      → IsValid (consume lease_id lease request current b).1
  unfolding consume append_event
  consume-IsValid lease_id lease request current b known unused v =
      let uses_at =
        λ (k : String). lookup-insert lease_id k (get_or 0 lease_id b.uses + 1) b.uses in
      let key = v.keyed lease_id lease known in
      record {
        keyed = v.keyed;
        one_shot = v.one_shot;
        counted = λ k.
            redemptions-snoc k b.events _
            ∙ ground
                (arith, uses_at k, key, eq_iff lease_id k, eq_iff lease.lease_id k, v.counted k);
        bounded = λ k. ground (arith, uses_at k, v.bounded k);
        unknown = λ k h. ground (arith, uses_at k, eq_iff lease_id k, v.unknown k);
      }

  -- a lease that is not refused has not been used
  refusal_unused :
      (lease_id : String) (lease : ReviewLease) (request : ActionRequest) (base : GateDecision)
      (current : ℕ) (b : ReviewBroker)
      → lease.max_uses ≡ 1
      → refusal lease_id lease request base current b ≡ ok none
      → get_or 0 lease_id b.uses ≡ 0
  unfolding refusal
  refusal_unused lease_id lease request base current b one h = ground arith

  settle-IsValid :
      (r : Result (Option String)) (lease_id : String) (lease : ReviewLease)
      (request : ActionRequest) (current : ℕ) (b : ReviewBroker)
      → lookup lease_id b.leases ≡ some lease
      → (r ≡ ok none → get_or 0 lease_id b.uses ≡ 0)
      → IsValid b
      → IsValid (settle r lease_id lease request current b).1
  unfolding settle reject
  settle-IsValid (raised e) lease_id lease request current b known unused v = v
  settle-IsValid (ok (some reason)) lease_id lease request current b known unused v =
      append-IsValid rejected lease (some request.request_id) reason request.actor
        (p.isoformat current) b refl v
  settle-IsValid (ok none) lease_id lease request current b known unused v =
      consume-IsValid lease_id lease request current b known (unused refl) v

  redeem-IsValid :
      (lease_id : String) (request : ActionRequest) (base : GateDecision) (now : Datetime)
      (b : ReviewBroker)
      → IsValid b
      → IsValid (redeem lease_id request base now b).1
  unfolding redeem
  redeem-IsValid lease_id request base now b v = at (to_utc now)
    where
      found :
          (l : Option ReviewLease) (current : ℕ)
          → lookup lease_id b.leases ≡ l
          → IsValid (redeem_found l lease_id request base current b).1
      found none current e = unfold redeem_found in v
      found (some lease) current e =
          unfold redeem_found in
          settle-IsValid (refusal lease_id lease request base current b) lease_id lease request
            current b e
            (refusal_unused lease_id lease request base current b (v.one_shot lease_id lease e)) v

      at : (t : Result ℕ) → IsValid (redeem_at t lease_id request base b).1
      at (raised e) = unfold redeem_at in v
      at (ok current) = unfold redeem_at in found (lookup lease_id b.leases) current refl

  log_cancellation-IsValid :
      (t : Result ℕ) (lease : ReviewLease) (cancelled_by reason : String) (b : ReviewBroker)
      → IsValid b
      → IsValid (log_cancellation t lease cancelled_by reason b).1
  unfolding log_cancellation
  log_cancellation-IsValid (raised e) lease cancelled_by reason b v = v
  log_cancellation-IsValid (ok current) lease cancelled_by reason b v =
      append-IsValid cancelled lease none reason cancelled_by (p.isoformat current) b refl v

  cancel_found-IsValid :
      (l : Option ReviewLease) (lease_id cancelled_by reason : String) (now : Datetime)
      (b : ReviewBroker)
      → IsValid b
      → IsValid (cancel_found l lease_id cancelled_by reason now b).1
  unfolding cancel_found
  cancel_found-IsValid none lease_id cancelled_by reason now b v = v
  cancel_found-IsValid (some lease) lease_id cancelled_by reason now b v =
      elim (Bool-cases (contains lease_id b.cancellations)) [
        | inl again ↦ rw again v
        | inr fresh ↦
            let marked = record b { cancellations = insert lease_id reason b.cancellations } in
            rw fresh (
              log_cancellation-IsValid (to_utc now) lease cancelled_by reason marked (record {
                keyed = v.keyed;
                one_shot = v.one_shot;
                counted = v.counted;
                bounded = v.bounded;
                unknown = v.unknown;
              }))
      ]

  new_lease-one_shot :
      (request : ActionRequest) (base : GateDecision) (issued_by : String) (ttl : ℕ)
      (lease_id : Option String) (now : Datetime) (lease : ReviewLease)
      → new_lease request base issued_by ttl lease_id now ≡ ok lease
      → lease.max_uses ≡ 1
  unfolding new_lease lease_for check_lease
  new_lease-one_shot request base issued_by ttl lease_id now lease h = ground arith

  enter-IsValid :
      (r : Result ReviewLease) (b : ReviewBroker)
      → ((lease : ReviewLease) → r ≡ ok lease → lease.max_uses ≡ 1)
      → IsValid b
      → IsValid (enter r b).1
  unfolding enter
  enter-IsValid (raised e) b one v = v
  enter-IsValid (ok lease) b one v = register-IsValid lease b (one lease refl) v

  pub perform-IsValid : (c : Call) (b : ReviewBroker) → IsValid b → IsValid (perform c b)
  unfolding perform
  perform-IsValid (register_lease lease) b v = built (check_lease lease) refl
    where
      built :
          (r : Result ReviewLease)
          → check_lease lease ≡ r
          → IsValid (elim r [ raised e ↦ b | ok l ↦ (register l b).1 ])
      built (raised e) h = v
      built (ok l) h =
          register-IsValid l b
            (ap (λ (x : ReviewLease). x.max_uses) (check_lease-eq lease l h).0
              ∙ (check_lease-eq lease l h).1)
            v
  perform-IsValid (issue request base issued_by ttl lease_id now) b v =
      unfold issue_for_review in
      enter-IsValid (new_lease request base issued_by ttl lease_id now) b
        (new_lease-one_shot request base issued_by ttl lease_id now) v
  perform-IsValid (cancel_lease lease_id cancelled_by reason now) b v =
      unfold cancel in
      cancel_found-IsValid (lookup lease_id b.leases) lease_id cancelled_by reason now b v
  perform-IsValid (redeem_lease lease_id request base now) b v =
      redeem-IsValid lease_id request base now b v

  -- Every sequence of calls keeps the invariant: each lease stands at its own id and is for one use;
  -- the counter of uses of an id is what the log says, at most one, and nought where the id has no
  -- lease.
  pub run-IsValid : (cs : List Call) (b : ReviewBroker) → IsValid b → IsValid (run cs b)
  unfolding run
  run-IsValid [] b v = v
  run-IsValid (c ∷ cs) b v = run-IsValid cs (perform c b) (perform-IsValid c b v)

  pub empty_broker-IsValid : IsValid empty_broker
  empty_broker-IsValid = record {
    keyed = λ k l h. ground (arith, lookup-nil {V = ReviewLease} k);
    one_shot = λ k l h. ground (arith, lookup-nil {V = ReviewLease} k);
    counted = λ k. ground (arith, lookup-nil {V = ℕ} k);
    bounded = λ k. ground (arith, lookup-nil {V = ℕ} k);
    unknown = λ k h. ground (arith, lookup-nil {V = ℕ} k);
  }

  -- Whatever is called on a new broker, its log shows at most one redemption of each lease.
  pub redemptions-run :
      (cs : List Call) (k : String) → redemptions k (run cs empty_broker).events ≤ 1
  redemptions-run cs k =
      let v = run-IsValid cs empty_broker empty_broker-IsValid in
      omega (arith, v.counted k, v.bounded k)
