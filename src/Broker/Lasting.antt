-- ===== src/Broker/Lasting.antt =====
-- A lease that was redeemed or cancelled is not redeemed again.
use autonomy_harbor.Base.{
  ◌+◌, ◌≤◌, ◌≡◌, refl, String, Bool, true, false, List, arith, eq_iff, lookup-insert, contains,
  get_or,
}
use native.Mathlib.Nat.{le_trans}
use autonomy_harbor.Platform.{Platform, Datetime, to_utc}
use autonomy_harbor.Models.{ActionRequest, GateDecision}
use autonomy_harbor.Broker.{ReviewEventReceipt, ReviewBroker, empty_broker, append_event}
use autonomy_harbor.Broker.Methods.{
  cancel, cancel_found, log_cancellation, redeem, redeem_at, redeem_found, settle, consume, reject,
}
use autonomy_harbor.Broker.Run.{Call, redeem_lease, perform, run}
use autonomy_harbor.Broker.Valid.{
  IsValid, redemptions, redemptions-append, run-IsValid, perform-IsValid, empty_broker-IsValid,
}
use autonomy_harbor.Broker.Redeem.{authorizes, redeem_iff}
use autonomy_harbor.Broker.Induction.{IsKept, run-kept}
use autonomy_harbor.Broker.Log.{Extends, run-Extends}

eq_false : (b : Bool) → (b ≡ true → ⊥) → b ≡ false
eq_false true h = absurd (h refl)
eq_false false h = refl

module _ ⦃p : Platform⦄ where
  cancelling : (k : String) → IsKept (λ b. contains k b.cancellations ≡ true)
  unfolding append_event
  cancelling k = record {
    on_append = λ event lease request_id reason actor created_at b h. h;
    on_enter = λ lease b free h. h;
    on_mark =
        λ lease_id reason b h. ground (arith, lookup-insert lease_id k reason b.cancellations);
    on_use = λ lease_id b h. h;
  }

  contains-cancel :
      (k cancelled_by reason : String) (now : Datetime) (b : ReviewBroker)
      → contains k b.leases ≡ true
      → contains k (cancel k cancelled_by reason now b).1.cancellations ≡ true
  unfolding cancel cancel_found log_cancellation append_event
  contains-cancel k cancelled_by reason now b known =
      ground (arith, lookup-insert k k reason b.cancellations, eq_iff k k)

  -- When a known lease has been cancelled, no call of `redeem` authorizes anything by it, whatever is
  -- called in between; that holds also where the call of `cancel` has raised.
  pub cancel_lasts :
      (k cancelled_by reason : String) (at : Datetime) (b : ReviewBroker) (cs : List Call)
      (request : ActionRequest) (base : GateDecision) (now : Datetime)
      → contains k b.leases ≡ true
      → authorizes (redeem k request base now (run cs (cancel k cancelled_by reason at b).1)).0
        ≡ false
  cancel_lasts k cancelled_by reason at b cs request base now known =
      let b' = (cancel k cancelled_by reason at b).1 in
      let gone = run-kept (cancelling k) cs b' (contains-cancel k cancelled_by reason at b known) in
      eq_false _ λ h. let r = (redeem_iff k request base now (run cs b')).0 h in cc (gone, r.active)

  uses-redeem :
      (k : String) (request : ActionRequest) (base : GateDecision) (now : Datetime)
      (b : ReviewBroker)
      → authorizes (redeem k request base now b).0 ≡ true
      → 1 ≤ get_or 0 k (redeem k request base now b).1.uses
  unfolding redeem redeem_at redeem_found settle consume reject append_event to_utc
  uses-redeem k request base now b h =
      ground (arith, lookup-insert k k (get_or 0 k b.uses + 1) b.uses, eq_iff k k)

  redemptions-redeem :
      (k : String) (request : ActionRequest) (base : GateDecision) (now : Datetime)
      (b : ReviewBroker)
      → IsValid (redeem k request base now b).1
      → authorizes (redeem k request base now b).0 ≡ true
      → 1 ≤ redemptions k (redeem k request base now b).1.events
  redemptions-redeem k request base now b v h =
      omega (arith, v.counted k, uses-redeem k request base now b h)

  redemptions-Extends :
      (k : String) (es fs : List ReviewEventReceipt)
      → Extends es fs
      → redemptions k es ≤ redemptions k fs
  redemptions-Extends k es fs x = rw x.grown (omega (arith, redemptions-append k es x.more))

  not_redeemable :
      (k : String) (request : ActionRequest) (base : GateDecision) (now : Datetime)
      (b : ReviewBroker)
      → IsValid b
      → 1 ≤ redemptions k b.events
      → authorizes (redeem k request base now b).0 ≡ false
  not_redeemable k request base now b v spent = eq_false _ λ h.
      let r = (redeem_iff k request base now b).0 h in
      absurd (omega (arith, v.counted k, v.one_shot k r.lease r.known, r.unused))

  -- When a lease has been redeemed, no later call of `redeem` authorizes anything by it, for no
  -- request and at no time, whatever is called before and in between.
  pub redeem_once :
      (before : List Call) (k : String) (request : ActionRequest) (base : GateDecision)
      (now : Datetime) (between : List Call) (request' : ActionRequest) (base' : GateDecision)
      (now' : Datetime)
      → let b = run before empty_broker in
        authorizes (redeem k request base now b).0 ≡ true
        → authorizes (redeem k request' base' now' (run between (redeem k request base now b).1)).0
          ≡ false
  redeem_once before k request base now between request' base' now' h =
      let b = run before empty_broker in
      let b' = (redeem k request base now b).1 in
      let v' : IsValid b' =
        unfold perform in
        perform-IsValid (redeem_lease k request base now) b
          (run-IsValid before empty_broker empty_broker-IsValid) in
      not_redeemable k request' base' now' (run between b') (run-IsValid between b' v') (
        le_trans (redemptions-redeem k request base now b v' h)
          (redemptions-Extends k b'.events (run between b').events (run-Extends between b')))
