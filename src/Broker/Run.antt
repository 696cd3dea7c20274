-- ===== src/Broker/Run.antt =====
-- Sequences of calls to a broker, and the invariant of the leases.
use autonomy_harbor.Base.{ℕ, String, Option, List, [], ◌∷◌, ok, raised}
use autonomy_harbor.Platform.{Platform, Datetime}
use autonomy_harbor.Models.{ActionRequest, GateDecision}
use autonomy_harbor.Broker.{ReviewLease, ReviewBroker, check_lease, register}
use autonomy_harbor.Broker.Methods.{issue_for_review, cancel, redeem}

-- The calls of the broker's methods. A lease that is registered from outside has been built by its
-- class, which checks it.
pub data Call : Type 0 where
  register_lease : ReviewLease → Call
  issue : ActionRequest → GateDecision → String → ℕ → Option String → Datetime → Call
  cancel_lease : String → String → String → Datetime → Call
  redeem_lease : String → ActionRequest → GateDecision → Datetime → Call

module _ ⦃p : Platform⦄ where
  unfoldable pub perform : Call → ReviewBroker → ReviewBroker
  perform (register_lease lease) b = elim (check_lease lease) [
    | raised e ↦ b
    | ok built ↦ (register built b).1
  ]
  perform (issue request base_decision issued_by ttl lease_id now) b =
      (issue_for_review request base_decision issued_by ttl lease_id now b).1
  perform (cancel_lease lease_id cancelled_by reason now) b =
      (cancel lease_id cancelled_by reason now b).1
  perform (redeem_lease lease_id request base_decision now) b =
      (redeem lease_id request base_decision now b).1

  unfoldable pub run : List Call → ReviewBroker → ReviewBroker
  run [] b = b
  run (c ∷ cs) b = run cs (perform c b)
