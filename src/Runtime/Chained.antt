-- ===== src/Runtime/Chained.antt =====
-- The receipts of one runtime form a chain.
use autonomy_harbor.Base.{
  ◌≡◌, refl, String, Option, none, some, List, [], ◌∷◌, Result, ok, raised, arith, Bool-cases, inl,
  inr,
}
use mathlib.Core.Path.{subst}
use autonomy_harbor.Json.{Fields}
use autonomy_harbor.Platform.{Platform, Datetime}
use autonomy_harbor.Models.{ActionRequest, ActionReceipt, GateDecision, is_allow}
use autonomy_harbor.Gate.{evaluate}
use autonomy_harbor.Receipt.{create_receipt, receipt_body}
use autonomy_harbor.Receipt.Seal.{IsSealed}
use autonomy_harbor.Envelope.{SignedEnvelope}
use autonomy_harbor.Ledger.{Sqlite}
use autonomy_harbor.Runtime.{
  PersonalAgentRuntime, State, with_signed, with_broker, with_lease, decide, keep_receipt, act_on,
  run_with, run,
}

-- The arguments of one call of `run`.
pub record Attempt : Type 0 where
  pub lease_id : Option String
  pub envelope : Option SignedEnvelope
  pub request : ActionRequest
  pub now : Datetime
  pub created_at : String

module _ ⦃p : Platform⦄ where
  -- sealed receipts, each of which names the digest of the one before it, up to the last digest
  abbrev pub IsReceiptChain : Option String → List ActionReceipt → Option String → Type 0
  IsReceiptChain first [] last = first ≡ last
  IsReceiptChain first (r ∷ rs) last =
      IsSealed r × (r.previous_receipt_hash ≡ first) × IsReceiptChain (some r.receipt_hash) rs last

module _ ⦃p : Platform⦄ ⦃q : Sqlite⦄ {World : Type 0}
    (execute : ActionRequest → World → Result Fields × World) (runtime : PersonalAgentRuntime) where
  -- A call that raises leaves the last digest; one that returns links its receipt.
  abbrev IsAccounted : State World → Result ActionReceipt × State World → Type 0
  IsAccounted s (raised e, s') = s'.previous_receipt_hash ≡ s.previous_receipt_hash
  IsAccounted s (ok r, s') =
      IsSealed r
      × (r.previous_receipt_hash ≡ s.previous_receipt_hash)
      × (s'.previous_receipt_hash ≡ some r.receipt_hash)

  decide-keeps :
      (lease_id : Option String) (envelope : Option SignedEnvelope) (request : ActionRequest)
      (base : GateDecision) (now : Datetime) (s : State World)
      → let s' = (decide execute runtime lease_id envelope request base now s).1 in
        (s'.previous_receipt_hash ≡ s.previous_receipt_hash)
  unfolding decide with_lease with_signed with_broker
  decide-keeps lease_id envelope request base now s = ground arith

  act_on-IsAccounted :
      (d : Result GateDecision) (request : ActionRequest) (created_at : String) (s s' : State World)
      → s'.previous_receipt_hash ≡ s.previous_receipt_hash
      → IsAccounted s (act_on execute runtime d request created_at s')
  unfolding act_on keep_receipt create_receipt receipt_body
  act_on-IsAccounted (raised e) request created_at s s' h = h
  act_on-IsAccounted (ok d) request created_at s s' h = elim (Bool-cases (is_allow d.verdict)) [
    | inl allowed ↦ rw (allowed) (refl, h, refl)
    | inr forbidden ↦ rw (forbidden) (refl, h, refl)
  ]

  run-IsAccounted :
      (a : Attempt) (s : State World)
      → IsAccounted s (run execute runtime a.lease_id a.envelope a.request a.now a.created_at s)
  unfolding run run_with
  run-IsAccounted a s = go a.lease_id a.envelope
    where
      with_one :
          (lease_id : Option String) (envelope : Option SignedEnvelope)
          → IsAccounted s
              (run_with execute runtime lease_id envelope a.request a.now a.created_at s)
      with_one lease_id envelope =
          let base = evaluate a.request runtime.registry in
          let kept = decide-keeps lease_id envelope a.request base a.now s in
          let d = decide execute runtime lease_id envelope a.request base a.now s in
          act_on-IsAccounted d.0 a.request a.created_at s d.1 kept

      go :
          (lease_id : Option String) (envelope : Option SignedEnvelope)
          → IsAccounted s (run execute runtime lease_id envelope a.request a.now a.created_at s)
      go none none = with_one none none
      go (some id) none = with_one (some id) none
      go none (some e) = with_one none (some e)
      go (some id) (some e) = refl

  -- the receipts that calls in a row return, and the state after them
  abbrev receipts_and : Result ActionReceipt → List ActionReceipt → List ActionReceipt
  receipts_and (raised e) rs = rs
  receipts_and (ok r) rs = r ∷ rs

  unfoldable pub run_all : List Attempt → State World → List ActionReceipt × State World
  run_all [] s = ([], s)
  run_all (a ∷ attempts) s =
      let (r, s') = run execute runtime a.lease_id a.envelope a.request a.now a.created_at s in
      let (rs, s'') = run_all attempts s' in (receipts_and r rs, s'')

  chain-receipts_and :
      (s s' : State World) (r : Result ActionReceipt) (rs : List ActionReceipt)
      (last : Option String)
      → IsAccounted s (r, s')
      → IsReceiptChain s'.previous_receipt_hash rs last
      → IsReceiptChain s.previous_receipt_hash (receipts_and r rs) last
  chain-receipts_and s s' (raised e) rs last same chain =
      subst (λ h. IsReceiptChain h rs last) same chain
  chain-receipts_and s s' (ok r) rs last (sealed, linked, kept) chain =
      (sealed, linked, subst (λ h. IsReceiptChain h rs last) kept chain)

  -- The receipts that a runtime returns in a row of calls, some of which may raise, are sealed and
  -- each names the digest of the one before it, from the digest that the runtime started with to
  -- the one that it ends with.
  pub run_all-IsReceiptChain :
      (attempts : List Attempt) (s : State World)
      → let out = run_all attempts s in
        IsReceiptChain s.previous_receipt_hash out.0 out.1.previous_receipt_hash
  unfolding run_all
  run_all-IsReceiptChain [] s = refl
  run_all-IsReceiptChain (a ∷ attempts) s =
      let out = run execute runtime a.lease_id a.envelope a.request a.now a.created_at s in
      chain-receipts_and s out.1 out.0 (run_all attempts out.1).0
        (run_all attempts out.1).1.previous_receipt_hash (run-IsAccounted a s)
        (run_all-IsReceiptChain attempts out.1)
