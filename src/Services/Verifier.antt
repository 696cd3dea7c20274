-- ===== src/Services/Verifier.antt =====
-- `verifier_handler`, which makes final receipts and keeps the two hashes of their chains.
use autonomy_harbor.Base.{
  String, true, not, Option, some, [], ◌∷◌, Result, ok, raised, fail, value_error, if◌then◌else◌,
  ◌>>=◌,
}
use autonomy_harbor.Json.{bool, str, obj, Fields, fields}
use autonomy_harbor.Platform.{Platform, Datetime}
use autonomy_harbor.Models.{ActionRequest, ActionReceipt}
use autonomy_harbor.Signer.{Signer, TrustStore, key_id}
use autonomy_harbor.Envelope.{SignedEnvelope, as_dict}
use autonomy_harbor.Runtime.{action_receipt_payload}
use autonomy_harbor.Permit.Outcome.{final_receipt_from_appliance}
use autonomy_harbor.Services.{has_op, request_in, envelope_in}

pub record VerifierService : Type 0 where
  pub trust : TrustStore
  pub signer : Signer

-- the file `chain_state`; there are no hashes where it does not exist
pub record ChainState : Type 0 where
  pub previous_receipt_hash : Option String
  pub previous_envelope_hash : Option String

pub record Evidence : Type 0 where
  pub request : ActionRequest
  pub permit : SignedEnvelope
  pub result : SignedEnvelope

-- `save_chain`, and the reply
unfoldable pub save_chain :
    Result (ActionReceipt × SignedEnvelope) → ChainState → Result Fields × ChainState
save_chain (raised e) s = (raised e, s)
save_chain (ok (receipt, signed)) s = (
  ok (
      fields (
        ("role", str "verifier")
        ∷ ("verified", bool true)
        ∷ ("receipt", obj (action_receipt_payload receipt))
        ∷ ("signed_receipt", obj (as_dict signed))
        ∷ [])),
  record {
    previous_receipt_hash = some receipt.receipt_hash;
    previous_envelope_hash = some signed.envelope_hash;
  },
)

module _ ⦃p : Platform⦄ where
  unfoldable pub evidence_in : Fields → Result Evidence
  evidence_in message = do
    request ← request_in message
    permit ← envelope_in "execution_permit" message
    result ← envelope_in "signed_execution_result" message
    ok (record { request = request; permit = permit; result = result })

module _ ⦃p : Platform⦄ (service : VerifierService) where
  -- the receipt of the evidence, after those that the state names
  unfoldable pub receipt_of :
      Result Evidence → Datetime → ChainState → Result (ActionReceipt × SignedEnvelope)
  receipt_of (raised e) now s = raised e
  receipt_of (ok evidence) now s =
      final_receipt_from_appliance evidence.request evidence.permit evidence.result service.trust
        service.signer s.previous_receipt_hash s.previous_envelope_hash now

  unfoldable pub handle_verifier : Fields → Datetime → ChainState → Result Fields × ChainState
  handle_verifier message now s =
      if has_op "health" message
      then (
        ok (
            fields (
              ("role", str "verifier")
              ∷ ("status", str "ok")
              ∷ ("key_id", str (key_id service.signer))
              ∷ [])),
        s,
      )
      else if not (has_op "finalize" message)
      then (fail value_error "verifier_op_not_supported", s)
      else save_chain (receipt_of (evidence_in message) now s) s
