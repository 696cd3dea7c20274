-- ===== src/Services/Executor.antt =====
-- `executor_handler`, which acts once for each permit. How an adapter acts on the world is an argument.
use autonomy_harbor.Base.{
  String, true, false, not, List, [], ◌∷◌, Result, ok, raised, fail, value_error, permission_error,
  if◌then◌else◌, ◌>>=◌, ◌>>◌,
}
use autonomy_harbor.Json.{Json, bool, str, obj, Fields, fields, has}
use autonomy_harbor.Platform.{Platform, Datetime}
use autonomy_harbor.Models.{ActionRequest}
use autonomy_harbor.Signer.{Signer, TrustStore, key_id}
use autonomy_harbor.Envelope.{SignedEnvelope, as_dict}
use autonomy_harbor.Ledger.{Row, Sqlite}
use autonomy_harbor.Runtime.{outcome_of, result_of}
use autonomy_harbor.Permit.{PermitAuthorization, verify_and_consume_execution_permit}
use autonomy_harbor.Permit.Outcome.{sign_execution_result}
use autonomy_harbor.Services.{has_op, request_in, envelope_in}
use autonomy_harbor.Services.Gate.{Clock}

pub record ExecutorService : Type 0 where
  pub trust : TrustStore
  pub signer : Signer
  pub manifest : Json

pub record ExecutorState (World : Type 0) : Type 0 where
  pub rows : List Row
  pub world : World

abbrev not_executed : String → Fields
not_executed reason =
    fields (("role", str "executor") ∷ ("executed", bool false) ∷ ("reason", str reason) ∷ [])

unfoldable pub executed_reply : String → Result SignedEnvelope → Result Fields
executed_reply outcome signed = do
  result ← signed
  ok (
      fields (
        ("role", str "executor")
        ∷ ("executed", bool true)
        ∷ ("outcome", str outcome)
        ∷ ("signed_execution_result", obj (as_dict result))
        ∷ []))

module _ ⦃p : Platform⦄ where
  unfoldable pub order_in : Fields → Result (ActionRequest × SignedEnvelope)
  order_in message = do
    if has "execution_permit" message
        then ok tt
        else fail permission_error "signed_execution_permit_required"
    request ← request_in message
    permit ← envelope_in "execution_permit" message
    ok (request, permit)

module _ ⦃p : Platform⦄ ⦃q : Sqlite⦄ {World : Type 0}
    (act : ActionRequest → World → Result Fields × World) (service : ExecutorService) where
  -- The step after the permit has been checked; `act` runs only where it authorizes.
  unfoldable pub act_if :
      Result PermitAuthorization
      → SignedEnvelope
      → ActionRequest
      → String
      → Datetime
      → ExecutorState World
      → Result Fields × ExecutorState World
  act_if (raised e) permit request result_id now s = (raised e, s)
  act_if (ok authorization) permit request result_id now s =
      let (r, world) = act request s.world in
      if not authorization.authorized then (ok (not_executed authorization.reason), s) else (
        executed_reply (outcome_of r) (
            sign_execution_result request permit (outcome_of r) (result_of r) service.signer
              result_id now),
        record s { world = world },
      )

  unfoldable pub execute_permit :
      Result (ActionRequest × SignedEnvelope)
      → String
      → Clock
      → ExecutorState World
      → Result Fields × ExecutorState World
  execute_permit (raised e) result_id clock s = (raised e, s)
  execute_permit (ok (request, permit)) result_id clock s =
      let (authorization, rows) =
        verify_and_consume_execution_permit permit request service.trust clock.earlier s.rows in
      act_if authorization permit request result_id clock.later (record s { rows = rows })

  unfoldable pub handle_executor :
      Fields → String → Clock → ExecutorState World → Result Fields × ExecutorState World
  handle_executor message result_id clock s =
      if has_op "health" message
      then (
        ok (
            fields (
              ("role", str "executor")
              ∷ ("status", str "ok")
              ∷ ("key_id", str (key_id service.signer))
              ∷ ("adapters", service.manifest)
              ∷ [])),
        s,
      )
      else if not (has_op "execute" message)
      then (fail value_error "executor_op_not_supported", s)
      else execute_permit (order_in message) result_id clock s
