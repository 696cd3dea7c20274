-- ===== src/Services/Bridge.antt =====
-- The bridge of mcp_server.py, which takes a tool's call through the services. How a service is
-- called is an argument; the log of receipts is the list of its lines, where there is one.
use autonomy_harbor.Base.{
  zero, ℕ, pos, negsuc, ℤ, String, not, Option, none, some, List, [], ◌∷◌, ◌++◌, length, min, ltb,
  Result, ok, raised, fail, runtime_error, is_blank, reject_if, if◌then◌else◌, ◌>>=◌, ◌>>◌, strip,
  suc,
}
use autonomy_harbor.Json.{is_falsy, or_null, Json, null, str, obj, Items, Fields, end, fields, get}
use autonomy_harbor.Models.{CapabilityRegistry, make_request}
use autonomy_harbor.Gate.{evaluate}
use autonomy_harbor.Envelope.{required, dict_of}
use autonomy_harbor.Authorizer.{is_text_at}
use autonomy_harbor.Registry.{or_default, grant_views}
use autonomy_harbor.Permit.Messages.{gate_decision_dict}
use autonomy_harbor.Services.Review.{is_true}

pub data Role : Type 0 where
  planner gate executor verifier : Role

-- the arguments of the tool `submit_action_request`
pub record Submission : Type 0 where
  pub request_id : String
  pub capability : String
  pub action : String
  pub resource : String
  pub payload : Fields
  pub signed_review_lease : Option Fields

-- `HarborMCPBridge`: the actor is the operator's, and no argument of a tool
pub record HarborMcpBridge : Type 0 where
  pub actor : String
  pub registry : CapabilityRegistry

unfoldable pub make_bridge : String → CapabilityRegistry → Result HarborMcpBridge
make_bridge actor registry = do
  reject_if (is_blank actor) "mcp_actor_required"
  ok (record { actor = strip actor; registry = registry })

pub record BridgeState (S : Type 0) : Type 0 where
  pub services : S
  pub log : Option (List Fields)

unfoldable pub check_capability : HarborMcpBridge → String → String → String → Result Fields
check_capability bridge capability action resource = do
  request ← make_request "__mcp_dry_run__" capability action resource end bridge.actor
  ok (gate_decision_dict (evaluate request bridge.registry))

unfoldable pub list_capability_grants : HarborMcpBridge → Items
list_capability_grants bridge = grant_views bridge.registry.grants

unfoldable pub propose_message : HarborMcpBridge → Submission → Fields
propose_message bridge a = fields (
    ("op", str "propose")
    ∷ (
      "intent",
      obj (
          fields (
            ("request_id", str a.request_id)
            ∷ ("capability", str a.capability)
            ∷ ("action", str a.action)
            ∷ ("resource", str a.resource)
            ∷ ("payload", obj a.payload)
            ∷ ("actor", str bridge.actor)
            ∷ [])),
    )
    ∷ [])

unfoldable pub authorize_message : Json → Option Fields → Fields
authorize_message request none = fields (("op", str "authorize") ∷ ("request", request) ∷ [])
authorize_message request (some lease) =
    fields
      (("op", str "authorize") ∷ ("request", request) ∷ ("signed_review_lease", obj lease) ∷ [])

unfoldable pub execute_message : Json → Json → Fields
execute_message request permit =
    fields (("op", str "execute") ∷ ("request", request) ∷ ("execution_permit", permit) ∷ [])

unfoldable pub finalize_message : Json → Json → Json → Fields
finalize_message request permit result = fields (
    ("op", str "finalize")
    ∷ ("request", request)
    ∷ ("execution_permit", permit)
    ∷ ("signed_execution_result", result)
    ∷ [])

unfoldable pub held_reply : Fields → Fields → Fields
held_reply decision gated = fields (
    ("status", str "NOT_EXECUTED")
    ∷ ("gate", obj decision)
    ∷ ("base_decision", or_null (get "base_decision" gated))
    ∷ ("receipt", null)
    ∷ ("note", str "REVIEW/DENY remains inside the Harbor; MCP cannot issue approval.")
    ∷ [])

unfoldable pub rejected_reply : Fields → Fields → Fields
rejected_reply decision executed = fields (
    ("status", str "EXECUTION_REJECTED")
    ∷ ("gate", obj decision)
    ∷ ("reason", or_null (get "reason" executed))
    ∷ ("receipt", null)
    ∷ [])

unfoldable pub verified_reply : Fields → Fields → Fields → Fields
verified_reply decision receipt finalized = fields (
    ("status", str "VERIFIED")
    ∷ ("gate", obj decision)
    ∷ ("outcome", or_null (get "outcome" receipt))
    ∷ ("result", or_default (get "result" receipt) (obj end))
    ∷ ("receipt", obj receipt)
    ∷ ("signed_receipt", or_null (get "signed_receipt" finalized))
    ∷ [])

-- `FinalizedReceiptLog.append`, where there is a log
abbrev pub append_log : Fields → Option (List Fields) → Option (List Fields)
append_log receipt none = none
append_log receipt (some lines) = some (lines ++ receipt ∷ [])

module _ {S : Type 0} (call : Role → Fields → S → Result Fields × S) where
  unfoldable pub on_receipt :
      Result Fields → Fields → Fields → BridgeState S → Result Fields × BridgeState S
  on_receipt (raised e) finalized decision s = (raised e, s)
  on_receipt (ok receipt) finalized decision s =
      (ok (verified_reply decision receipt finalized), record s { log = append_log receipt s.log })

  unfoldable pub on_finalized :
      Result Fields → Fields → BridgeState S → Result Fields × BridgeState S
  on_finalized (raised e) decision s = (raised e, s)
  on_finalized (ok finalized) decision s =
      if not (is_true (get "verified" finalized))
      then (fail runtime_error "verifier_failed_to_finalize", s)
      else on_receipt (required "receipt" finalized >>= dict_of) finalized decision s

  unfoldable pub on_executed :
      Result Fields → Json → Json → Fields → BridgeState S → Result Fields × BridgeState S
  on_executed (raised e) request permit decision s = (raised e, s)
  on_executed (ok executed) request permit decision s =
      let result = get "signed_execution_result" executed in
      let (finalized, services) =
        call verifier (finalize_message request permit (or_null result)) s.services in
      if not (is_true (get "executed" executed))
      then (ok (rejected_reply decision executed), s)
      else if is_falsy result
      then (fail runtime_error "executor_missing_signed_result", s)
      else on_finalized finalized decision (record s { services = services })

  unfoldable pub on_permit :
      Option Json → Json → Fields → BridgeState S → Result Fields × BridgeState S
  on_permit permit request decision s =
      let (executed, services) =
        call executor (execute_message request (or_null permit)) s.services in
      if is_falsy permit
      then (fail runtime_error "gate_allowed_without_execution_permit", s)
      else on_executed executed request (or_null permit) decision (record s { services = services })

  unfoldable pub on_decision :
      Result Fields → Fields → Json → BridgeState S → Result Fields × BridgeState S
  on_decision (raised e) gated request s = (raised e, s)
  on_decision (ok decision) gated request s =
      if not (is_text_at (get "verdict" decision) "ALLOW")
      then (ok (held_reply decision gated), s)
      else on_permit (get "execution_permit" gated) request decision s

  unfoldable pub on_gated : Result Fields → Json → BridgeState S → Result Fields × BridgeState S
  on_gated (raised e) request s = (raised e, s)
  on_gated (ok gated) request s =
      on_decision (required "decision" gated >>= dict_of) gated request s

  unfoldable pub on_request :
      Result Json → Option Fields → BridgeState S → Result Fields × BridgeState S
  on_request (raised e) lease s = (raised e, s)
  on_request (ok request) lease s =
      let (gated, services) = call gate (authorize_message request lease) s.services in
      on_gated gated request (record s { services = services })

  unfoldable pub on_planned :
      Result Fields → Option Fields → BridgeState S → Result Fields × BridgeState S
  on_planned (raised e) lease s = (raised e, s)
  on_planned (ok planned) lease s = on_request (required "request" planned) lease s

  unfoldable pub submit_action_request :
      HarborMcpBridge → Submission → BridgeState S → Result Fields × BridgeState S
  submit_action_request bridge a s =
      let (planned, services) = call planner (propose_message bridge a) s.services in
      on_planned planned a.signed_review_lease (record s { services = services })

-- `values[-n:]`, for n > 0
unfoldable pub last_of : ℕ → List Fields → List Fields
last_of n [] = []
last_of n (v ∷ vs) = let rest = last_of n vs in if ltb n (length (v ∷ vs)) then rest else v ∷ vs

-- `max(1, min(int(limit), 200))`
unfoldable pub tail_limit : ℤ → ℕ
tail_limit (negsuc n) = 1
tail_limit (pos zero) = 1
tail_limit (pos (suc n)) = min (suc n) 200

unfoldable pub list_receipts : ℤ → Option (List Fields) → List Fields
list_receipts limit none = []
list_receipts limit (some lines) = last_of (tail_limit limit) lines

abbrev found_or : Option Fields → String → Fields → Option Fields
found_or (some w) request_id v = some w
found_or none request_id v = if is_text_at (get "request_id" v) request_id then some v else none

-- `FinalizedReceiptLog.find`, from the last line on
unfoldable pub find : String → List Fields → Option Fields
find request_id [] = none
find request_id (v ∷ vs) = found_or (find request_id vs) request_id v

unfoldable pub get_receipt : String → Option (List Fields) → Option Fields
get_receipt request_id none = none
get_receipt request_id (some lines) = find request_id lines
