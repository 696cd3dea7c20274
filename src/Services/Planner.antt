-- ===== src/Services/Planner.antt =====
-- `planner_handler`, which turns an intent into a request.
use autonomy_harbor.Base.{false, not, [], ◌∷◌, Result, ok, reject_if, if◌then◌else◌, ◌>>=◌, ◌>>◌}
use autonomy_harbor.Json.{bool, str, obj, Fields, end, fields, get}
use autonomy_harbor.Platform.{Platform, text_of}
use autonomy_harbor.Models.{make_request}
use autonomy_harbor.Envelope.{required, dict_of}
use autonomy_harbor.Registry.{or_default}
use autonomy_harbor.Permit.Messages.{action_request_dict}
use autonomy_harbor.Services.{has_op}

abbrev planner_health : Fields
planner_health =
    fields
      (("role", str "planner") ∷ ("status", str "ok") ∷ ("private_key_loaded", bool false) ∷ [])

module _ ⦃p : Platform⦄ where
  unfoldable pub propose : Fields → Result Fields
  propose message = do
    intent ← dict_of (or_default (get "intent" message) (obj end))
    request_id ← required "request_id" intent
    capability ← required "capability" intent
    action ← required "action" intent
    resource ← required "resource" intent
    payload ← dict_of (or_default (get "payload" intent) (obj end))
    request ←
        make_request (text_of request_id) (text_of capability) (text_of action) (text_of resource)
          payload (text_of (or_default (get "actor" intent) (str "planner-agent")))
    ok (fields (("role", str "planner") ∷ ("request", obj (action_request_dict request)) ∷ []))

  unfoldable pub handle_planner : Fields → Result Fields
  handle_planner message =
      if has_op "health" message
      then ok planner_health
      else do reject_if (not (has_op "propose" message)) "planner_op_not_supported"; propose message
