-- ===== src/Services/Tests.antt =====
-- The theorems on the services, at a small appliance.
use autonomy_harbor.Base.{◌≤◌, ◌≡◌, String, true, none, List, [], ◌∷◌, ok, ◌⊎◌}
use autonomy_harbor.Json.{end, Fields}
use autonomy_harbor.Platform.{Datetime}
use autonomy_harbor.Platform.Model.{model}
use autonomy_harbor.Ledger.Model.{table}
use autonomy_harbor.Models.{ActionRequest, make_request, ActionReceipt}
use autonomy_harbor.Gate.Fixtures.{registry}
use autonomy_harbor.Gate.{evaluate}
use autonomy_harbor.Envelope.{SignedEnvelope}
use autonomy_harbor.Runtime.Fixtures.{counting}
use autonomy_harbor.Runtime.Chained.{IsReceiptChain}
use autonomy_harbor.Services.Acts.{
  Order, Serves, times, used, serve_all, serve_all-Serves, IsOrdered,
}
use autonomy_harbor.Services.Chain.{
  Finalizes, receipts, IsEnvelopeChain, finalize_all, finalize_all-chains, shown, replies,
  receipt_values, envelope_values,
}
use autonomy_harbor.Adapters.Sandbox.{FileSystem, IsWritten}
use autonomy_harbor.Services.Dispatched.{adapter_act, sandbox_registry, handle_executor-IsWritten}
use autonomy_harbor.Services.Executor.{handle_executor, ExecutorState}
use autonomy_harbor.Services.Bridge.{submit_action_request}
use autonomy_harbor.Services.Submits.{call, submit_action_request-cases, IsOpen}
use autonomy_harbor.Services.Fixtures.{
  services, moments, clock, executor_service, verifier_service, idle_executor, no_receipts,
  execute_order, finalize_order, bridge, submission, at_rest,
}

abbrev order : Order counting executor_service
order = record { message = execute_order; result_id = "result-1"; clock = clock }

serve_all-Serves_example :
    (hashes : List String) × Serves counting executor_service idle_executor hashes
      (serve_all counting executor_service (order ∷ order ∷ []) idle_executor)
    × ((h : String)
        → (times counting executor_service h hashes ≤ 1)
          × (used h [] ≡ true → times counting executor_service h hashes ≡ 0))
serve_all-Serves_example =
    serve_all-Serves counting executor_service (order ∷ order ∷ []) idle_executor

abbrev finalize_orders : List (Fields × Datetime)
finalize_orders = (finalize_order, moments.at_verifier) ∷ []

finalize_all-chains_example :
    let t = finalize_all verifier_service finalize_orders no_receipts in
    (made : List (ActionReceipt × SignedEnvelope)) × Finalizes verifier_service no_receipts
      finalize_orders made t
    × (shown "receipt" (replies verifier_service finalize_orders no_receipts) ≡ receipt_values made)
    × (shown "signed_receipt" (replies verifier_service finalize_orders no_receipts)
        ≡ envelope_values made)
    × IsReceiptChain none (receipts made) t.previous_receipt_hash
    × IsEnvelopeChain none made t.previous_envelope_hash
finalize_all-chains_example = finalize_all-chains verifier_service finalize_orders no_receipts

submit_action_request-cases_example :
    ((submit_action_request (call counting services moments) bridge submission at_rest).1 ≡ at_rest)
    ⊎ (r : ActionRequest) × (make_request "w1" "filesystem.write" "write_text" "approved/a.txt" end
          "agent"
        ≡ ok r)
      × IsOpen (evaluate r registry).verdict none
submit_action_request-cases_example =
    submit_action_request-cases counting services moments bridge submission at_rest

-- a disk that holds one text
abbrev disk : FileSystem String
disk = record {
  root = "sandbox" ∷ [];
  resolved = λ (resource : String) (world : String). "sandbox" ∷ resource ∷ [];
  is_file = λ (path : List String) (world : String). true;
  read_text = λ (path : List String) (world : String). ok world;
  make_parent = λ (path : List String) (world : String). (ok tt, world);
  write_text = λ (path : List String) (text world : String). (ok tt, text);
}

abbrev empty_disk : ExecutorState String
empty_disk = record { rows = []; world = "" }

handle_executor-IsWritten_example :
    let act = adapter_act (sandbox_registry disk) in
    let s' = (handle_executor act executor_service execute_order "result-1" clock empty_disk).1 in
    ((s'.world ≡ "")
      ⊎ (order : IsOrdered act executor_service execute_order clock empty_disk s')
        × (order.request.capability ≡ "filesystem.write")
        × IsWritten disk order.request "" s'.world)
handle_executor-IsWritten_example =
    handle_executor-IsWritten disk executor_service execute_order "result-1" clock empty_disk
