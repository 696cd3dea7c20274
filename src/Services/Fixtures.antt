-- ===== src/Services/Fixtures.antt =====
-- The processes of a small appliance, and the messages that they get.
use autonomy_harbor.Base.{ℕ, none, some, [], ◌∷◌, true}
use autonomy_harbor.Json.{Fields, str, obj, end, fields}
use autonomy_harbor.Platform.Model.{model}
use autonomy_harbor.Gate.Fixtures.{registry, read_request}
use autonomy_harbor.Envelope.{as_dict}
use autonomy_harbor.Envelope.Fixtures.{signer, store}
use autonomy_harbor.Permit.Messages.{action_request_dict}
use autonomy_harbor.Permit.Fixtures.{permit, result}
use autonomy_harbor.Services.Gate.{GateService, Clock}
use autonomy_harbor.Services.Executor.{ExecutorService, ExecutorState}
use autonomy_harbor.Services.Verifier.{VerifierService, ChainState}
use autonomy_harbor.Services.Bridge.{HarborMcpBridge, Submission, BridgeState}
use autonomy_harbor.Services.Submits.{Services, Appliance, Moments}

abbrev pub executor_service : ExecutorService
executor_service = record { trust = store; signer = signer; manifest = obj end }

abbrev pub verifier_service : VerifierService
verifier_service = record { trust = store; signer = signer }

abbrev pub gate_service : GateService
gate_service = record {
  registry = registry;
  trust = store;
  signer = signer;
  permit_ttl_seconds = 30;
}

abbrev pub services : Services
services = record {
  gate_service = gate_service;
  executor_service = executor_service;
  verifier_service = verifier_service;
  service_pid = 7;
}

abbrev pub clock : Clock
clock = record {
  earlier = record { instant = 2000000; aware = true };
  later = record { instant = 3000000; aware = true };
}

abbrev pub moments : Moments
moments = record {
  at_gate = clock;
  at_executor = clock;
  at_verifier = record { instant = 4000000; aware = true };
  result_id = "result-1";
}

abbrev pub idle_executor : ExecutorState ℕ
idle_executor = record { rows = []; world = 0 }

abbrev pub no_receipts : ChainState
no_receipts = record { previous_receipt_hash = none; previous_envelope_hash = none }

abbrev pub execute_order : Fields
execute_order = fields (
    ("op", str "execute")
    ∷ ("request", obj (action_request_dict read_request))
    ∷ ("execution_permit", obj (as_dict permit))
    ∷ [])

abbrev pub finalize_order : Fields
finalize_order = fields (
    ("op", str "finalize")
    ∷ ("request", obj (action_request_dict read_request))
    ∷ ("execution_permit", obj (as_dict permit))
    ∷ ("signed_execution_result", obj (as_dict result))
    ∷ [])

abbrev pub bridge : HarborMcpBridge
bridge = record { actor = "agent"; registry = registry }

abbrev pub submission : Submission
submission = record {
  request_id = "w1";
  capability = "filesystem.write";
  action = "write_text";
  resource = "approved/a.txt";
  payload = end;
  signed_review_lease = none;
}

abbrev pub at_rest : BridgeState (Appliance ℕ)
at_rest = record {
  services = record { gate_rows = []; executor_state = idle_executor; chain = no_receipts };
  log = some [];
}
