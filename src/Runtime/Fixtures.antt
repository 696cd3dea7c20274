-- ===== src/Runtime/Fixtures.antt =====
-- A runtime over the registry of the reference appliance, whose executor counts its calls.
use autonomy_harbor.Base.{ℕ, suc, none, some, [], Result, fail, execution_error}
use autonomy_harbor.Json.{Fields}
use autonomy_harbor.Models.{ActionRequest}
use autonomy_harbor.Gate.Fixtures.{registry}
use autonomy_harbor.Broker.{empty_broker}
use autonomy_harbor.Envelope.Fixtures.{signer, store}
use autonomy_harbor.Runtime.{PersonalAgentRuntime, State}

abbrev pub counting : ActionRequest → ℕ → Result Fields × ℕ
counting request n = (fail execution_error "resource_not_found", suc n)

abbrev pub runtime : PersonalAgentRuntime
runtime = record { registry = registry; authorizer = some store; receipt_signer = some signer }

abbrev pub start : State ℕ
start = record {
  previous_receipt_hash = none;
  previous_signed_receipt_hash = none;
  broker = some empty_broker;
  rows = [];
  world = 0;
}
