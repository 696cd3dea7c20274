-- ===== src/Gate/Fixtures.antt =====
-- The registry of the reference appliance, which `initialize_appliance` writes, and requests.
use autonomy_harbor.Base.{[], ◌∷◌}
use autonomy_harbor.Json.{end}
use autonomy_harbor.Models.{ActionRequest, CapabilityGrant, CapabilityRegistry, allow, review, deny}

abbrev pub read_grant : CapabilityGrant
read_grant = record {
  grant_id = "sandbox-read-auto";
  capability = "filesystem.read";
  effect = allow;
  actions = "read_text" ∷ [];
  resources = "approved/*" ∷ [];
  issued_by = "human:appliance-init";
  note = "";
}

abbrev pub write_grant : CapabilityGrant
write_grant = record {
  grant_id = "sandbox-write-review";
  capability = "filesystem.write";
  effect = review;
  actions = "write_text" ∷ [];
  resources = "approved/*" ∷ [];
  issued_by = "human:appliance-init";
  note = "";
}

abbrev pub deny_grant : CapabilityGrant
deny_grant = record {
  grant_id = "control-plane-deny";
  capability = "runtime.*";
  effect = deny;
  actions = "*" ∷ [];
  resources = "*" ∷ [];
  issued_by = "human:appliance-init";
  note = "";
}

abbrev pub registry : CapabilityRegistry
registry = record {
  registry_id = "personal-agent-appliance";
  version = "0.9-reference";
  grants = read_grant ∷ write_grant ∷ deny_grant ∷ [];
}

abbrev pub read_request : ActionRequest
read_request = record {
  request_id = "r1";
  capability = "filesystem.read";
  action = "read_text";
  resource = "approved/a.txt";
  payload = end;
  actor = "agent";
}

abbrev pub write_request : ActionRequest
write_request = record {
  request_id = "w1";
  capability = "filesystem.write";
  action = "write_text";
  resource = "approved/a.txt";
  payload = end;
  actor = "agent";
}

abbrev pub policy_request : ActionRequest
policy_request = record read_request { capability = "runtime.policy.set" }
