-- ===== src/Lib.antt =====
-- Autonomy Harbor: a gate between an agent and what it may do, modelled and proved.
--
-- The program decides each request of an agent by a registry of grants (ALLOW, REVIEW or DENY), lets
-- a human's one-shot lease turn REVIEW into ALLOW, executes what is allowed, and keeps a receipt of
-- every attempt. Leases, permits and receipts can be signed and checked by other processes.
--
-- Files, and the code that they model (all under src/personal_agent_runtime/):
--   Models      models.py: requests, grants, registries, decisions, receipts and their checks.
--   Glob        the patterns of `fnmatch.fnmatchcase`, which gate.py calls: a compiler and a matcher;
--               Glob/Relation gives their meaning as a relation.
--   Gate        gate.py: `CapabilityGate.evaluate`; below it Strictest, Order, Allowed and Ids.
--   Receipt     receipt.py: `create_receipt`; Receipt/Seal says what its digest covers.
--   Broker      review_broker.py: the state of `ReviewBroker` is a record, and a method goes from a
--               broker to a result and a broker. Methods has `issue_for_review`, `cancel` and
--               `redeem`; Run has sequences of calls; Valid, Log, Redeem and Lasting the facts.
--   Signer      verifiable.py: `TrustedSigner`, `TrustStore`, `Ed25519Signer`.
--   Envelope    verifiable.py: `SignedEnvelope`, `sign_payload`; Envelope/Verify has `verify_envelope`
--               and `verify_envelope_chain`; Verified, Tamper and Chain the facts.
--   Ledger      `ReplayLedger.consume` (verifiable.py), `ExecutionPermitLedger.consume` (appliance.py).
--   Authorizer  verifiable.py: the payload of a lease, `issue_signed_review_lease`, and
--               `SignedReviewAuthorizer.redeem`, here `redeem_signed`.
--   Runtime     runtime.py: `PersonalAgentRuntime.run` and `run_signed`. The state holds the two last
--               hashes, the broker, the rows of the ledger, and the world that the executor changes.
--   Permit      appliance.py: `issue_execution_permit`, `verify_and_consume_execution_permit`; in
--               Permit/Outcome `verify_execution_result` and `final_receipt_from_appliance`, in
--               Permit/Messages the dictionaries of requests and decisions.
--   Registry    appliance.py and promotion.py: the registry as data; verifiable.py: its attestation.
--               Runtime/Start has the check of it in `PersonalAgentRuntime.__init__`.
--   Services    appliance_services.py: the handlers of the planner, the review signer, the gate, the
--               executor and the verifier, from a message and the state of the process to a reply and a
--               state; Acts and Chain have runs of the executor and the verifier as step relations.
--               Bridge is mcp_server.py, whose calls of the services are an argument, Profile how it is
--               made from a profile, and Submits joins it with the handlers. Dispatched joins the
--               executor with the adapters, on the sandbox.
--   Promotion   promotion.py: the difference of registries; Simulation has the receipt of a simulation
--               and `recompute_prsp_gate`, Evidence the evidence and `PRSPPromotionGate.evaluate`.
--   Adapters    adapters.py: the registry of adapters, and Config its configuration; Sandbox is
--               executor.py on a file system, and Github github_adapter.py on a transport.
--   Maintainer  repo_maintainer.py: the scores and the selection, and in Receipts their receipt.
--   Json        the values that are signed and hashed, `==` on them, and `canonical_bytes` in Print.
--   Platform    what the code calls and does not hold: SHA-256, Ed25519, base64, the texts of times,
--               `repr`, and `int` of a text. They are the fields of a record, with the laws that
--               their documentation promises (a signature verifies under its own public key, decoding
--               undoes encoding, a digest has 64 characters, a printed time is read back). The record
--               `Sqlite` of Ledger is of the same kind. Platform/Model and Ledger/Model meet the laws.
--   Base        tests, lists, texts, dictionaries, results.
--
-- Calls that raise are the `raised` case of `Result`; a method that raises still returns the state
-- that it leaves. Times are microseconds since year 1 with a flag for a time zone; an aware time is
-- taken at UTC. A reading of the clock is an argument. A list and a tuple are one; floats are left
-- out, and the result of an execution is JSON. Texts are of Unicode's scalar values: lone surrogates,
-- on which `encode("utf-8")` raises, are left out, and so are the errors of SQLite other than
-- `IntegrityError`, on which the ledgers roll back and raise again. The executor that the runtime is given is a parameter,
-- and so is the dispatch in the executor's process, which Services/Dispatched fills.
-- All functions are total by structure, and no fuel is used.
--
-- Not modelled: the command line in cli.py and appliance_demo.py, the re-exports in __init__.py, and
-- what only reads and writes files and sockets: `initialize_appliance`, the key files, `UnixJsonClient`
-- and the loop of `serve_unix_json`, `load_profile` and `run_service`, `UrllibGitHubTransport`,
-- `load_repo_snapshot`, the files of the bridge and its server. What these load is an argument.
-- `str.lower`, the quoting of URLs, the environment, the file system and GitHub are arguments too.
pub mod Base
pub mod Glob
pub mod Json
pub mod Platform
pub mod Models
pub mod Gate
pub mod Receipt
pub mod Broker
pub mod Signer
pub mod Envelope
pub mod Ledger
pub mod Authorizer
pub mod Registry
pub mod Runtime
pub mod Permit
pub mod Services
pub mod Promotion
pub mod Adapters
pub mod Maintainer
