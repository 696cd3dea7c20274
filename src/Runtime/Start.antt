-- ===== src/Runtime/Start.antt =====
-- The check of the registry in `PersonalAgentRuntime.__init__`.
use autonomy_harbor.Base.{
  ◌≡◌, refl, Bool, true, false, not, Option, none, some, arith, ◌<>◌, Result, ok, reject_if, fail,
  value_error, ◌>>◌, is_some, ◌||◌,
}
use autonomy_harbor.Json.{obj, json_eq}
use autonomy_harbor.Platform.{Platform}
use autonomy_harbor.Models.{CapabilityRegistry}
use autonomy_harbor.Signer.{Signer, TrustStore}
use autonomy_harbor.Envelope.{SignedEnvelope}
use autonomy_harbor.Envelope.Verified.{IsVerified}
use autonomy_harbor.Registry.{capability_registry_payload, verify_capability_registry_attestation}
use autonomy_harbor.Registry.Attested.{verify_capability_registry_attestation_iff}
use autonomy_harbor.Runtime.{PersonalAgentRuntime}

module _ ⦃p : Platform⦄ where
  unfoldable pub check_attested :
      CapabilityRegistry → SignedEnvelope → TrustStore → Result (Unit {0})
  check_attested registry attestation store =
      let result = verify_capability_registry_attestation registry attestation store in
      reject_if (not result.ok) ("invalid_registry_attestation:" <> result.reason)

  -- the two branches: the attestation is required, or it is only checked where it is given
  unfoldable pub check_registry :
      Bool → CapabilityRegistry → Option SignedEnvelope → Option TrustStore → Result (Unit {0})
  check_registry true registry (some attestation) (some store) =
      check_attested registry attestation store
  check_registry true registry (some attestation) none =
      fail value_error "signed_registry_attestation_required"
  check_registry true registry none store = fail value_error "signed_registry_attestation_required"
  check_registry false registry (some attestation) (some store) =
      check_attested registry attestation store
  check_registry false registry (some attestation) none =
      fail value_error "trust_store_required_for_registry_attestation"
  check_registry false registry none store = ok tt

  unfoldable pub make_runtime :
      CapabilityRegistry
      → Option TrustStore
      → Option Signer
      → Option TrustStore
      → Option SignedEnvelope
      → Bool
      → Result PersonalAgentRuntime
  make_runtime registry authorizer receipt_signer trust_store attestation require_signed = do
    check_registry require_signed registry attestation trust_store
    ok (record { registry = registry; authorizer = authorizer; receipt_signer = receipt_signer })

  -- A capability authority that the store trusts attests exactly this registry.
  pub record IsAttested (registry : CapabilityRegistry) (attestation : Option SignedEnvelope)
      (trust_store : Option TrustStore) : Type 0 where
    pub envelope : SignedEnvelope
    pub store : TrustStore
    pub given : attestation ≡ some envelope
    pub trusted : trust_store ≡ some store
    pub verified :
        IsVerified envelope store (some "capability_authority") (some "capability_registry")
    pub snapshot :
        json_eq (obj envelope.payload) (obj (capability_registry_payload registry)) ≡ true

  check_attested-IsAttested :
      (registry : CapabilityRegistry) (e : SignedEnvelope) (store : TrustStore)
      → check_attested registry e store ≡ ok tt
      → IsAttested registry (some e) (some store)
  unfolding check_attested
  check_attested-IsAttested registry e store h =
      let accepted =
        (verify_capability_registry_attestation_iff registry e store).0 (ground arith) in
      record {
        envelope = e;
        store = store;
        given = refl;
        trusted = refl;
        verified = accepted.0;
        snapshot = accepted.1;
      }

  check_registry-IsAttested :
      (required : Bool) (registry : CapabilityRegistry) (attestation : Option SignedEnvelope)
      (store : Option TrustStore)
      → check_registry required registry attestation store ≡ ok tt
      → (required || is_some attestation) ≡ true
      → IsAttested registry attestation store
  unfolding check_registry
  check_registry-IsAttested true registry (some e) (some store) h g =
      check_attested-IsAttested registry e store h
  check_registry-IsAttested true registry (some e) none h g = absurd (ground arith)
  check_registry-IsAttested true registry none store h g = absurd (ground arith)
  check_registry-IsAttested false registry (some e) (some store) h g =
      check_attested-IsAttested registry e store h
  check_registry-IsAttested false registry (some e) none h g = absurd (ground arith)
  check_registry-IsAttested false registry none store h g = absurd (ground arith)

  -- A runtime that is made where an attestation is required or given runs on the registry that was
  -- passed, and a capability authority that its trust store trusts attests exactly this registry.
  pub make_runtime-IsAttested :
      (registry : CapabilityRegistry) (authorizer : Option TrustStore)
      (receipt_signer : Option Signer) (store : Option TrustStore)
      (attestation : Option SignedEnvelope) (required : Bool) (runtime : PersonalAgentRuntime)
      → make_runtime registry authorizer receipt_signer store attestation required ≡ ok runtime
      → (required || is_some attestation) ≡ true
      → IsAttested registry attestation store × (runtime.registry ≡ registry)
  unfolding make_runtime
  make_runtime-IsAttested registry authorizer receipt_signer store attestation required runtime h
        g =
      (check_registry-IsAttested required registry attestation store (ground arith) g, ground arith)
