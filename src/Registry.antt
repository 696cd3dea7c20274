-- ===== src/Registry.antt =====
-- The registry as data (appliance.py, promotion.py), and its attestation (verifiable.py).
pub mod Attested
use autonomy_harbor.Base.{
  String, Bool, true, false, not, Option, none, some, List, [], ◌∷◌, before, sort_by, Result, ok,
  raised, fail, type_error, ◌>>=◌, ◌>>◌, if◌then◌else◌,
}
use autonomy_harbor.Json.{
  Json, str, arr, obj, Items, nil, cons, Fields, end, fields, strs, get, json_eq,
}
use autonomy_harbor.Platform.{Platform, text_of, sha256_hex}
use autonomy_harbor.Models.{CapabilityGrant, CapabilityRegistry, make_grant, verdict_text}
use autonomy_harbor.Signer.{Signer, TrustStore}
use autonomy_harbor.Envelope.{SignedEnvelope, sign_payload, required, dict_of}
use autonomy_harbor.Envelope.Verify.{VerificationResult, verify_envelope}
use autonomy_harbor.Authorizer.{each_text}

unfoldable pub grant_view : CapabilityGrant → Fields
grant_view g = fields (
    ("grant_id", str g.grant_id)
    ∷ ("capability", str g.capability)
    ∷ ("effect", str (verdict_text g.effect))
    ∷ ("actions", arr (strs g.actions))
    ∷ ("resources", arr (strs g.resources))
    ∷ ("issued_by", str g.issued_by)
    ∷ ("note", str g.note)
    ∷ [])

unfoldable pub grant_views : List CapabilityGrant → Items
grant_views [] = nil
grant_views (g ∷ gs) = cons (obj (grant_view g)) (grant_views gs)

-- `sorted(registry.grants, key=lambda g: g.grant_id)`
unfoldable pub sorted_grants : CapabilityRegistry → List CapabilityGrant
sorted_grants registry =
    sort_by (λ (g h : CapabilityGrant). before g.grant_id h.grant_id) registry.grants

unfoldable pub registry_dict : CapabilityRegistry → Fields
registry_dict registry = fields (
    ("registry_id", str registry.registry_id)
    ∷ ("version", str registry.version)
    ∷ ("grants", arr (grant_views registry.grants))
    ∷ [])

unfoldable pub capability_registry_payload : CapabilityRegistry → Fields
capability_registry_payload registry = fields (
    ("registry_id", str registry.registry_id)
    ∷ ("version", str registry.version)
    ∷ ("grants", arr (grant_views (sorted_grants registry)))
    ∷ ("authority_effect", str "ATTESTS_EXACT_REGISTRY_SNAPSHOT")
    ∷ [])

-- `value.get(k, default)`
abbrev pub or_default : Option Json → Json → Json
or_default none v = v
or_default (some v) w = v

-- What is iterated as the items of the registry: a list, or the keys or letters, which are no
-- dictionaries and raise at the first.
module _ ⦃p : Platform⦄ where
  unfoldable pub grant_from_dict : Json → Result CapabilityGrant
  grant_from_dict v = do
    item ← dict_of v
    grant_id ← required "grant_id" item
    capability ← required "capability" item
    effect ← required "effect" item
    raw_actions ← required "actions" item
    actions ← each_text raw_actions
    raw_resources ← required "resources" item
    resources ← each_text raw_resources
    make_grant (text_of grant_id) (text_of capability) (text_of effect) actions resources
        (text_of (or_default (get "issued_by" item) (str "human")))
        (text_of (or_default (get "note" item) (str "")))

  unfoldable pub grants_from : Items → Result (List CapabilityGrant)
  grants_from nil = ok []
  grants_from (cons v vs) = do g ← grant_from_dict v; gs ← grants_from vs; ok (g ∷ gs)

  -- the grants of a registry, from whatever stands at "grants"
  unfoldable pub grants_of : Json → Result (List CapabilityGrant)
  grants_of (arr vs) = grants_from vs
  grants_of (str String.[]) = ok []
  grants_of (obj end) = ok []
  grants_of v = fail type_error "the grants are no list of dictionaries"

  unfoldable pub registry_from_dict : Fields → Result CapabilityRegistry
  registry_from_dict value = do
    registry_id ← required "registry_id" value
    version ← required "version" value
    grants ← grants_of (or_default (get "grants" value) (arr nil))
    ok (record { registry_id = text_of registry_id; version = text_of version; grants = grants })

  unfoldable pub attest_capability_registry :
      CapabilityRegistry → Signer → String → Option String → Result SignedEnvelope
  attest_capability_registry registry signer signed_at previous =
      sign_payload "capability_registry" (capability_registry_payload registry) signer signed_at
        previous

  unfoldable pub verify_capability_registry_attestation :
      CapabilityRegistry → SignedEnvelope → TrustStore → VerificationResult
  verify_capability_registry_attestation registry envelope store =
      let verified =
        verify_envelope envelope store (some "capability_authority") (some "capability_registry") in
      if not verified.ok
      then verified
      else if not (json_eq (obj envelope.payload) (obj (capability_registry_payload registry)))
      then record verified { ok = false; reason = "registry_snapshot_mismatch" }
      else verified
