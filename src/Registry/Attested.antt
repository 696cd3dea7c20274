-- ===== src/Registry/Attested.antt =====
-- The registry is read back from its dictionary, and an attestation is for one registry.
use autonomy_harbor.Base.{
  ◌≡◌, ◌↔◌, refl, String, true, Option, some, List, [], ◌∷◌, arith, eq_refl, ok, Result-cases,
  upper, inl, inr, lookup,
}
use autonomy_harbor.Json.{obj, strs, get, json_eq, items_eq}
use autonomy_harbor.Platform.{Platform, text_of}
use autonomy_harbor.Models.{
  CapabilityGrant, CapabilityRegistry, Verdict, allow, review, deny, other, verdict_text,
  make_grant, parse_effect,
}
use autonomy_harbor.Signer.{Signer, TrustStore, TrustedSigner, key_id, public_key_b64}
use autonomy_harbor.Envelope.{SignedEnvelope}
use autonomy_harbor.Envelope.Verify.{role_in}
use autonomy_harbor.Envelope.Verified.{
  IsVerified, verify_envelope_iff, payload-sign_payload, sign_payload-IsVerified,
}
use autonomy_harbor.Authorizer.{each_text}
use autonomy_harbor.Authorizer.Facts.{texts_of-strs}
use autonomy_harbor.Registry.{
  grant_view, grant_views, sorted_grants, registry_dict, capability_registry_payload,
  grant_from_dict, grants_from, grants_of, registry_from_dict, attest_capability_registry,
  verify_capability_registry_attestation,
}

-- The constructor makes this grant of its fields.
abbrev pub IsMade : CapabilityGrant → Type 0
IsMade g =
    make_grant g.grant_id g.capability (verdict_text g.effect) g.actions g.resources g.issued_by
      g.note
    ≡ ok g

abbrev pub AllMade : List CapabilityGrant → Type 0
AllMade [] = Unit
AllMade (g ∷ gs) = IsMade g × AllMade gs

parse_effect-verdict_text :
    (effect : String) (v : Verdict)
    → parse_effect effect ≡ ok v
    → parse_effect (verdict_text v) ≡ ok v
unfolding parse_effect upper
parse_effect-verdict_text effect allow h = refl
parse_effect-verdict_text effect review h = refl
parse_effect-verdict_text effect deny h = refl
parse_effect-verdict_text effect (other t) h = absurd (ground arith)

-- What the constructor has made, it makes again of the grant's own fields.
pub make_grant-IsMade :
    (grant_id capability effect : String) (actions resources : List String)
    (issued_by note : String) (g : CapabilityGrant)
    → make_grant grant_id capability effect actions resources issued_by note ≡ ok g
    → IsMade g
unfolding make_grant
make_grant-IsMade grant_id capability effect actions resources issued_by note g h =
    elim (Result-cases (parse_effect effect)) [
      | inr (e, bad) ↦ absurd (ground arith)
      | inl (v, good) ↦ ground (arith, good, parse_effect-verdict_text effect v good)
    ]

module _ ⦃p : Platform⦄ where
  grant_from_dict-grant_view :
      (g : CapabilityGrant) → IsMade g → grant_from_dict (obj (grant_view g)) ≡ ok g
  unfolding grant_from_dict grant_view each_text text_of get
  grant_from_dict-grant_view g made = rw (texts_of-strs g.actions, texts_of-strs g.resources) made

  grants_from-grant_views :
      (gs : List CapabilityGrant) → AllMade gs → grants_from (grant_views gs) ≡ ok gs
  unfolding grants_from grant_views
  grants_from-grant_views [] made = refl
  grants_from-grant_views (g ∷ gs) made =
      rw (grant_from_dict-grant_view g made.0, grants_from-grant_views gs made.1) refl

  -- A registry whose grants the constructor has made is read back from its dictionary unchanged.
  pub registry_from_dict-registry_dict :
      (r : CapabilityRegistry) → AllMade r.grants → registry_from_dict (registry_dict r) ≡ ok r
  unfolding registry_from_dict registry_dict grants_of text_of get
  registry_from_dict-registry_dict r made = rw (grants_from-grant_views r.grants made) refl

strs_refl : (ts : List String) → items_eq (strs ts) (strs ts) ≡ true
unfolding json_eq
strs_refl [] = refl
strs_refl (t ∷ ts) = ground (arith, eq_refl t, strs_refl ts)

grant_views_refl : (gs : List CapabilityGrant) → items_eq (grant_views gs) (grant_views gs) ≡ true
unfolding grant_views grant_view json_eq get
grant_views_refl [] = refl
grant_views_refl (g ∷ gs) = ground (
  arith,
  eq_refl g.grant_id,
  eq_refl g.capability,
  eq_refl (verdict_text g.effect),
  eq_refl g.issued_by,
  eq_refl g.note,
  strs_refl g.actions,
  strs_refl g.resources,
  grant_views_refl gs,
)

payload_refl :
    (r : CapabilityRegistry)
    → json_eq (obj (capability_registry_payload r)) (obj (capability_registry_payload r)) ≡ true
unfolding capability_registry_payload json_eq get
payload_refl r =
    ground (arith, eq_refl r.registry_id, eq_refl r.version, grant_views_refl (sorted_grants r))

module _ ⦃p : Platform⦄ where
  -- An attestation is accepted for a registry exactly when the envelope is verified for a capability
  -- authority and a registry, and its payload equals the snapshot of that registry.
  pub verify_capability_registry_attestation_iff :
      (r : CapabilityRegistry) (e : SignedEnvelope) (store : TrustStore)
      → ((verify_capability_registry_attestation r e store).ok ≡ true) ↔ (
          IsVerified e store (some "capability_authority") (some "capability_registry")
          × (json_eq (obj e.payload) (obj (capability_registry_payload r)) ≡ true))
  unfolding verify_capability_registry_attestation
  verify_capability_registry_attestation_iff r e store =
      let verified =
        verify_envelope_iff e store (some "capability_authority") (some "capability_registry") in
      (
        λ h. (verified.0 (ground arith), ground arith),
        λ (v, same). let good = verified.1 v in ground (arith, good, same),
      )

  -- An attestation of a registry is accepted for that registry by every store that trusts the
  -- signer's key and subject as a capability authority.
  pub attest_capability_registry-accepted :
      (r : CapabilityRegistry) (signer : Signer) (signed_at : String) (previous : Option String)
      (e : SignedEnvelope) (store : TrustStore) (trusted : TrustedSigner)
      → attest_capability_registry r signer signed_at previous ≡ ok e
      → lookup (key_id signer) store ≡ some trusted
      → trusted.status ≡ "ACTIVE"
      → trusted.subject ≡ signer.subject
      → trusted.public_key_b64 ≡ public_key_b64 signer
      → role_in (some "capability_authority") trusted.roles ≡ true
      → (verify_capability_registry_attestation r e store).ok ≡ true
  unfolding verify_capability_registry_attestation attest_capability_registry
  attest_capability_registry-accepted r signer signed_at previous e store trusted made known active
        subject key role =
      let verified =
        sign_payload-IsVerified "capability_registry" (capability_registry_payload r) signer
          previous signed_at e store trusted (some "capability_authority") made known active subject
          key role in
      let same =
        payload-sign_payload "capability_registry" (capability_registry_payload r) signer previous
          signed_at e made in
      ground (arith, verified, same, payload_refl r)
