-- ===== src/Envelope/Verified.antt =====
-- What a verified envelope is, and that signing makes one.
use Prim.Native.String.{count}
use autonomy_harbor.Base.{
  ap, ℕ, ◌≡◌, refl, ◌↔◌, String, Bool, true, false, Option, some, List, [], ◌∷◌, arith, ◌==◌,
  eq_iff, eq_refl, Option-cases, inl, inr, lookup, ok, is_blank, not, ◌&&◌, ◌<◌,
}
use autonomy_harbor.Json.{obj, Fields}
use autonomy_harbor.Platform.{Platform, sha256_hex, parse_time-isoformat, end_of_time}
use autonomy_harbor.Signer.{TrustedSigner, TrustStore, Signer, key_id, public_key_b64, sign}
use autonomy_harbor.Envelope.{
  SignedEnvelope, signature_view, hash_view, check_envelope, sealed_envelope, sign_payload,
}
use autonomy_harbor.Envelope.Verify.{
  first_failure, all_passed, checks_of, signature_verifies, is_or_absent, role_in, verify_envelope,
  verify_with,
}

-- whether no check is called "verified"
abbrev named : List (String × Bool) → Bool
named [] = true
named ((name, passed) ∷ checks) = not (name == "verified") && named checks

first_failure_iff :
    (checks : List (String × Bool))
    → named checks ≡ true
    → (all_passed checks ≡ true) ↔ (first_failure checks ≡ "verified")
unfolding all_passed first_failure
first_failure_iff [] h = (λ _. refl, λ _. refl)
first_failure_iff ((name, passed) ∷ checks) h =
    ground (arith, eq_iff name "verified", first_failure_iff checks)

module _ ⦃p : Platform⦄ where
  pub record IsVerified (e : SignedEnvelope) (store : TrustStore)
      (role payload_type : Option String) : Type 0 where
    pub signer : TrustedSigner
    pub trusted : lookup e.key_id store ≡ some signer
    pub active : signer.status ≡ "ACTIVE"
    pub subject : signer.subject ≡ e.signer_id
    pub has_role : role_in role signer.roles ≡ true
    pub has_type : is_or_absent payload_type e.payload_type ≡ true
    pub payload_sealed : e.payload_hash ≡ sha256_hex (obj e.payload)
    pub envelope_sealed : e.envelope_hash ≡ sha256_hex (hash_view e)
    pub signed : signature_verifies signer e ≡ true

  verify_with_signed :
      (key : List ℕ) (k : String) (message : List ℕ)
      → k ≡ p.b64encode (p.public_key key)
      → verify_with (p.b64decode k) (p.b64decode (p.b64encode (p.ed25519_sign key message))) message
        ≡ true
  unfolding verify_with
  verify_with_signed key k message own = ground (
    arith,
    p.b64decode-b64encode (p.public_key key),
    p.b64decode-b64encode (p.ed25519_sign key message),
    p.ed25519_verify-sign key message,
  )

  module _ (e : SignedEnvelope) (store : TrustStore) (role payload_type : Option String) where
    IsVerified-of_ok :
        (verify_envelope e store role payload_type).ok ≡ true → IsVerified e store role payload_type
    unfolding verify_envelope all_passed checks_of
    IsVerified-of_ok h = elim (Option-cases (lookup e.key_id store)) [
      | inl missing ↦ absurd (ground arith)
      | inr (signer, found) ↦ record {
        signer = signer;
        trusted = found;
        active = ground (arith, eq_iff signer.status "ACTIVE");
        subject = ground (arith, eq_iff signer.subject e.signer_id);
        has_role = ground arith;
        has_type = ground arith;
        payload_sealed = ground (arith, eq_iff e.payload_hash (sha256_hex (obj e.payload)));
        envelope_sealed = ground (arith, eq_iff e.envelope_hash (sha256_hex (hash_view e)));
        signed = ground arith;
      }
    ]

    ok_of_verified :
        IsVerified e store role payload_type → (verify_envelope e store role payload_type).ok ≡ true
    unfolding verify_envelope all_passed checks_of
    ok_of_verified v = ground (
      arith,
      v.trusted,
      eq_iff v.signer.status "ACTIVE",
      eq_iff v.signer.subject e.signer_id,
      eq_iff e.payload_hash (sha256_hex (obj e.payload)),
      eq_iff e.envelope_hash (sha256_hex (hash_view e)),
    )

    -- Verification succeeds exactly when both digests fit, the key is that of a trusted and active
    -- signer of the stated subject with the required role, the payload has the expected type, and
    -- the signature verifies under the trusted key.
    pub verify_envelope_iff :
        ((verify_envelope e store role payload_type).ok ≡ true)
        ↔ IsVerified e store role payload_type
    verify_envelope_iff = (IsVerified-of_ok, ok_of_verified)

  -- The reason is "verified" exactly when verification succeeds.
  pub reason-verify_envelope_iff :
      (e : SignedEnvelope) (store : TrustStore) (role payload_type : Option String)
      → let result = verify_envelope e store role payload_type in
        (result.ok ≡ true) ↔ (result.reason ≡ "verified")
  unfolding verify_envelope checks_of
  reason-verify_envelope_iff e store role payload_type = first_failure_iff _ refl

  module _ (payload_type : String) (payload : Fields) (signer : Signer)
      (previous : Option String) where
    sealed_counts :
        (signed_at : String)
        → let e = sealed_envelope payload_type payload signer signed_at previous in
          (count e.payload_hash ≡ 64) × (count e.envelope_hash ≡ 64)
    unfolding sealed_envelope sha256_hex
    sealed_counts signed_at = (p.count-sha256 _, p.count-sha256 _)

    -- A payload of a type that is not blank, signed at a time before year 10000, has an envelope.
    pub sign_payload-eq-ok :
        (t : ℕ)
        → is_blank payload_type ≡ false
        → t < end_of_time
        → sign_payload payload_type payload signer (p.isoformat t) previous
          ≡ ok (sealed_envelope payload_type payload signer (p.isoformat t) previous)
    unfolding sign_payload check_envelope sealed_envelope
    sign_payload-eq-ok t stated h =
        ground (arith, parse_time-isoformat t h, sealed_counts (p.isoformat t))

    sealed_signature :
        (trusted : TrustedSigner) (signed_at : String)
        → trusted.public_key_b64 ≡ public_key_b64 signer
        → signature_verifies trusted
            (sealed_envelope payload_type payload signer signed_at previous)
          ≡ true
    unfolding signature_verifies sealed_envelope signature_view public_key_b64 sign
    sealed_signature trusted signed_at own =
        verify_with_signed signer.private_key trusted.public_key_b64 _ own

    sealed_of_sign_payload :
        (signed_at : String) (e : SignedEnvelope)
        → sign_payload payload_type payload signer signed_at previous ≡ ok e
        → e ≡ sealed_envelope payload_type payload signer signed_at previous
    unfolding sign_payload check_envelope
    sealed_of_sign_payload signed_at e made = ground arith

    pub payload-sign_payload :
        (signed_at : String) (e : SignedEnvelope)
        → sign_payload payload_type payload signer signed_at previous ≡ ok e
        → e.payload ≡ payload
    unfolding sealed_envelope
    payload-sign_payload signed_at e made =
        ap (λ (d : SignedEnvelope). d.payload) (sealed_of_sign_payload signed_at e made)

    pub previous-sign_payload :
        (signed_at : String) (e : SignedEnvelope)
        → sign_payload payload_type payload signer signed_at previous ≡ ok e
        → e.previous_envelope_hash ≡ previous
    unfolding sealed_envelope
    previous-sign_payload signed_at e made =
        ap (λ (d : SignedEnvelope). d.previous_envelope_hash)
          (sealed_of_sign_payload signed_at e made)

    pub signer_id-sign_payload :
        (signed_at : String) (e : SignedEnvelope)
        → sign_payload payload_type payload signer signed_at previous ≡ ok e
        → e.signer_id ≡ signer.subject
    unfolding sealed_envelope
    signer_id-sign_payload signed_at e made =
        ap (λ (d : SignedEnvelope). d.signer_id) (sealed_of_sign_payload signed_at e made)

    -- What `sign_payload` returns verifies in every store that trusts the signer's key and subject
    -- with the required role.
    pub sign_payload-IsVerified :
        (signed_at : String) (e : SignedEnvelope) (store : TrustStore) (trusted : TrustedSigner)
        (role : Option String)
        → sign_payload payload_type payload signer signed_at previous ≡ ok e
        → lookup (key_id signer) store ≡ some trusted
        → trusted.status ≡ "ACTIVE"
        → trusted.subject ≡ signer.subject
        → trusted.public_key_b64 ≡ public_key_b64 signer
        → role_in role trusted.roles ≡ true
        → (verify_envelope e store role (some payload_type)).ok ≡ true
    sign_payload-IsVerified signed_at e store trusted role made known active subject key has_role =
        rw (sealed_of_sign_payload signed_at e made) (
          ok_of_verified (sealed_envelope payload_type payload signer signed_at previous) store role
            (some payload_type)
            (record {
              signer = trusted;
              trusted = unfold sealed_envelope in known;
              active = active;
              subject = unfold sealed_envelope in subject;
              has_role = has_role;
              has_type = unfold sealed_envelope in eq_refl payload_type;
              payload_sealed = unfold sealed_envelope in refl;
              envelope_sealed = unfold sealed_envelope hash_view in refl;
              signed = sealed_signature trusted signed_at key;
            }))
