-- ===== src/Envelope/Verify.antt =====
-- `verify_envelope` and `verify_envelope_chain`.
use autonomy_harbor.Base.{
  ℕ, suc, String, Bool, true, false, not, ◌&&◌, Option, none, some, List, [], ◌∷◌, ◌==◌, mem_text,
  is_some, lookup, if◌then◌else◌,
}
use autonomy_harbor.Json.{obj}
use autonomy_harbor.Json.Print.{canonical_bytes}
use autonomy_harbor.Platform.{Platform, sha256_hex}
use autonomy_harbor.Signer.{TrustedSigner, TrustStore}
use autonomy_harbor.Envelope.{SignedEnvelope, signature_view, hash_view}

pub record VerificationResult : Type 0 where
  pub ok : Bool
  pub payload_hash_ok : Bool
  pub envelope_hash_ok : Bool
  pub signer_trusted : Bool
  pub signer_active : Bool
  pub signer_subject_ok : Bool
  pub role_ok : Bool
  pub signature_ok : Bool
  pub reason : String

-- the name of the first check that failed
unfoldable pub first_failure : List (String × Bool) → String
first_failure [] = "verified"
first_failure ((name, passed) ∷ checks) = if passed then first_failure checks else name

unfoldable pub all_passed : List (String × Bool) → Bool
all_passed [] = true
all_passed ((name, passed) ∷ checks) = passed && all_passed checks

abbrev pub is_or_absent : Option String → String → Bool
is_or_absent none t = true
is_or_absent (some u) t = t == u

abbrev pub role_in : Option String → List String → Bool
role_in none roles = true
role_in (some r) roles = mem_text r roles

abbrev pub opt_eq : Option String → Option String → Bool
opt_eq none none = true
opt_eq (some s) (some t) = s == t
opt_eq _ _ = false

module _ ⦃p : Platform⦄ where
  -- whether the decoded key verifies the decoded signature; what is raised on the way is caught
  unfoldable pub verify_with : Option (List ℕ) → Option (List ℕ) → List ℕ → Bool
  verify_with none signature message = false
  verify_with (some key) none message = false
  verify_with (some key) (some signature) message = p.ed25519_verify key signature message

  unfoldable pub signature_verifies : TrustedSigner → SignedEnvelope → Bool
  signature_verifies signer e =
      verify_with (p.b64decode signer.public_key_b64) (p.b64decode e.signature)
        (canonical_bytes (signature_view e))

  -- a check on the trusted signer, which fails where there is none
  abbrev pub on_signer : Option TrustedSigner → (TrustedSigner → Bool) → Bool
  on_signer none test = false
  on_signer (some s) test = test s

  unfoldable pub checks_of :
      SignedEnvelope → Option TrustedSigner → Option String → Option String → List (String × Bool)
  checks_of e trusted role payload_type =
      ("payload_hash_mismatch", e.payload_hash == sha256_hex (obj e.payload))
      ∷ ("envelope_hash_mismatch", e.envelope_hash == sha256_hex (hash_view e))
      ∷ ("untrusted_signer", is_some trusted)
      ∷ ("signer_revoked", on_signer trusted (λ s. s.status == "ACTIVE"))
      ∷ ("signer_subject_mismatch", on_signer trusted (λ s. s.subject == e.signer_id))
      ∷ ("role_not_allowed", on_signer trusted (λ s. role_in role s.roles))
      ∷ ("payload_type_mismatch", is_or_absent payload_type e.payload_type)
      ∷ ("signature_invalid", on_signer trusted (λ s. signature_verifies s e))
      ∷ []

  unfoldable pub verify_envelope :
      SignedEnvelope → TrustStore → Option String → Option String → VerificationResult
  verify_envelope e store role payload_type =
      let trusted = lookup e.key_id store in
      let checks = checks_of e trusted role payload_type in
      record {
        ok = all_passed checks;
        payload_hash_ok = e.payload_hash == sha256_hex (obj e.payload);
        envelope_hash_ok = e.envelope_hash == sha256_hex (hash_view e);
        signer_trusted = is_some trusted;
        signer_active = on_signer trusted (λ s. s.status == "ACTIVE");
        signer_subject_ok = on_signer trusted (λ s. s.subject == e.signer_id);
        role_ok = on_signer trusted (λ s. role_in role s.roles);
        signature_ok = on_signer trusted (λ s. signature_verifies s e);
        reason = first_failure checks;
      }

pub record EnvelopeChainResult : Type 0 where
  pub ok : Bool
  pub verified_count : ℕ
  pub failed_index : Option ℕ
  pub reason : String

module _ ⦃p : Platform⦄ (store : TrustStore) (role payload_type : Option String) where
  -- The loop; `count` and the index of the envelope at hand are one number.
  unfoldable pub chain_from : Option String → ℕ → List SignedEnvelope → EnvelopeChainResult
  chain_from previous count [] = record {
    ok = true;
    verified_count = count;
    failed_index = none;
    reason = "verified";
  }
  chain_from previous count (e ∷ es) =
      let verified = verify_envelope e store role payload_type in
      let rest = chain_from (some e.envelope_hash) (suc count) es in
      if not verified.ok
      then record {
        ok = false;
        verified_count = count;
        failed_index = some count;
        reason = verified.reason;
      }
      else if not (opt_eq e.previous_envelope_hash previous)
      then record {
        ok = false;
        verified_count = count;
        failed_index = some count;
        reason = "previous_envelope_hash_mismatch";
      }
      else rest

  unfoldable pub verify_envelope_chain : List SignedEnvelope → Option String → EnvelopeChainResult
  verify_envelope_chain envelopes expected_previous = chain_from expected_previous 0 envelopes
