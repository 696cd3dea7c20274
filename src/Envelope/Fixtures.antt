-- ===== src/Envelope/Fixtures.antt =====
-- A trusted signer, and an envelope that it signs.
use autonomy_harbor.Base.{◌≡◌, none, some, [], ◌∷◌, lookup, arith, eq_refl}
use autonomy_harbor.Json.{str, Fields, fields}
use autonomy_harbor.Platform.Model.{model}
use autonomy_harbor.Signer.{Signer, TrustedSigner, TrustStore, key_id, public_key_b64}
use autonomy_harbor.Envelope.{SignedEnvelope, sealed_envelope}

abbrev pub signer : Signer
signer = record { subject = "human"; private_key = 7 ∷ 9 ∷ [] }

abbrev pub trusted : TrustedSigner
trusted = record {
  key_id = key_id signer;
  subject = "human";
  public_key_b64 = public_key_b64 signer;
  roles =
      "capability_authority" ∷ "execution_permit_issuer" ∷ "executor_result_signer"
      ∷ "promotion_evidence_issuer" ∷ "review_issuer" ∷ [];
  status = "ACTIVE";
}

abbrev pub store : TrustStore
store = (key_id signer, trusted) ∷ []

abbrev pub note : Fields
note = fields (("text", str "hello") ∷ [])

abbrev pub envelope : SignedEnvelope
envelope = sealed_envelope "note" note signer (model.isoformat 1000000) none

abbrev pub next : SignedEnvelope
next = sealed_envelope "note" note signer (model.isoformat 2000000) (some envelope.envelope_hash)

pub known : lookup (key_id signer) store ≡ some trusted
unfolding lookup
known = ground (arith, eq_refl (key_id signer))
