-- ===== src/Envelope/Tamper.antt =====
-- What a digest binds: to change what was hashed, and keep the digest, takes a collision of SHA-256.
use native.Mathlib.Decide.{ℕ_discrete}
use autonomy_harbor.Base.{ℕ, ◌≡◌, ◌≢◌, ◌⊎◌, ◌∙◌, sym, true, inl, inr, Option, List, String}
use autonomy_harbor.Json.{Json, obj}
use autonomy_harbor.Json.Print.{canonical_bytes}
use autonomy_harbor.Platform.{Platform, sha256_hex}
use autonomy_harbor.Signer.{TrustStore}
use autonomy_harbor.Envelope.{SignedEnvelope, hash_view}
use autonomy_harbor.Envelope.Verify.{verify_envelope}
use autonomy_harbor.Envelope.Verified.{verify_envelope_iff}
use autonomy_harbor.Models.{ActionReceipt}
use autonomy_harbor.Receipt.Seal.{audited_body, IsSealed}

bytes_discrete : Discrete (List ℕ)
bytes_discrete = hlevel ℕ_discrete

module _ ⦃p : Platform⦄ where
  -- these two messages are a collision of SHA-256
  pub record Collision (left right : List ℕ) : Type 0 where
    pub differ : left ≢ right
    pub same : p.sha256 left ≡ p.sha256 right

  -- the bytes that are hashed of two values are the same, or they collide
  abbrev pub Bound : Json → Json → Type 0
  Bound v w =
      (canonical_bytes v ≡ canonical_bytes w) ⊎ Collision (canonical_bytes v) (canonical_bytes w)

  digest_binds : (v w : Json) → sha256_hex v ≡ sha256_hex w → Bound v w
  unfolding sha256_hex
  digest_binds v w h = elim (bytes_discrete (canonical_bytes v) (canonical_bytes w)) [
    | yes e ↦ inl e
    | no n ↦ inr (record { differ = n; same = h })
  ]

  -- Two envelopes that verify, in whatever stores, with one envelope digest have the same hashed
  -- bytes, or these bytes of the two are themselves a collision of SHA-256; and if they also name one
  -- payload digest, the same holds of the bytes of their payloads.
  pub verified_binds :
      (d e : SignedEnvelope) (store store' : TrustStore) (role role' type type' : Option String)
      → (verify_envelope d store role type).ok ≡ true
      → (verify_envelope e store' role' type').ok ≡ true
      → d.envelope_hash ≡ e.envelope_hash
      → Bound (hash_view d) (hash_view e)
        × (d.payload_hash ≡ e.payload_hash → Bound (obj d.payload) (obj e.payload))
  verified_binds d e store store' role role' type type' hd he same =
      let vd = (verify_envelope_iff d store role type).0 hd in
      let ve = (verify_envelope_iff e store' role' type').0 he in
      (
        digest_binds (hash_view d) (hash_view e)
            (sym vd.envelope_sealed ∙ same ∙ ve.envelope_sealed),
        λ h.
            digest_binds (obj d.payload) (obj e.payload)
              (sym vd.payload_sealed ∙ h ∙ ve.payload_sealed),
      )

  -- Two sealed receipts with one digest have the same bytes, or their bytes collide.
  pub sealed_binds :
      (r s : ActionReceipt)
      → IsSealed r
      → IsSealed s
      → r.receipt_hash ≡ s.receipt_hash
      → Bound (audited_body r) (audited_body s)
  sealed_binds r s hr hs same = digest_binds (audited_body r) (audited_body s) (sym hr ∙ same ∙ hs)
