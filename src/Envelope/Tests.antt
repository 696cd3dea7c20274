-- ===== src/Envelope/Tests.antt =====
-- An envelope that is signed and verified, and the theorems at it.
use autonomy_harbor.Base.{◌≡◌, ◌↔◌, arith, refl, true, none, some, [], ◌∷◌, ok, lookup, is_blank}
use autonomy_harbor.Platform.Model.{model}
use autonomy_harbor.Gate.Fixtures.{read_request, registry}
use autonomy_harbor.Gate.{evaluate}
use autonomy_harbor.Models.{ActionReceipt}
use autonomy_harbor.Json.{end}
use autonomy_harbor.Receipt.{create_receipt}
use autonomy_harbor.Receipt.Seal.{IsSealed, create_receipt-IsSealed}
use autonomy_harbor.Envelope.{sign_payload, hash_view}
use autonomy_harbor.Envelope.Verify.{verify_envelope, verify_envelope_chain}
use autonomy_harbor.Envelope.Verified.{
  IsVerified, verify_envelope_iff, sign_payload-eq-ok, sign_payload-IsVerified,
}
use autonomy_harbor.Envelope.Tamper.{Bound, verified_binds}
use autonomy_harbor.Json.{obj}
use autonomy_harbor.Envelope.Chain.{
  IsChain, Reports, verify_envelope_chain_iff, verify_envelope_chain-Reports,
}
use autonomy_harbor.Envelope.Fixtures.{signer, trusted, store, known, note, envelope, next}

made : sign_payload "note" note signer (model.isoformat 1000000) none ≡ ok envelope
unfolding is_blank
made = sign_payload-eq-ok "note" note signer none 1000000 refl (ground arith)

verifies : (verify_envelope envelope store (some "review_issuer") (some "note")).ok ≡ true
unfolding lookup
verifies =
    sign_payload-IsVerified "note" note signer none (model.isoformat 1000000) envelope store trusted
      (some "review_issuer") made known refl refl refl refl

abbrev receipt : ActionReceipt
receipt =
    create_receipt read_request (evaluate read_request registry) registry "SUCCEEDED" end none "t"

sealed : IsSealed receipt
sealed =
    create_receipt-IsSealed read_request (evaluate read_request registry) registry "SUCCEEDED" end
      none "t"

sign_payload-IsVerified_example :
    (verify_envelope envelope store (some "review_issuer") (some "note")).ok ≡ true
unfolding lookup
sign_payload-IsVerified_example =
    sign_payload-IsVerified "note" note signer none (model.isoformat 1000000) envelope store trusted
      (some "review_issuer") made known refl refl refl refl

verify_envelope_iff_example :
    ((verify_envelope envelope store (some "review_issuer") (some "note")).ok ≡ true)
    ↔ IsVerified envelope store (some "review_issuer") (some "note")
verify_envelope_iff_example =
    verify_envelope_iff envelope store (some "review_issuer") (some "note")

verified_binds_example :
    Bound (hash_view envelope) (hash_view envelope)
    × (envelope.payload_hash ≡ envelope.payload_hash
        → Bound (obj envelope.payload) (obj envelope.payload))
verified_binds_example =
    verified_binds envelope envelope store store (some "review_issuer") (some "review_issuer")
      (some "note") (some "note") verifies verifies refl

verify_envelope_chain_iff_example :
    ((verify_envelope_chain store none (some "note") (envelope ∷ next ∷ []) none).ok ≡ true)
    ↔ IsChain store none (some "note") none (envelope ∷ next ∷ [])
verify_envelope_chain_iff_example =
    verify_envelope_chain_iff store none (some "note") none (envelope ∷ next ∷ [])

verify_envelope_chain-Reports_example :
    Reports store none
      (some "note")
      none
      0
      (next ∷ [])
      (verify_envelope_chain store none (some "note") (next ∷ []) none)
verify_envelope_chain-Reports_example =
    verify_envelope_chain-Reports store none (some "note") none (next ∷ [])
