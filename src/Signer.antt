-- ===== src/Signer.antt =====
-- The signers of verifiable.py: keys that sign, public keys that are trusted, and the store of these.
use autonomy_harbor.Base.{
  ℕ, String, not, ◌||◌, Option, none, some, List, [], ◌∷◌, ◌==◌, ◌<>◌, first, nat_eq, length,
  is_blank, sorted_set, Result, ok, raised, fail, reject_if, value_error, Dict, insert, contains,
  if◌then◌else◌, ◌>>◌,
}
use autonomy_harbor.Platform.{Platform}

pub record TrustedSigner : Type 0 where
  pub key_id : String
  pub subject : String
  pub public_key_b64 : String
  pub roles : List String
  pub status : String

-- `TrustStore`: the signers at their key ids
abbrev pub TrustStore : Type 0
TrustStore = Dict TrustedSigner

-- `Ed25519Signer`; the public key and the key id are computed from the private key
pub record Signer : Type 0 where
  pub subject : String
  pub private_key : List ℕ

unfoldable pub add_signer : TrustedSigner → Result TrustStore → Result TrustStore
add_signer signer (raised e) = raised e
add_signer signer (ok store) =
    if contains signer.key_id store
    then fail value_error "duplicate_trusted_signer_key_id"
    else ok (insert signer.key_id signer store)

add_signers : List TrustedSigner → Result TrustStore → Result TrustStore
add_signers [] store = store
add_signers (s ∷ ss) store = add_signers ss (add_signer s store)

unfoldable pub make_trust_store : List TrustedSigner → Result TrustStore
unfolding add_signer add_signers
make_trust_store signers = add_signers signers (ok [])

module _ ⦃p : Platform⦄ where
  unfoldable pub key_id_of : List ℕ → String
  key_id_of raw = "ed25519-" <> first 24 (p.sha256 raw)

  check_key : Option (List ℕ) → String → Result (Unit {0})
  check_key none key_id = fail value_error "invalid_public_key_encoding"
  check_key (some raw) key_id = do
    reject_if (not (nat_eq (length raw) 32)) "ed25519_public_key_must_be_32_bytes"
    reject_if (not (key_id == key_id_of raw)) "key_id_does_not_match_public_key"

  unfoldable pub make_trusted_signer :
      String → String → String → List String → String → Result TrustedSigner
  unfolding check_key
  make_trusted_signer key_id subject public_key_b64 roles status = do
    reject_if (is_blank key_id || is_blank subject) "trusted_signer_identity_is_required"
    reject_if (not (status == "ACTIVE" || status == "REVOKED")) "invalid_signer_status"
    check_key (p.b64decode public_key_b64) key_id
    ok (record {
      key_id = key_id;
      subject = subject;
      public_key_b64 = public_key_b64;
      roles = sorted_set roles;
      status = status;
    })

  unfoldable pub make_signer : String → List ℕ → Result Signer
  make_signer subject private_key = do
    reject_if (is_blank subject) "signer_subject_is_required"
    ok (record { subject = subject; private_key = private_key })

  unfoldable pub key_id : Signer → String
  key_id signer = key_id_of (p.public_key signer.private_key)

  unfoldable pub public_key_b64 : Signer → String
  public_key_b64 signer = p.b64encode (p.public_key signer.private_key)

  unfoldable pub trusted_record : Signer → List String → Result TrustedSigner
  trusted_record signer roles =
      make_trusted_signer (key_id signer) signer.subject (public_key_b64 signer) roles "ACTIVE"

  unfoldable pub sign : Signer → List ℕ → String
  sign signer message = p.b64encode (p.ed25519_sign signer.private_key message)
