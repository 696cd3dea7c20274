-- ===== src/Envelope.antt =====
-- The signed envelopes of verifiable.py.
pub mod Verify
pub mod Verified
pub mod Tamper
pub mod Chain
pub mod Fixtures
mod Tests
use Prim.Native.String.{count}
use autonomy_harbor.Base.{
  ℕ, String, Bool, true, false, not, ◌&&◌, ◌||◌, Option, none, some, List, [], ◌∷◌, ◌++◌, ◌==◌,
  nat_eq, mem_text, is_blank, all, Result, ok, raised, fail, reject_if, value_error, key_error,
  type_error, lookup, if◌then◌else◌, ◌>>=◌, ◌>>◌,
}
use autonomy_harbor.Json.{Json, null, str, obj, Fields, fields, get, opt_str}
use autonomy_harbor.Json.Print.{canonical_bytes}
use autonomy_harbor.Platform.{Platform, parse_time, sha256_hex, text_of}
use autonomy_harbor.Signer.{TrustedSigner, TrustStore, Signer, key_id, sign}

abbrev pub envelope_version : String
envelope_version = "0.7"

abbrev pub signature_algorithm : String
signature_algorithm = "Ed25519"

pub record SignedEnvelope : Type 0 where
  pub envelope_version : String
  pub payload_type : String
  pub payload : Fields
  pub payload_hash : String
  pub signer_id : String
  pub key_id : String
  pub signature_algorithm : String
  pub signed_at : String
  pub signature : String
  pub previous_envelope_hash : Option String
  pub envelope_hash : String

-- The entries that are signed, by their values.
unfoldable pub view_of :
    String
    → String
    → Fields
    → String
    → String
    → String
    → String
    → String
    → Option String
    → List (String × Json)
view_of version payload_type payload payload_hash signer_id key algorithm signed_at previous =
    ("envelope_version", str version)
    ∷ ("payload_type", str payload_type)
    ∷ ("payload", obj payload)
    ∷ ("payload_hash", str payload_hash)
    ∷ ("signer_id", str signer_id)
    ∷ ("key_id", str key)
    ∷ ("signature_algorithm", str algorithm)
    ∷ ("signed_at", str signed_at)
    ∷ ("previous_envelope_hash", opt_str previous)
    ∷ []

abbrev with_signature : List (String × Json) → String → List (String × Json)
with_signature view signature = view ++ ("signature", str signature) ∷ []

unfoldable pub signature_view : SignedEnvelope → Json
unfolding view_of
signature_view e = obj (
    fields (
      view_of e.envelope_version e.payload_type e.payload e.payload_hash e.signer_id e.key_id
        e.signature_algorithm e.signed_at e.previous_envelope_hash))

unfoldable pub hash_view : SignedEnvelope → Json
unfolding view_of
hash_view e = obj (
    fields (
      with_signature
        (view_of e.envelope_version e.payload_type e.payload e.payload_hash e.signer_id e.key_id
          e.signature_algorithm e.signed_at e.previous_envelope_hash)
        e.signature))

unfoldable pub as_dict : SignedEnvelope → Fields
unfolding view_of
as_dict e = fields (
    with_signature
      (view_of e.envelope_version e.payload_type e.payload e.payload_hash e.signer_id e.key_id
        e.signature_algorithm e.signed_at e.previous_envelope_hash)
      e.signature
    ++ ("envelope_hash", str e.envelope_hash) ∷ [])

-- `value[k]`
abbrev pub required : String → Fields → Result Json
required k d = elim (get k d) [ none ↦ fail key_error k | some v ↦ ok v ]

-- `dict(v)`, of a dictionary. Python also takes a list of pairs, which is refused here.
abbrev pub dict_of : Json → Result Fields
dict_of (obj d) = ok d
dict_of v = fail type_error "not a dictionary"

module _ ⦃p : Platform⦄ where
  -- `SignedEnvelope.__post_init__`
  unfoldable pub check_envelope : SignedEnvelope → Result SignedEnvelope
  check_envelope e = do
    reject_if (not (e.envelope_version == envelope_version)) "unsupported_envelope_version"
    reject_if (not (e.signature_algorithm == signature_algorithm)) "unsupported_signature_algorithm"
    reject_if (not (nat_eq (count e.payload_hash) 64) || not (nat_eq (count e.envelope_hash) 64))
        "envelope_hashes_must_be_sha256"
    signed_time ← parse_time e.signed_at
    ok e

  optional_text : Option Json → Option String
  optional_text none = none
  optional_text (some null) = none
  optional_text (some v) = some (text_of v)

  unfoldable pub from_dict : Fields → Result SignedEnvelope
  unfolding optional_text
  from_dict value = do
    version ← required "envelope_version" value
    payload_type ← required "payload_type" value
    raw ← required "payload" value
    payload ← dict_of raw
    payload_hash ← required "payload_hash" value
    signer_id ← required "signer_id" value
    key ← required "key_id" value
    algorithm ← required "signature_algorithm" value
    signed_at ← required "signed_at" value
    signature ← required "signature" value
    envelope_hash ← required "envelope_hash" value
    check_envelope (record {
      envelope_version = text_of version;
      payload_type = text_of payload_type;
      payload = payload;
      payload_hash = text_of payload_hash;
      signer_id = text_of signer_id;
      key_id = text_of key;
      signature_algorithm = text_of algorithm;
      signed_at = text_of signed_at;
      signature = text_of signature;
      previous_envelope_hash = optional_text (get "previous_envelope_hash" value);
      envelope_hash = text_of envelope_hash;
    })

  -- The envelope that `sign_payload` builds, before its class checks it.
  unfoldable pub sealed_envelope :
      String → Fields → Signer → String → Option String → SignedEnvelope
  unfolding view_of
  sealed_envelope payload_type payload signer signed_at previous =
      let payload_hash = sha256_hex (obj payload) in
      let view =
        view_of envelope_version payload_type payload payload_hash signer.subject (key_id signer)
          signature_algorithm signed_at previous in
      let signature = sign signer (canonical_bytes (obj (fields view))) in
      record {
        envelope_version = envelope_version;
        payload_type = payload_type;
        payload = payload;
        payload_hash = payload_hash;
        signer_id = signer.subject;
        key_id = key_id signer;
        signature_algorithm = signature_algorithm;
        signed_at = signed_at;
        signature = signature;
        previous_envelope_hash = previous;
        envelope_hash = sha256_hex (obj (fields (with_signature view signature)));
      }

  -- `signed_at` is the time that the caller gives, or that of the clock.
  unfoldable pub sign_payload :
      String → Fields → Signer → String → Option String → Result SignedEnvelope
  sign_payload payload_type payload signer signed_at previous = do
    reject_if (is_blank payload_type) "payload_type_is_required"
    check_envelope (sealed_envelope payload_type payload signer signed_at previous)
