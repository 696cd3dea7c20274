-- ===== src/Services.antt =====
-- The services of the appliance (appliance_services.py): each handler goes from a message and the
-- state of its process to a reply and a state. What a process loads when it starts is an argument.
pub mod Planner
pub mod Review
pub mod Gate
pub mod Executor
pub mod Verifier
pub mod Bridge
pub mod Profile
pub mod Acts
pub mod Chain
pub mod Dispatched
pub mod Submits
pub mod Fixtures
mod Tests
use autonomy_harbor.Base.{
  ℕ, pos, String, Bool, true, false, Option, none, some, List, [], ◌∷◌, Result, ok, raised, fail,
  type_error, ◌>>=◌,
}
use autonomy_harbor.Json.{
  Json, null, bool, int, str, arr, obj, Items, nil, cons, Fields, end, fields, get, put, strs,
}
use autonomy_harbor.Platform.{Platform, text_of}
use autonomy_harbor.Signer.{TrustedSigner, TrustStore, make_trusted_signer, add_signer}
use autonomy_harbor.Envelope.{SignedEnvelope, required, dict_of, from_dict}
use autonomy_harbor.Authorizer.{is_text_at, class_name, each_text}
use autonomy_harbor.Registry.{or_default}
use autonomy_harbor.Models.{ActionRequest}
use autonomy_harbor.Permit.Messages.{action_request_from_dict}

-- `message.get("op") == op`
abbrev pub has_op : String → Fields → Bool
has_op op message = is_text_at (get "op" message) op

abbrev set_default : String → Json → Fields → Fields
set_default k v d = elim (get k d) [ none ↦ put k v d | some w ↦ d ]

-- What `serve_unix_json` sends for what a handler returns or raises, but for a shutdown.
unfoldable pub response : ℕ → Result Fields → Fields
response pid (ok reply) =
    set_default "service_pid" (int (pos pid)) (set_default "ok" (bool true) reply)
response pid (raised e) = fields (
    ("ok", bool false)
    ∷ ("service_pid", int (pos pid))
    ∷ ("error", str (class_name e.kind))
    ∷ ("reason", str e.message)
    ∷ [])

unfoldable pub trusted_signer_dict : TrustedSigner → Fields
trusted_signer_dict signer = fields (
    ("key_id", str signer.key_id)
    ∷ ("subject", str signer.subject)
    ∷ ("public_key_b64", str signer.public_key_b64)
    ∷ ("roles", arr (strs signer.roles))
    ∷ ("status", str signer.status)
    ∷ [])

module _ ⦃p : Platform⦄ where
  unfoldable pub trusted_signer_from : Json → Result TrustedSigner
  trusted_signer_from value = do
    v ← dict_of value
    key_id ← required "key_id" v
    subject ← required "subject" v
    public_key ← required "public_key_b64" v
    raw ← required "roles" v
    roles ← each_text raw
    make_trusted_signer (text_of key_id) (text_of subject) (text_of public_key) roles
        (text_of (or_default (get "status" v) (str "ACTIVE")))

  unfoldable pub fill_store : Items → TrustStore → Result TrustStore
  fill_store nil store = ok store
  fill_store (cons v vs) store = do
    signer ← trusted_signer_from v
    store' ← add_signer signer (ok store)
    fill_store vs store'

  unfoldable pub trust_store_from_list : Items → Result TrustStore
  trust_store_from_list values = fill_store values []

  -- `action_request_from_dict(message["request"])`
  unfoldable pub request_in : Fields → Result ActionRequest
  request_in message = do
    raw ← required "request" message
    value ← dict_of raw
    action_request_from_dict value

  -- `SignedEnvelope.from_dict(message[k])`
  unfoldable pub envelope_in : String → Fields → Result SignedEnvelope
  envelope_in k message = do raw ← required k message; value ← dict_of raw; from_dict value
