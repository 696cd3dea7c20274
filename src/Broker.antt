-- ===== src/Broker.antt =====
-- review_broker.py: leases for one reviewed action, and the log of what became of them.
pub mod Methods
pub mod Run
pub mod Valid
pub mod Redeem
pub mod Induction
pub mod Log
pub mod Lasting
mod Tests
use Prim.Native.String.{count}
use autonomy_harbor.Base.{
  ℕ, zero, suc, ◌+◌, String, Bool, true, false, not, ◌&&◌, ◌||◌, Option, none, some, List, [], ◌∷◌,
  ◌++◌, ltb, leb, nat_eq, ◌==◌, ◌<>◌, texts_eq, is_blank, is_some, Result, ok, raised, fail,
  reject_if, value_error, key_error, Dict, lookup, insert, contains, get_or, if◌then◌else◌, ◌>>=◌,
  ◌>>◌,
}
use autonomy_harbor.Json.{Json, str, obj, fields, opt_str}
use autonomy_harbor.Json.Print.{decimal}
use autonomy_harbor.Platform.{Platform, Datetime, sha256_hex, parse_time, to_utc, add_seconds}
use autonomy_harbor.Models.{ActionRequest, GateDecision, is_review}

pub record ReviewLease : Type 0 where
  pub lease_id : String
  pub request_digest : String
  pub capability : String
  pub action : String
  pub resource : String
  pub review_grant_ids : List String
  pub issued_by : String
  pub issued_at : String
  pub expires_at : String
  pub max_uses : ℕ
  pub issuer_type : String

pub record ReviewAuthorization : Type 0 where
  pub authorized : Bool
  pub reason : String
  pub lease_id : Option String

pub data Event : Type 0 where
  issued cancelled redeemed rejected : Event

abbrev pub event_text : Event → String
event_text issued = "ISSUED"
event_text cancelled = "CANCELLED"
event_text redeemed = "REDEEMED"
event_text rejected = "REJECTED"

pub record ReviewEventReceipt : Type 0 where
  pub event : Event
  pub lease_id : String
  pub request_id : Option String
  pub request_digest : String
  pub reason : String
  pub actor : String
  pub created_at : String
  pub previous_event_hash : Option String
  pub event_hash : String

pub record ReviewBroker : Type 0 where
  pub leases : Dict ReviewLease
  pub uses : Dict ℕ
  pub cancellations : Dict String
  pub events : List ReviewEventReceipt

abbrev pub empty_broker : ReviewBroker
empty_broker = record { leases = []; uses = []; cancellations = []; events = [] }

-- `self._events[-1].event_hash if self._events else None`
unfoldable pub last_hash : List ReviewEventReceipt → Option String
last_hash [] = none
last_hash (e ∷ []) = some e.event_hash
last_hash (e ∷ f ∷ es) = last_hash (f ∷ es)

-- A method returns or raises, and leaves the broker changed by what it did before.
abbrev pub Method : Type 0 → Type 0
Method A = ReviewBroker → Result A × ReviewBroker

unfoldable pub request_body : ActionRequest → Json
request_body request = obj (
    fields (
      ("request_id", str request.request_id)
      ∷ ("capability", str request.capability)
      ∷ ("action", str request.action)
      ∷ ("resource", str request.resource)
      ∷ ("payload", obj request.payload)
      ∷ ("actor", str request.actor)
      ∷ []))

unfoldable pub event_body :
    Event → String → Option String → String → String → String → String → Option String → Json
event_body event lease_id request_id digest reason actor created_at previous = obj (
    fields (
      ("event_version", str "0.6")
      ∷ ("event", str (event_text event))
      ∷ ("lease_id", str lease_id)
      ∷ ("request_id", opt_str request_id)
      ∷ ("request_digest", str digest)
      ∷ ("reason", str reason)
      ∷ ("actor", str actor)
      ∷ ("created_at", str created_at)
      ∷ ("previous_event_hash", opt_str previous)
      ∷ []))

module _ ⦃p : Platform⦄ where
  unfoldable pub request_digest : ActionRequest → String
  request_digest request = sha256_hex (request_body request)

  -- `ReviewLease.__post_init__`
  unfoldable pub check_lease : ReviewLease → Result ReviewLease
  check_lease lease = do
    reject_if (is_blank lease.lease_id) "lease_id_is_required"
    reject_if (not (lease.issuer_type == "HUMAN")) "review_lease_must_be_human_issued"
    reject_if (is_blank lease.issued_by) "issued_by_is_required"
    reject_if (not (nat_eq lease.max_uses 1)) "v0_6_review_leases_are_one_shot"
    reject_if (not (nat_eq (count lease.request_digest) 64)) "request_digest_must_be_sha256"
    issued_time ← parse_time lease.issued_at
    expires_time ← parse_time lease.expires_at
    reject_if (leb expires_time issued_time) "expires_at_must_be_after_issued_at"
    ok lease

  -- `_append_event`; the digest is that of the event's other fields
  unfoldable pub append_event :
      Event
      → ReviewLease
      → Option String
      → String
      → String
      → String
      → ReviewBroker
      → ReviewEventReceipt × ReviewBroker
  append_event event lease request_id reason actor created_at b =
      let previous = last_hash b.events in
      let receipt : ReviewEventReceipt = record {
        event = event;
        lease_id = lease.lease_id;
        request_id = request_id;
        request_digest = lease.request_digest;
        reason = reason;
        actor = actor;
        created_at = created_at;
        previous_event_hash = previous;
        event_hash = sha256_hex (
            event_body event lease.lease_id request_id lease.request_digest reason actor created_at
              previous);
      } in
      (receipt, record b { events = b.events ++ receipt ∷ [] })

  unfoldable pub register : ReviewLease → Method (Unit {0})
  register lease b =
      if contains lease.lease_id b.leases then (fail value_error "duplicate_lease_id", b) else (
        ok tt,
        (append_event issued lease none "human_review_lease_registered" lease.issued_by
            lease.issued_at
            (record b {
              leases = insert lease.lease_id lease b.leases;
              uses = insert lease.lease_id 0 b.uses;
            })).1,
      )
