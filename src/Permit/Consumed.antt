-- ===== src/Permit/Consumed.antt =====
-- What a consumed permit shows, and that it is consumed once.
use autonomy_harbor.Base.{
  ◌≤◌, ◌<◌, ◌≡◌, ◌∙◌, sym, ap, inl, inr, String, Bool, true, false, none, some, List, [], ◌∷◌, ◌++◌,
  any, arith, eq_iff, Result, ok, raised, Result-cases, Bool-cases, ℕ, ◌⊎◌,
}
use mathlib.Core.Path.{subst}
use autonomy_harbor.Platform.{Platform, Datetime, to_utc}
use autonomy_harbor.Models.{ActionRequest}
use autonomy_harbor.Signer.{TrustStore}
use autonomy_harbor.Envelope.{SignedEnvelope}
use autonomy_harbor.Envelope.Verified.{IsVerified, verify_envelope_iff}
use autonomy_harbor.Ledger.{Row, Sqlite, clashes, consume_permit}
use autonomy_harbor.Ledger.OneShot.{consume-cases}
use autonomy_harbor.Json.{Fields, get, has_exactly}
use autonomy_harbor.Broker.{request_digest}
use autonomy_harbor.Authorizer.{is_text_at}
use autonomy_harbor.Permit.{
  permit_fields, is_one_at, shows, PermitAuthorization, payload_refusal, request_refusal,
  span_refusal, answer_consumed, consume_within, times_of, consume_timed, consume_checked,
  consume_at, verify_and_consume_execution_permit,
}

abbrev pub is_authorized : Result PermitAuthorization → Bool
is_authorized (ok a) = a.authorized
is_authorized (raised e) = false

any-clashes_self :
    (r : Row) (rows more : List Row) → any (clashes r) ((rows ++ r ∷ []) ++ more) ≡ true
any-clashes_self r [] more = ground (arith, eq_iff r.id r.id)
any-clashes_self r (row ∷ rows) more = ground (arith, any-clashes_self r rows more)

module _ ⦃p : Platform⦄ ⦃q : Sqlite⦄ where
  -- the row that the use of a permit adds
  abbrev pub permit_row : String → SignedEnvelope → Datetime → Row
  permit_row id envelope now = record {
    id = id;
    envelope_hash = envelope.envelope_hash;
    consumed_at = p.isoformat now.instant;
  }

  -- a permit for one execution that the gate allowed, with the fields of a permit and no others
  pub record IsProper (payload : Fields) : Type 0 where
    pub exact : has_exactly permit_fields payload ≡ true
    pub version : is_text_at (get "permit_version" payload) "0.9" ≡ true
    pub effect : is_text_at (get "authority_effect" payload) "EXECUTION_ONCE" ≡ true
    pub one_use : is_one_at (get "max_uses" payload) ≡ true
    pub allowed : is_text_at (get "gate_verdict" payload) "ALLOW" ≡ true

  -- every field that names a request names this one
  pub record Names (payload : Fields) (request : ActionRequest) : Type 0 where
    pub digest : is_text_at (get "request_digest" payload) (request_digest request) ≡ true
    pub request_id : shows (get "request_id" payload) request.request_id ≡ true
    pub capability : shows (get "capability" payload) request.capability ≡ true
    pub action : shows (get "action" payload) request.action ≡ true
    pub resource : shows (get "resource" payload) request.resource ≡ true
    pub actor : shows (get "actor" payload) request.actor ≡ true

  payload_refusal-IsProper : (payload : Fields) → payload_refusal payload ≡ none → IsProper payload
  unfolding payload_refusal
  payload_refusal-IsProper payload h = record {
    exact = ground arith;
    version = ground arith;
    effect = ground arith;
    one_use = ground arith;
    allowed = ground arith;
  }

  request_refusal-Names :
      (payload : Fields) (request : ActionRequest)
      → request_refusal payload request ≡ none
      → Names payload request
  unfolding request_refusal
  request_refusal-Names payload request h = record {
    digest = ground arith;
    request_id = ground arith;
    capability = ground arith;
    action = ground arith;
    resource = ground arith;
    actor = ground arith;
  }

  module _ (envelope : SignedEnvelope) (request : ActionRequest) (store : TrustStore)
      (now : Datetime) (rows : List Row) where
    pub record IsConsumed (rows' : List Row) : Type 0 where
      pub aware : now.aware ≡ true
      pub verified :
          IsVerified envelope store (some "execution_permit_issuer") (some "execution_permit")
      pub issued : Datetime
      pub expires : Datetime
      pub id : String
      pub times : times_of envelope.payload ≡ ok (issued, expires, id)
      pub begun : issued.instant ≤ now.instant
      pub running : now.instant < expires.instant
      pub proper : IsProper envelope.payload
      pub requested : Names envelope.payload request
      pub unused : any (clashes (permit_row id envelope now)) rows ≡ false
      pub kept : rows' ≡ rows ++ permit_row id envelope now ∷ []

    -- A permit that authorizes is verified for an issuer of permits; it has exactly the fields of a
    -- permit, for one execution under ALLOW; its request digest is that of this request, and its id,
    -- capability, action, resource and actor are this request's; its span contains the time; it was in
    -- no row of the ledger, and it is in one now.
    pub IsConsumed-of_authorized :
        is_authorized (verify_and_consume_execution_permit envelope request store now rows).0 ≡ true
        → IsConsumed (verify_and_consume_execution_permit envelope request store now rows).1
    unfolding verify_and_consume_execution_permit consume_at consume_checked consume_timed
        consume_within span_refusal answer_consumed to_utc consume_permit
    IsConsumed-of_authorized h = elim (Result-cases (times_of envelope.payload)) [
      | inr (e, bad) ↦ absurd (ground arith)
      | inl ((issued, expires, id), times) ↦
          elim (consume-cases (permit_row id envelope now) rows) [
            | inr (taken, e) ↦ absurd (ground (arith, e))
            | inl (free, e) ↦ record {
              aware = ground arith;
              verified =
                  (verify_envelope_iff envelope store (some "execution_permit_issuer")
                      (some "execution_permit")).0
                    (ground arith);
              issued = issued;
              expires = expires;
              id = id;
              times = times;
              begun = ground arith;
              running = ground arith;
              proper = payload_refusal-IsProper envelope.payload (ground arith);
              requested = request_refusal-Names envelope.payload request (ground arith);
              unused = free;
              kept = ground (arith, e);
            }
          ]
    ]

  id_of : Result (Datetime × Datetime × String) → String
  id_of (ok (issued, expires, id)) = id
  id_of (raised e) = ""

  -- A permit that has authorized once authorizes no later request, at any time and under any trust
  -- store, however many rows the ledger has gained meanwhile.
  pub permit_once :
      (envelope : SignedEnvelope) (request request' : ActionRequest) (store store' : TrustStore)
      (now now' : Datetime) (rows more : List Row)
      → is_authorized (verify_and_consume_execution_permit envelope request store now rows).0 ≡ true
      → let rows' = (verify_and_consume_execution_permit envelope request store now rows).1 in
        is_authorized
          (verify_and_consume_execution_permit envelope request' store' now' (rows' ++ more)).0
        ≡ false
  unfolding id_of
  permit_once envelope request request' store store' now now' rows more h =
      let rows' = (verify_and_consume_execution_permit envelope request store now rows).1 in
      let first = IsConsumed-of_authorized envelope request store now rows h in
      elim (Bool-cases (
        is_authorized
          (verify_and_consume_execution_permit envelope request' store' now' (rows' ++ more)).0)) [
            | inr refused ↦ refused
            | inl again ↦
                let second =
                  IsConsumed-of_authorized envelope request' store' now' (rows' ++ more) again in
                let same : first.id ≡ second.id = ap id_of (sym first.times ∙ second.times) in
                let taken = any-clashes_self (permit_row first.id envelope now) rows more in
                let free : any (clashes (permit_row first.id envelope now))
                      ((rows ++ permit_row first.id envelope now ∷ []) ++ more)
                    ≡ false =
                  subst
                    (λ id.
                      any (clashes (permit_row id envelope now'))
                        ((rows ++ permit_row first.id envelope now ∷ []) ++ more)
                      ≡ false)
                    (sym same)
                    (subst
                      (λ rs.
                        any (clashes (permit_row second.id envelope now')) (rs ++ more) ≡ false)
                      first.kept second.unused) in
                absurd (ground (arith, taken, free))
          ]

  rows_after :
      (envelope : SignedEnvelope) (request : ActionRequest) (store : TrustStore) (now : Datetime)
      (rows : List Row) (issued expires : Datetime) (id : String) (current : ℕ)
      → times_of envelope.payload ≡ ok (issued, expires, id)
      → to_utc now ≡ ok current
      → let rows' = (verify_and_consume_execution_permit envelope request store now rows).1 in
        ((rows' ≡ rows) ⊎ (r : Row) × (rows' ≡ rows ++ r ∷ []))
  unfolding verify_and_consume_execution_permit consume_at consume_checked consume_timed
      consume_within answer_consumed consume_permit
  rows_after envelope request store now rows issued expires id current times aware =
      let r : Row = record {
        id = id;
        envelope_hash = envelope.envelope_hash;
        consumed_at = p.isoformat current;
      } in
      elim (consume-cases r rows) [
        | inr (taken, e) ↦ inl (ground (arith, e, times, aware))
        | inl (free, e) ↦ rows_of_either r (ground (arith, e, times, aware))
      ]
    where
      rows_of_either :
          (r : Row)
          → (((verify_and_consume_execution_permit envelope request store now rows).1 ≡ rows)
              ⊎ ((verify_and_consume_execution_permit envelope request store now rows).1
                  ≡ rows ++ r ∷ []))
          → let rows' = (verify_and_consume_execution_permit envelope request store now rows).1 in
            ((rows' ≡ rows) ⊎ (r : Row) × (rows' ≡ rows ++ r ∷ []))
      rows_of_either r (inl same) = inl same
      rows_of_either r (inr more) = inr (r, more)

  -- A call adds at most one row.
  pub verify_and_consume-rows :
      (envelope : SignedEnvelope) (request : ActionRequest) (store : TrustStore) (now : Datetime)
      (rows : List Row)
      → let rows' = (verify_and_consume_execution_permit envelope request store now rows).1 in
        ((rows' ≡ rows) ⊎ (r : Row) × (rows' ≡ rows ++ r ∷ []))
  unfolding verify_and_consume_execution_permit consume_at consume_checked consume_timed
      consume_within answer_consumed consume_permit
  verify_and_consume-rows envelope request store now rows =
      elim (Result-cases (times_of envelope.payload)) [
        | inr (e, bad) ↦ inl (ground arith)
        | inl ((issued, expires, id), times) ↦ elim (Result-cases (to_utc now)) [
          | inr (e, naive) ↦ inl (ground arith)
          | inl (current, aware) ↦
              rows_after envelope request store now rows issued expires id current times aware
        ]
      ]
