-- ===== src/Broker/Log.antt =====
-- The log of a broker: it is only ever extended, and its events are chained by their digests.
use autonomy_harbor.Base.{◌≡◌, refl, ap, sym, ◌∙◌, String, Option, none, some, List, [], ◌∷◌, ◌++◌}
use mathlib.Core.List.{append_assoc, append-nil}
use autonomy_harbor.Platform.{Platform, sha256_hex}
use autonomy_harbor.Broker.{
  ReviewEventReceipt, ReviewBroker, empty_broker, last_hash, event_body, append_event,
}
use autonomy_harbor.Broker.Run.{Call, run}
use autonomy_harbor.Broker.Induction.{IsKept, run-kept}

-- the events behind those of `es`
pub record Extends (es fs : List ReviewEventReceipt) : Type 0 where
  pub more : List ReviewEventReceipt
  pub grown : fs ≡ es ++ more

Extends-snoc :
    (es fs : List ReviewEventReceipt) (e : ReviewEventReceipt)
    → Extends es fs
    → Extends es (fs ++ e ∷ [])
Extends-snoc es fs e h = record {
  more = h.more ++ e ∷ [];
  grown = ap (λ gs. gs ++ e ∷ []) h.grown ∙ append_assoc es h.more (e ∷ []);
}

module _ ⦃p : Platform⦄ where
  extending : (es : List ReviewEventReceipt) → IsKept (λ b. Extends es b.events)
  unfolding append_event
  extending es = record {
    on_append = λ event lease request_id reason actor created_at b h. Extends-snoc es b.events _ h;
    on_enter = λ lease b free h. record { more = h.more; grown = h.grown };
    on_mark = λ lease_id reason b h. record { more = h.more; grown = h.grown };
    on_use = λ lease_id b h. record { more = h.more; grown = h.grown };
  }

  -- No call removes or rewrites an event: the log that a broker had is the front of the log that it
  -- has later.
  pub run-Extends : (cs : List Call) (b : ReviewBroker) → Extends b.events (run cs b).events
  run-Extends cs b =
      run-kept (extending b.events) cs b (record { more = []; grown = sym (append-nil b.events) })

  -- Each event names the digest of the event before it, and carries the digest of its own fields.
  abbrev pub IsChained : Option String → List ReviewEventReceipt → Type 0
  IsChained previous [] = Unit
  IsChained previous (e ∷ es) =
      (e.previous_event_hash ≡ previous)
      × (e.event_hash
          ≡ sha256_hex (
              event_body e.event e.lease_id e.request_id e.request_digest e.reason e.actor
                e.created_at e.previous_event_hash))
      × IsChained (some e.event_hash) es

  abbrev tip : Option String → List ReviewEventReceipt → Option String
  tip previous [] = previous
  tip previous (e ∷ es) = tip (some e.event_hash) es

  last_hash-tip : (es : List ReviewEventReceipt) → last_hash es ≡ tip none es
  unfolding last_hash
  last_hash-tip [] = refl
  last_hash-tip (e ∷ []) = refl
  last_hash-tip (e ∷ f ∷ es) = last_hash-tip (f ∷ es)

  IsChained-snoc :
      (previous : Option String) (es : List ReviewEventReceipt) (e : ReviewEventReceipt)
      → IsChained previous es
      → IsChained (tip previous es) (e ∷ [])
      → IsChained previous (es ++ e ∷ [])
  IsChained-snoc previous [] e h k = k
  IsChained-snoc previous (x ∷ es) e h k = (h.0, h.1, IsChained-snoc (some x.event_hash) es e h.2 k)

  chaining : IsKept (λ b. IsChained none b.events)
  unfolding append_event
  chaining = record {
    on_append = λ event lease request_id reason actor created_at b h.
        IsChained-snoc none b.events _ h (last_hash-tip b.events, refl, tt);
    on_enter = λ lease b free h. h;
    on_mark = λ lease_id reason b h. h;
    on_use = λ lease_id b h. h;
  }

  -- The log of a broker is a chain from its first event, whatever was called on it.
  pub run-IsChained : (cs : List Call) → IsChained none (run cs empty_broker).events
  run-IsChained cs = run-kept chaining cs empty_broker tt
