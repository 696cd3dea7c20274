-- ===== src/Envelope/Chain.antt =====
-- What the check of a chain of envelopes finds.
use autonomy_harbor.Base.{
  ℕ, suc, ◌+◌, ◌<◌, ◌≡◌, refl, ◌↔◌, ◌⊎◌, String, true, false, Option, none, some, List, [], ◌∷◌,
  arith, eq_iff, length, take, Bool-cases, inl, inr,
}
use mathlib.Core.Path.{subst}
use autonomy_harbor.Platform.{Platform}
use autonomy_harbor.Signer.{TrustStore}
use autonomy_harbor.Envelope.{SignedEnvelope}
use autonomy_harbor.Envelope.Verify.{
  opt_eq, verify_envelope, EnvelopeChainResult, chain_from, verify_envelope_chain,
}

pub opt_eq_iff : (a b : Option String) → (opt_eq a b ≡ true) ↔ (a ≡ b)
opt_eq_iff none none = ground arith
opt_eq_iff none (some t) = ground arith
opt_eq_iff (some s) none = ground arith
opt_eq_iff (some s) (some t) = ground (arith, eq_iff s t)

module _ ⦃p : Platform⦄ (store : TrustStore) (role payload_type : Option String) where
  -- Every envelope verifies, and names the digest of the one before it.
  abbrev pub IsChain : Option String → List SignedEnvelope → Type 0
  IsChain previous [] = Unit
  IsChain previous (e ∷ es) =
      ((verify_envelope e store role payload_type).ok ≡ true)
      × (e.previous_envelope_hash ≡ previous)
      × IsChain (some e.envelope_hash) es

  IsChain-of_ok :
      (previous : Option String) (n : ℕ) (es : List SignedEnvelope)
      → (chain_from store role payload_type previous n es).ok ≡ true
      → IsChain previous es
  unfolding chain_from
  IsChain-of_ok previous n [] h = tt
  IsChain-of_ok previous n (e ∷ es) h = ground (
    arith,
    opt_eq_iff e.previous_envelope_hash previous,
    IsChain-of_ok (some e.envelope_hash) (suc n) es,
  )

  ok_of_chain :
      (previous : Option String) (n : ℕ) (es : List SignedEnvelope)
      → IsChain previous es
      → (chain_from store role payload_type previous n es).ok ≡ true
  unfolding chain_from
  ok_of_chain previous n [] c = refl
  ok_of_chain previous n (e ∷ es) c = ground (
    arith,
    opt_eq_iff e.previous_envelope_hash previous,
    ok_of_chain (some e.envelope_hash) (suc n) es,
  )

  -- At a failure the result names the first bad envelope, after a good chain; else it counts all.
  abbrev pub Reports : Option String → ℕ → List SignedEnvelope → EnvelopeChainResult → Type 0
  Reports previous n es r =
      ((r.ok ≡ true) × (r.verified_count ≡ n + length es) × (r.failed_index ≡ none))
      ⊎ (k : ℕ) × (r.ok ≡ false)
        × (k < length es)
        × (r.verified_count ≡ n + k)
        × (r.failed_index ≡ some (n + k))
        × IsChain previous (take k es)
        × ¬ IsChain previous (take (suc k) es)

  Reports-cons :
      (previous : Option String) (n : ℕ) (e : SignedEnvelope) (es : List SignedEnvelope)
      (r : EnvelopeChainResult)
      → (verify_envelope e store role payload_type).ok ≡ true
      → e.previous_envelope_hash ≡ previous
      → Reports (some e.envelope_hash) (suc n) es r
      → Reports previous n (e ∷ es) r
  Reports-cons previous n e es r good linked (inl (o, c, f)) = inl (o, ground arith, f)
  Reports-cons previous n e es r good linked (inr (k, o, b, c, f, g, bad)) =
      inr
        (suc k, o, ground arith, ground arith, ground arith, (good, linked, g), λ (v, l, c). bad c)

  chain_from-step :
      (previous : Option String) (n : ℕ) (e : SignedEnvelope) (es : List SignedEnvelope)
      → (verify_envelope e store role payload_type).ok ≡ true
      → opt_eq e.previous_envelope_hash previous ≡ true
      → chain_from store role payload_type (some e.envelope_hash) (suc n) es
        ≡ chain_from store role payload_type previous n (e ∷ es)
  unfolding chain_from
  chain_from-step previous n e es good linked = rw (good, linked) refl

  Reports-unverified :
      (previous : Option String) (n : ℕ) (e : SignedEnvelope) (es : List SignedEnvelope)
      → (verify_envelope e store role payload_type).ok ≡ false
      → Reports previous n (e ∷ es) (chain_from store role payload_type previous n (e ∷ es))
  unfolding chain_from
  Reports-unverified previous n e es bad =
      rw (bad)
        (inr (0, refl, ground arith, ground arith, ground arith, tt, λ (v, l, c). ground arith))

  Reports-unlinked :
      (previous : Option String) (n : ℕ) (e : SignedEnvelope) (es : List SignedEnvelope)
      → (verify_envelope e store role payload_type).ok ≡ true
      → opt_eq e.previous_envelope_hash previous ≡ false
      → Reports previous n (e ∷ es) (chain_from store role payload_type previous n (e ∷ es))
  unfolding chain_from
  Reports-unlinked previous n e es good bad =
      rw (good, bad)
        (inr (
          0,
          refl,
          ground arith,
          ground arith,
          ground arith,
          tt,
          λ (v, l, c). ground (arith, opt_eq_iff e.previous_envelope_hash previous),
        ))

  chain_from-Reports :
      (previous : Option String) (n : ℕ) (es : List SignedEnvelope)
      → Reports previous n es (chain_from store role payload_type previous n es)
  unfolding chain_from
  chain_from-Reports previous n [] = inl (refl, omega arith, refl)
  chain_from-Reports previous n (e ∷ es) =
      elim (Bool-cases (verify_envelope e store role payload_type).ok) [
        | inr bad ↦ Reports-unverified previous n e es bad
        | inl good ↦ elim (Bool-cases (opt_eq e.previous_envelope_hash previous)) [
          | inr bad ↦ Reports-unlinked previous n e es good bad
          | inl linked ↦
              subst (λ r. Reports previous n (e ∷ es) r)
                (chain_from-step previous n e es good linked)
                (Reports-cons previous n e es
                  (chain_from store role payload_type (some e.envelope_hash) (suc n) es) good
                  ((opt_eq_iff e.previous_envelope_hash previous).0 linked)
                  (chain_from-Reports (some e.envelope_hash) (suc n) es))
        ]
      ]

  -- A chain of envelopes passes exactly when every envelope in it verifies for the role and the
  -- payload type, the first names the digest that the caller expects before it, and each later
  -- one names the digest of the envelope before it.
  pub verify_envelope_chain_iff :
      (previous : Option String) (es : List SignedEnvelope)
      → ((verify_envelope_chain store role payload_type es previous).ok ≡ true)
        ↔ IsChain previous es
  unfolding verify_envelope_chain
  verify_envelope_chain_iff previous es = (IsChain-of_ok previous 0 es, ok_of_chain previous 0 es)

  -- The result for a chain of envelopes either passes, counts them all and names no index, or
  -- fails at an index inside the chain: it counts and names that index, the envelopes before it
  -- are a good chain, and with the envelope at it they are not.
  pub verify_envelope_chain-Reports :
      (previous : Option String) (es : List SignedEnvelope)
      → Reports previous 0 es (verify_envelope_chain store role payload_type es previous)
  unfolding verify_envelope_chain
  verify_envelope_chain-Reports previous es = chain_from-Reports previous 0 es
