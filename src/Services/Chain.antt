-- ===== src/Services/Chain.antt =====
-- The final receipts that the verifier's process makes form two chains.
use mathlib.Core.Path.{subst}
use autonomy_harbor.Base.{
  ◌≡◌, ◌⊎◌, refl, inl, inr, String, Option, some, List, [], ◌∷◌, Result, ok, raised, Result-cases,
  Bool-cases, none,
}
use autonomy_harbor.Json.{Fields, Json, get, obj}
use autonomy_harbor.Platform.{Platform, Datetime}
use autonomy_harbor.Models.{ActionReceipt}
use autonomy_harbor.Envelope.{SignedEnvelope, as_dict}
use autonomy_harbor.Permit.Final.{
  IsEvidence, final_receipt_from_appliance-IsEvidence, IsFinal,
  final_receipt_from_appliance-IsFinal,
}
use autonomy_harbor.Permit.Outcome.{final_receipt_from_appliance}
use autonomy_harbor.Runtime.{action_receipt_payload}
use autonomy_harbor.Runtime.Chained.{IsReceiptChain}
use autonomy_harbor.Services.{has_op}
use autonomy_harbor.Services.Verifier.{
  VerifierService, ChainState, Evidence, evidence_in, save_chain, receipt_of, handle_verifier,
}

abbrev pub state_of : ActionReceipt → SignedEnvelope → ChainState
state_of r e = record {
  previous_receipt_hash = some r.receipt_hash;
  previous_envelope_hash = some e.envelope_hash;
}

-- what a reply holds under a key, and nothing where there is an exception in place of a reply
abbrev shown_in : String → Result Fields → Option Json
shown_in key (raised e) = none
shown_in key (ok body) = get key body

abbrev with_shown : Option Json → List Json → List Json
with_shown none vs = vs
with_shown (some v) vs = v ∷ vs

-- what the replies hold under a key, in their order
abbrev pub shown : String → List (Result Fields) → List Json
shown key [] = []
shown key (reply ∷ replies) = with_shown (shown_in key reply) (shown key replies)

abbrev pub receipts : List (ActionReceipt × SignedEnvelope) → List ActionReceipt
receipts [] = []
receipts ((r, e) ∷ made) = r ∷ receipts made

-- the receipts as replies write them
abbrev pub receipt_values : List (ActionReceipt × SignedEnvelope) → List Json
receipt_values [] = []
receipt_values ((r, e) ∷ made) = obj (action_receipt_payload r) ∷ receipt_values made

-- the envelopes as replies write them
abbrev pub envelope_values : List (ActionReceipt × SignedEnvelope) → List Json
envelope_values [] = []
envelope_values ((r, e) ∷ made) = obj (as_dict e) ∷ envelope_values made

-- each envelope names the digest of the one before it, up to the last one
abbrev pub IsEnvelopeChain :
    Option String → List (ActionReceipt × SignedEnvelope) → Option String → Type 0
IsEnvelopeChain first [] last = first ≡ last
IsEnvelopeChain first ((r, e) ∷ made) last =
    (e.previous_envelope_hash ≡ first) × IsEnvelopeChain (some e.envelope_hash) made last

module _ ⦃p : Platform⦄ (service : VerifierService) where
  -- The verifier makes this receipt of evidence that verifies, after the ones that it made before.
  pub record IsFinalized (message : Fields) (s s' : ChainState) (r : ActionReceipt)
      (e : SignedEnvelope) : Type 0 where
    pub evidence : Evidence
    pub read : evidence_in message ≡ ok evidence
    pub verified : IsEvidence evidence.request evidence.permit evidence.result service.trust
    pub final :
        IsFinal evidence.request evidence.permit evidence.result service.trust
          s.previous_receipt_hash s.previous_envelope_hash r e
    pub kept : s' ≡ state_of r e

  -- The reply shows no receipt and the state is the one before; or it shows the one receipt that the
  -- state names from then on.
  Answers : Fields → ChainState → Result Fields × ChainState → Type 0
  Answers message s (reply, s') =
      ((s' ≡ s) × (shown_in "receipt" reply ≡ none) × (shown_in "signed_receipt" reply ≡ none))
      ⊎ (r : ActionReceipt) × (e : SignedEnvelope) × IsFinalized message s s' r e
        × (shown_in "receipt" reply ≡ some (obj (action_receipt_payload r)))
        × (shown_in "signed_receipt" reply ≡ some (obj (as_dict e)))

  Answers-save_chain :
      (message : Fields) (now : Datetime) (s : ChainState) (read : Result Evidence)
      → evidence_in message ≡ read
      → Answers message s (save_chain (receipt_of service read now s) s)
  unfolding Answers save_chain receipt_of get
  Answers-save_chain message now s (raised x) read = inl (refl, refl, refl)
  Answers-save_chain message now s (ok v) read =
      elim (Result-cases (
        final_receipt_from_appliance v.request v.permit v.result service.trust service.signer
          s.previous_receipt_hash s.previous_envelope_hash now)) [
            | inr (x, bad) ↦ rw (bad) (inl (refl, refl, refl))
            | inl ((r, e), good) ↦ rw (good) (
                inr (
                  r,
                  e,
                  record {
                    evidence = v;
                    read = read;
                    verified =
                        final_receipt_from_appliance-IsEvidence v.request v.permit v.result
                          service.trust service.signer s.previous_receipt_hash
                          s.previous_envelope_hash now (r, e) good;
                    final =
                        final_receipt_from_appliance-IsFinal v.request v.permit v.result
                          service.trust service.signer s.previous_receipt_hash
                          s.previous_envelope_hash now r e good;
                    kept = refl;
                  },
                  refl,
                  refl,
                ))
          ]

  Answers-handle_verifier :
      (message : Fields) (now : Datetime) (s : ChainState)
      → Answers message s (handle_verifier service message now s)
  unfolding Answers handle_verifier get
  Answers-handle_verifier message now s = elim (Bool-cases (has_op "health" message)) [
    | inl health ↦ rw (health) (inl (refl, refl, refl))
    | inr asked ↦ elim (Bool-cases (has_op "finalize" message)) [
      | inr unsupported ↦ rw (asked, unsupported) (inl (refl, refl, refl))
      | inl op ↦ rw (asked, op) (Answers-save_chain message now s (evidence_in message) refl)
    ]
  ]

  -- The states that messages take a process through, with the receipts that it makes.
  pub data Finalizes
      : ChainState
        → List (Fields × Datetime)
        → List (ActionReceipt × SignedEnvelope)
        → ChainState
        → Type 0 where
    rests : (s : ChainState) → Finalizes s [] [] s
    passes :
        {t : ChainState} {messages : List (Fields × Datetime)}
        {made : List (ActionReceipt × SignedEnvelope)} (s : ChainState) (message : Fields)
        (now : Datetime)
        → (handle_verifier service message now s).1 ≡ s
        → Finalizes (handle_verifier service message now s).1 messages made t
        → Finalizes s ((message, now) ∷ messages) made t
    makes :
        {t : ChainState} {messages : List (Fields × Datetime)}
        {made : List (ActionReceipt × SignedEnvelope)} (s : ChainState) (message : Fields)
        (now : Datetime) (r : ActionReceipt) (e : SignedEnvelope)
        → IsFinalized message s (handle_verifier service message now s).1 r e
        → Finalizes (handle_verifier service message now s).1 messages made t
        → Finalizes s ((message, now) ∷ messages) ((r, e) ∷ made) t

  abbrev AreChained : ChainState → List (ActionReceipt × SignedEnvelope) → ChainState → Type 0
  AreChained s made t =
      IsReceiptChain s.previous_receipt_hash (receipts made) t.previous_receipt_hash
      × IsEnvelopeChain s.previous_envelope_hash made t.previous_envelope_hash

  -- The receipts of the verifier's process, whatever messages it gets, are sealed and each names the
  -- digest of the receipt before it, and each of their envelopes names that of the envelope before
  -- it, from the digests in the state file to those that are in it at the end.
  pub Finalizes-chains :
      {s t : ChainState} {messages : List (Fields × Datetime)}
      {made : List (ActionReceipt × SignedEnvelope)}
      → Finalizes s messages made t
      → IsReceiptChain s.previous_receipt_hash (receipts made) t.previous_receipt_hash
        × IsEnvelopeChain s.previous_envelope_hash made t.previous_envelope_hash
  Finalizes-chains (rests s) = (refl, refl)
  Finalizes-chains {t} {made} (passes s message now same rest) =
      subst (λ (u : ChainState). AreChained u made t) same (Finalizes-chains rest)
  Finalizes-chains {t} (makes {made = made} s message now r e w rest) =
      let later = subst (λ (u : ChainState). AreChained u made t) w.kept (Finalizes-chains rest) in
      ((w.final.sealed, w.final.linked, later.0), (w.final.chained, later.1))

  abbrev pub finalize_all : List (Fields × Datetime) → ChainState → ChainState
  finalize_all [] s = s
  finalize_all ((message, now) ∷ rest) s =
      finalize_all rest (handle_verifier service message now s).1

  -- what the verifier answers to the messages
  abbrev pub replies : List (Fields × Datetime) → ChainState → List (Result Fields)
  replies [] s = []
  replies ((message, now) ∷ rest) s =
      let (reply, s') = handle_verifier service message now s in reply ∷ replies rest s'

  -- a run that makes the receipts that the replies show
  abbrev Shown :
      List (Fields × Datetime) → ChainState → List (ActionReceipt × SignedEnvelope) → Type 0
  Shown messages s made =
      Finalizes s messages made (finalize_all messages s)
      × (shown "receipt" (replies messages s) ≡ receipt_values made)
      × (shown "signed_receipt" (replies messages s) ≡ envelope_values made)

  finalize_all-Shown :
      (messages : List (Fields × Datetime)) (s : ChainState)
      → (made : List (ActionReceipt × SignedEnvelope)) × Shown messages s made
  unfolding Answers
  finalize_all-Shown [] s = ([], (rests s, refl, refl))
  finalize_all-Shown ((message, now) ∷ rest) s =
      let (made, (later, r_shown, e_shown)) =
        finalize_all-Shown rest (handle_verifier service message now s).1 in
      elim (Answers-handle_verifier message now s) [
        | inl (same, no_r, no_e) ↦
            (made, (passes s message now same later, rw (no_r) r_shown, rw (no_e) e_shown))
        | inr (r, e, w, one_r, one_e) ↦ (
          (r, e) ∷ made,
          (makes s message now r e w later, rw (one_r, r_shown) refl, rw (one_e, e_shown) refl),
        )
      ]

  -- Every sequence of messages takes the verifier through a run whose receipts, with their envelopes,
  -- are those that its replies show, in their order. They are sealed and each names the digest of the
  -- receipt before it, and each envelope names that of the envelope before it, from the digests in the
  -- state file to those in it at the end.
  pub finalize_all-chains :
      (messages : List (Fields × Datetime)) (s : ChainState)
      → let t = finalize_all messages s in
        (made : List (ActionReceipt × SignedEnvelope)) × Finalizes s messages made t
        × (shown "receipt" (replies messages s) ≡ receipt_values made)
        × (shown "signed_receipt" (replies messages s) ≡ envelope_values made)
        × IsReceiptChain s.previous_receipt_hash (receipts made) t.previous_receipt_hash
        × IsEnvelopeChain s.previous_envelope_hash made t.previous_envelope_hash
  finalize_all-chains messages s =
      let (made, (run, r_shown, e_shown)) = finalize_all-Shown messages s in
      (made, run, r_shown, e_shown, (Finalizes-chains run).0, (Finalizes-chains run).1)
