-- ===== src/Promotion/Delta.antt =====
-- What the difference of two registries says of them.
use autonomy_harbor.Base.{
  ◌≡◌, ◌↔◌, ◌∙◌, refl, String, Bool, true, false, not, ◌&&◌, Option, none, some, List, [], ◌∷◌,
  arith, keep, mem_text, mem-sorted_set, eq_iff, eq_refl, is_some,
}
use autonomy_harbor.Json.{obj, Fields, json_eq}
use autonomy_harbor.Platform.{Platform}
use autonomy_harbor.Models.{CapabilityGrant, CapabilityRegistry}
use autonomy_harbor.Promotion.{
  view_by_id, grant_ids, is_changed, is_any, has_possible_authority_expansion, diff_registries,
}

mem-keep :
    (test : String → Bool) (k : String) (ts : List String)
    → mem_text k (keep test ts) ≡ (mem_text k ts && test k)
mem-keep test k [] = refl
mem-keep test k (t ∷ ts) = ground (arith, mem-keep test k ts, eq_iff k t)

is_some-view_by_id :
    (k : String) (gs : List CapabilityGrant) → is_some (view_by_id k gs) ≡ mem_text k (grant_ids gs)
unfolding view_by_id
is_some-view_by_id k [] = refl
is_some-view_by_id k (g ∷ gs) =
    ground (arith, is_some-view_by_id k gs, eq_iff k g.grant_id, eq_iff g.grant_id k)

is_changed_known :
    (old new : List CapabilityGrant) (k : String)
    → (mem_text k (grant_ids old) && is_changed old new k) ≡ is_changed old new k
is_changed_known old new k = ground (arith, is_some-view_by_id k old)

module _ ⦃p : Platform⦄ (baseline proposed : CapabilityRegistry) where
  -- An id is listed as added exactly when only the proposed registry has a grant with it, as removed
  -- exactly when only the baseline has, and as changed exactly when both have and the last grants
  -- with it differ as data.
  pub diff_registries-lists :
      (k : String)
      → let delta = diff_registries baseline proposed in
        let old = mem_text k (grant_ids baseline.grants) in
        let new = mem_text k (grant_ids proposed.grants) in
        (mem_text k delta.added ≡ (new && not old))
        × (mem_text k delta.removed ≡ (old && not new))
        × (mem_text k delta.changed ≡ is_changed baseline.grants proposed.grants k)
  unfolding diff_registries
  diff_registries-lists k =
      let old = grant_ids baseline.grants in
      let new = grant_ids proposed.grants in
      let is_new : String → Bool = λ (t : String). not (mem_text t old) in
      let is_gone : String → Bool = λ (t : String). not (mem_text t new) in
      let differs = is_changed baseline.grants proposed.grants in
      (
        mem-sorted_set k (keep is_new new) ∙ mem-keep is_new k new,
        mem-sorted_set k (keep is_gone old) ∙ mem-keep is_gone k old,
        mem-sorted_set k (keep differs old)
            ∙ mem-keep differs k old
            ∙ is_changed_known baseline.grants proposed.grants k,
      )

  mem-is_any : (ts : List String) → is_any ts ≡ false → (k : String) → mem_text k ts ≡ false
  mem-is_any [] h k = refl
  mem-is_any (t ∷ ts) h k = absurd (ground arith)

  is_any-mem : (ts : List String) → ((k : String) → mem_text k ts ≡ false) → is_any ts ≡ false
  is_any-mem [] h = refl
  is_any-mem (t ∷ ts) h = let first = h t in absurd (ground (arith, first, eq_refl t))

  -- every grant of the proposed registry that its id stands for is one of the baseline, as data
  abbrev pub IsContained : Type 0
  IsContained =
      (k : String) (new : Fields)
      → view_by_id k proposed.grants ≡ some new
      → (old : Fields) × (view_by_id k baseline.grants ≡ some old)
        × (json_eq (obj old) (obj new) ≡ true)

  contained_at :
      (k : String) (new : Fields) (old : Option Fields)
      → has_possible_authority_expansion (diff_registries baseline proposed) ≡ false
      → view_by_id k proposed.grants ≡ some new
      → view_by_id k baseline.grants ≡ old
      → (v : Fields) × (view_by_id k baseline.grants ≡ some v) × (json_eq (obj v) (obj new) ≡ true)
  contained_at k new none h found known = absurd (
      ground (
        arith,
        mem-is_any (diff_registries baseline proposed).added (ground arith) k,
        diff_registries-lists k,
        is_some-view_by_id k proposed.grants,
        is_some-view_by_id k baseline.grants,
      ))
  contained_at k new (some old) h found known = (
    old,
    known,
    ground (
      arith,
      mem-is_any (diff_registries baseline proposed).changed (ground arith) k,
      diff_registries-lists k,
    ),
  )

  unlisted_at :
      (k : String) (new : Option Fields)
      → IsContained
      → view_by_id k proposed.grants ≡ new
      → (mem_text k (diff_registries baseline proposed).added ≡ false)
        × (mem_text k (diff_registries baseline proposed).changed ≡ false)
  unlisted_at k none contained found =
      ground (arith, diff_registries-lists k, is_some-view_by_id k proposed.grants)
  unlisted_at k (some new) contained found =
      let (old, known, same) = contained k new found in
      ground (arith, diff_registries-lists k, is_some-view_by_id k baseline.grants, known, same)

  contained_of_unexpanded :
      has_possible_authority_expansion (diff_registries baseline proposed) ≡ false → IsContained
  contained_of_unexpanded h k new found =
      contained_at k new (view_by_id k baseline.grants) h found refl

  unexpanded_of_contained :
      IsContained → has_possible_authority_expansion (diff_registries baseline proposed) ≡ false
  unexpanded_of_contained contained = ground (
    arith,
    is_any-mem (diff_registries baseline proposed).added
        (λ (k : String). (unlisted_at k (view_by_id k proposed.grants) contained refl).0),
    is_any-mem (diff_registries baseline proposed).changed
        (λ (k : String). (unlisted_at k (view_by_id k proposed.grants) contained refl).1),
  )

  -- The difference shows no possible expansion of authority exactly when, for every id in the proposed
  -- registry, the last grant with it is, as data, the last grant of the baseline with that id.
  pub has_possible_authority_expansion_iff :
      (has_possible_authority_expansion (diff_registries baseline proposed) ≡ false) ↔ IsContained
  has_possible_authority_expansion_iff = (contained_of_unexpanded, unexpanded_of_contained)
