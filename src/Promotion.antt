-- ===== src/Promotion.antt =====
-- The difference of two registries and the request for a promotion (promotion.py).
pub mod Simulation
pub mod Evidence
pub mod Delta
pub mod Eligible
pub mod Issued
mod Tests
use autonomy_harbor.Base.{
  ◌>>◌, ◌>>=◌, keep, mem_text, String, Bool, true, false, not, ◌&&◌, ◌||◌, Option, none, some, List,
  [], ◌∷◌, Result, ok, if◌then◌else◌, sorted_set, ◌==◌, mem_text, reject_if, is_blank,
}
use autonomy_harbor.Json.{Json, bool, str, arr, obj, Items, Fields, fields, strs, put, json_eq}
use autonomy_harbor.Platform.{Platform, sha256_hex}
use autonomy_harbor.Models.{CapabilityGrant, CapabilityRegistry, is_empty}
use autonomy_harbor.Registry.{grant_view, grant_views, sorted_grants}

abbrev or_first : Option Fields → String → CapabilityGrant → Option Fields
or_first (some v) grant_id g = some v
or_first none grant_id g = if g.grant_id == grant_id then some (grant_view g) else none

-- `{g.grant_id: _grant_view(g) for g in grants}.get(grant_id)`: of the grants with one id, the last
unfoldable pub view_by_id : String → List CapabilityGrant → Option Fields
view_by_id grant_id [] = none
view_by_id grant_id (g ∷ gs) = or_first (view_by_id grant_id gs) grant_id g

abbrev pub grant_ids : List CapabilityGrant → List String
grant_ids [] = []
grant_ids (g ∷ gs) = g.grant_id ∷ grant_ids gs

abbrev views_differ : Option Fields → Option Fields → Bool
views_differ none new = false
views_differ (some old) none = false
views_differ (some old) (some new) = not (json_eq (obj old) (obj new))

-- `k in old and k in new and old[k] != new[k]`
abbrev pub is_changed : List CapabilityGrant → List CapabilityGrant → String → Bool
is_changed old new grant_id = views_differ (view_by_id grant_id old) (view_by_id grant_id new)

pub record CapabilityDelta : Type 0 where
  pub added : List String
  pub removed : List String
  pub changed : List String
  pub digest : String

abbrev pub is_any : List String → Bool
is_any ts = not (is_empty ts)

abbrev pub has_authority_change : CapabilityDelta → Bool
has_authority_change delta = is_any delta.added || is_any delta.removed || is_any delta.changed

abbrev pub has_possible_authority_expansion : CapabilityDelta → Bool
has_possible_authority_expansion delta = is_any delta.added || is_any delta.changed

unfoldable pub delta_dict : CapabilityDelta → Fields
delta_dict delta = fields (
    ("added", arr (strs delta.added))
    ∷ ("removed", arr (strs delta.removed))
    ∷ ("changed", arr (strs delta.changed))
    ∷ ("digest", str delta.digest)
    ∷ ("has_authority_change", bool (has_authority_change delta))
    ∷ ("has_possible_authority_expansion", bool (has_possible_authority_expansion delta))
    ∷ [])

-- `PromotionRequest`
pub record PromotionRequest : Type 0 where
  pub promotion_id : String
  pub app_id : String
  pub baseline_registry_digest : String
  pub proposed_registry_digest : String
  pub capability_delta : CapabilityDelta
  pub required_domains : List String
  pub requested_by : String
  pub target_stage : String

-- `PromotionRequest.__post_init__`
unfoldable pub make_promotion_request : PromotionRequest → Result PromotionRequest
make_promotion_request request = do
  reject_if (is_blank request.promotion_id) "promotion_id_is_required"
  reject_if (is_blank request.app_id) "app_id_is_required"
  reject_if (not (is_any request.required_domains)) "required_domains_must_not_be_empty"
  ok (record request { required_domains = sorted_set request.required_domains })

-- `as_dict(include_digest=False)`
unfoldable pub promotion_view : PromotionRequest → Fields
promotion_view request = fields (
    ("promotion_id", str request.promotion_id)
    ∷ ("app_id", str request.app_id)
    ∷ ("baseline_registry_digest", str request.baseline_registry_digest)
    ∷ ("proposed_registry_digest", str request.proposed_registry_digest)
    ∷ ("capability_delta", obj (delta_dict request.capability_delta))
    ∷ ("required_domains", arr (strs request.required_domains))
    ∷ ("requested_by", str request.requested_by)
    ∷ ("target_stage", str request.target_stage)
    ∷ ("authority_effect", str "NONE")
    ∷ [])

module _ ⦃p : Platform⦄ where
  unfoldable pub registry_digest : CapabilityRegistry → String
  registry_digest registry = sha256_hex (
      obj (
        fields (
          ("registry_id", str registry.registry_id)
          ∷ ("version", str registry.version)
          ∷ ("grants", arr (grant_views (sorted_grants registry)))
          ∷ [])))

  unfoldable pub delta_digest :
      CapabilityRegistry → CapabilityRegistry → List String → List String → List String → String
  delta_digest baseline proposed added removed changed = sha256_hex (
      obj (
        fields (
          ("baseline", str (registry_digest baseline))
          ∷ ("proposed", str (registry_digest proposed))
          ∷ ("added", arr (strs added))
          ∷ ("removed", arr (strs removed))
          ∷ ("changed", arr (strs changed))
          ∷ [])))

  unfoldable pub diff_registries : CapabilityRegistry → CapabilityRegistry → CapabilityDelta
  diff_registries baseline proposed =
      let old = grant_ids baseline.grants in
      let new = grant_ids proposed.grants in
      let added = sorted_set (keep (λ (k : String). not (mem_text k old)) new) in
      let removed = sorted_set (keep (λ (k : String). not (mem_text k new)) old) in
      let changed = sorted_set (keep (is_changed baseline.grants proposed.grants) old) in
      record {
        added = added;
        removed = removed;
        changed = changed;
        digest = delta_digest baseline proposed added removed changed;
      }

  unfoldable pub promotion_request_digest : PromotionRequest → String
  promotion_request_digest request = sha256_hex (obj (promotion_view request))

  -- `PromotionRequest.as_dict`
  unfoldable pub promotion_dict : PromotionRequest → Fields
  promotion_dict request =
      put "request_digest" (str (promotion_request_digest request)) (promotion_view request)

  unfoldable pub build_promotion_request :
      String
      → CapabilityRegistry
      → CapabilityRegistry
      → String
      → String
      → List String
      → String
      → Result PromotionRequest
  build_promotion_request promotion_id baseline proposed requested_by app_id domains target_stage =
      make_promotion_request (record {
        promotion_id = promotion_id;
        app_id = app_id;
        baseline_registry_digest = registry_digest baseline;
        proposed_registry_digest = registry_digest proposed;
        capability_delta = diff_registries baseline proposed;
        required_domains = domains;
        requested_by = requested_by;
        target_stage = target_stage;
      })
