-- ===== src/Gate/Order.antt =====
-- The order in which a registry lists its grants does not matter to the verdict.
use mathlib.Core.List.{Perm, Permᴰ}
use mathlib.Core.Logic.{∥∥₁_elim}
use mathlib.Core.HLevel.{prop→set}
use Prim.Native.Char.{IsScalar}
use text.Mathlib.TextEquality.{IsScalar-prop}
use autonomy_harbor.Base.{ℕ, ◌≡◌, refl, sym, ap, ◌∙◌, List, ◌∷◌, arith, if◌then◌else◌}
use autonomy_harbor.Models.{ActionRequest, CapabilityGrant, CapabilityRegistry, Verdict, deny}
use autonomy_harbor.Gate.{is_protected, matches_grant, matching, evaluate}
use autonomy_harbor.Gate.Strictest.{stricter, strictest, or_deny, effects, evaluate-eq-strictest}

stricter_left_comm : (u v w : Verdict) → stricter u (stricter v w) ≡ stricter v (stricter u w)
stricter_left_comm u v w = ground arith

IsScalar-set : (n : ℕ) → IsSet (IsScalar n)
IsScalar-set n = prop→set (IsScalar-prop n)

Verdict-set : IsSet Verdict
Verdict-set = hlevel IsScalar-set

-- the strictest effect among the grants that match
abbrev found : ActionRequest → List CapabilityGrant → Verdict
found request grants = strictest (effects (matching request grants))

found-cons :
    (request : ActionRequest) (g : CapabilityGrant) (gs : List CapabilityGrant)
    → found request (g ∷ gs)
      ≡ (if matches_grant g request then stricter g.effect (found request gs) else found request gs)
unfolding matching
found-cons request g gs = ground arith

found-swap :
    (request : ActionRequest) (a b : CapabilityGrant) (l : List CapabilityGrant)
    → found request (b ∷ a ∷ l) ≡ found request (a ∷ b ∷ l)
found-swap request a b l = ground (
  arith,
  found-cons request a l,
  found-cons request b l,
  found-cons request a (b ∷ l),
  found-cons request b (a ∷ l),
  stricter_left_comm a.effect b.effect (found request l),
)

found-perm :
    (request : ActionRequest) {gs hs : List CapabilityGrant}
    → Permᴰ gs hs
    → found request gs ≡ found request hs
found-perm request Permᴰ.nil = refl
found-perm request (Permᴰ.cons {a} {b} {l₁} {l₂} e p) =
    ground (arith, found-cons request a l₁, found-cons request b l₂, found-perm request p)
found-perm request (Permᴰ.swap {a} {b} {a'} {b'} {l} e f) = rw (e, f) (found-swap request a' b' l)
found-perm request (Permᴰ.trans p q) = found-perm request p ∙ found-perm request q

-- Two registries whose grants are the same up to their order give every request one verdict.
pub evaluate-perm :
    (request : ActionRequest) (r s : CapabilityRegistry)
    → Perm r.grants s.grants
    → (evaluate request r).verdict ≡ (evaluate request s).verdict
evaluate-perm request r s p = ∥∥₁_elim p (Verdict-set _ _) λ q.
    evaluate-eq-strictest request r
    ∙ ap (λ v. if is_protected request then deny else or_deny v) (found-perm request q)
    ∙ sym (evaluate-eq-strictest request s)
