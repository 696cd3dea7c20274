-- ===== src/Base/Sort.antt =====
-- Python's `sorted`, which is stable, by a test for "comes first".
use mathlib.Core.Path.{◌≡◌, refl}
use mathlib.Core.Bool.{Bool, true, false, ◌&&◌}
use mathlib.Core.List.{List, [], ◌∷◌, Perm}
use mathlib.Core.List.Perm
use native.Mathlib.Omega.{arith}
use Prim.Native.Nat.{suc}
use autonomy_harbor.Base.Lists.{length}
use autonomy_harbor.Base.Tests.{if◌then◌else◌, Bool-cases}
use mathlib.Core.Logic.{inl, inr}

module _ {ℓ} {A : Type ℓ} (first : A → A → Bool) where
  place : A → List A → List A
  place x [] = x ∷ []
  place x (y ∷ ys) = let rest = place x ys in if first y x then y ∷ rest else x ∷ y ∷ ys

  unfoldable pub sort_by : List A → List A
  unfolding place
  sort_by [] = []
  sort_by (x ∷ xs) = place x (sort_by xs)

  place-perm : (x : A) (xs : List A) → Perm (place x xs) (x ∷ xs)
  unfolding place
  place-perm x [] = Perm.rfl
  place-perm x (y ∷ ys) = elim (Bool-cases (first y x)) [
    | inl later ↦ rw (later) (Perm.trans (Perm.cons y (place-perm x ys)) (Perm.swap x y ys))
    | inr here ↦ rw (here) Perm.rfl
  ]

  pub sort_by-perm : (xs : List A) → Perm (sort_by xs) xs
  unfolding sort_by
  sort_by-perm [] = Perm.rfl
  sort_by-perm (x ∷ xs) = Perm.trans (place-perm x (sort_by xs)) (Perm.cons x (sort_by-perm xs))

  length-place : (x : A) (xs : List A) → length (place x xs) ≡ suc (length xs)
  unfolding place
  length-place x [] = refl
  length-place x (y ∷ ys) = ground (arith, length-place x ys)

  pub length-sort_by : (xs : List A) → length (sort_by xs) ≡ length xs
  unfolding sort_by
  length-sort_by [] = refl
  length-sort_by (x ∷ xs) = ground (arith, length-place x (sort_by xs), length-sort_by xs)

module _ {ℓ} {A : Type ℓ} (leads : A → A → Bool) where
  abbrev leads_all : A → List A → Bool
  leads_all x [] = true
  leads_all x (y ∷ ys) = leads x y

  -- each member leads the next
  unfoldable pub is_ordered : List A → Bool
  is_ordered [] = true
  is_ordered (x ∷ xs) = leads_all x xs && is_ordered xs

  module _ (first : A → A → Bool) (ahead : (x y : A) → first y x ≡ true → leads y x ≡ true)
      (behind : (x y : A) → first y x ≡ false → leads x y ≡ true) where
    leads_all-place :
        (x y : A) (ys : List A)
        → leads y x ≡ true
        → leads_all y ys ≡ true
        → leads_all y (place first x ys) ≡ true
    unfolding place
    leads_all-place x y [] h g = h
    leads_all-place x y (z ∷ zs) h g = ground (arith, h, g)

    place-ordered :
        (x : A) (ys : List A) → is_ordered ys ≡ true → is_ordered (place first x ys) ≡ true
    unfolding place is_ordered
    place-ordered x [] h = refl
    place-ordered x (y ∷ ys) h =
        ground (arith, place-ordered x ys, leads_all-place x y ys, ahead x y, behind x y)

    pub sort_by-ordered : (xs : List A) → is_ordered (sort_by first xs) ≡ true
    unfolding sort_by is_ordered
    sort_by-ordered [] = refl
    sort_by-ordered (x ∷ xs) = place-ordered x (sort_by first xs) (sort_by-ordered xs)
