-- ===== src/Glob/Relation.antt =====
-- What it means that a name fits a pattern, stated apart from the matcher.
use autonomy_harbor.Base.{
  ℕ, ◌≡◌, refl, ap, ◌↔◌, true, List, [], ◌∷◌, ◌++◌, codes, String, arith, inl, inr, Bool-cases,
}
use autonomy_harbor.Glob.Defs.{
  Item, star, any_char, lit, set, Pattern, accepts, matches, compile, fnmatchcase,
}

-- An item other than `*` stands for one character that it accepts.
abbrev pub IsOne : Item → Type 0
IsOne star = ⊥
IsOne _ = Unit

-- `*` stands for any text, also for none.
pub data Fits : Pattern → List ℕ → Type 0 where
  done : Fits [] []
  skip : {p : Pattern} {r : List ℕ} (s t : List ℕ) → r ≡ s ++ t → Fits p t → Fits (star ∷ p) r
  one :
      {p : Pattern} {s : List ℕ} (i : Item) (c : ℕ)
      → IsOne i
      → accepts i c ≡ true
      → Fits p s
      → Fits (i ∷ p) (c ∷ s)

matches-skip :
    (p : Pattern) (s t : List ℕ) → matches p t ≡ true → matches (star ∷ p) (s ++ t) ≡ true
unfolding matches
matches-skip p [] [] h = h
matches-skip p [] (c ∷ t) h = ground arith
matches-skip p (c ∷ s) t h = ground (arith, matches-skip p s t h)

matches-one :
    (i : Item) (c : ℕ) (p : Pattern) (s : List ℕ)
    → IsOne i
    → accepts i c ≡ true
    → matches p s ≡ true
    → matches (i ∷ p) (c ∷ s) ≡ true
unfolding matches
matches-one star c p s o a h = absurd o
matches-one any_char c p s o a h = h
matches-one (lit d) c p s o a h = ground arith
matches-one (set n ms) c p s o a h = ground arith

matches_of_Fits : {p : Pattern} {s : List ℕ} → Fits p s → matches p s ≡ true
matches_of_Fits done = unfold matches in refl
matches_of_Fits (skip {p} s t e h) = rw e (matches-skip p s t (matches_of_Fits h))
matches_of_Fits (one {p} {s} i c o a h) = matches-one i c p s o a (matches_of_Fits h)

Fits-star-cons : {p : Pattern} {s : List ℕ} (c : ℕ) → Fits (star ∷ p) s → Fits (star ∷ p) (c ∷ s)
Fits-star-cons c (skip s t e h) = skip (c ∷ s) t (ap (λ r. c ∷ r) e) h
Fits-star-cons c (one i d o a h) = absurd o

Fits-of_matches : (p : Pattern) (s : List ℕ) → matches p s ≡ true → Fits p s
unfolding matches
Fits-of_matches [] [] h = done
Fits-of_matches [] (c ∷ s) h = absurd (ground arith)
Fits-of_matches (star ∷ p) [] h = skip [] [] refl (Fits-of_matches p [] h)
Fits-of_matches (star ∷ p) (c ∷ s) h = elim (Bool-cases (matches p (c ∷ s))) [
  | inl here ↦ skip [] (c ∷ s) refl (Fits-of_matches p (c ∷ s) here)
  | inr later ↦ Fits-star-cons c (Fits-of_matches (star ∷ p) s (ground arith))
]
Fits-of_matches (any_char ∷ p) [] h = absurd (ground arith)
Fits-of_matches (any_char ∷ p) (c ∷ s) h = one any_char c tt refl (Fits-of_matches p s h)
Fits-of_matches (lit d ∷ p) [] h = absurd (ground arith)
Fits-of_matches (lit d ∷ p) (c ∷ s) h =
    one (lit d) c tt (ground arith) (Fits-of_matches p s (ground arith))
Fits-of_matches (set n ms ∷ p) [] h = absurd (ground arith)
Fits-of_matches (set n ms ∷ p) (c ∷ s) h =
    one (set n ms) c tt (ground arith) (Fits-of_matches p s (ground arith))

-- `fnmatchcase` returns true exactly when the name fits the compiled pattern.
pub fnmatchcase_iff :
    (name pattern : String)
    → (fnmatchcase name pattern ≡ true) ↔ Fits (compile pattern) (codes name)
unfolding fnmatchcase
fnmatchcase_iff name pattern = (Fits-of_matches (compile pattern) (codes name), matches_of_Fits)
