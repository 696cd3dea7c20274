-- ===== src/Base/Text.antt =====
-- The methods of Python's `str` that the program calls.
use Prim.Native.Nat.{ℕ, zero, suc, ◌-◌, Ordering, compare as compare_ℕ}
use Prim.Native.Char.{code}
use Prim.Native.String.{String}
use Prim.Native.String as Str
use Prim.Native.Nat.compare as clauses_ℕ
use Prim.Native.String.compare as clauses
use mathlib.Core.Bool.{Bool, true, false, ◌&&◌, ◌||◌}
use mathlib.Core.Option.{Option, none, some}
use mathlib.Core.List.{List, [], ◌∷◌, ◌++◌}
use mathlib.Core.Path.{◌≡◌, refl}
use native.Mathlib.Omega.{arith}
use text.Mathlib.Text.{◌==◌}
use text.Mathlib.TextEquality.{eq_iff}
use autonomy_harbor.Base.Lists.{mem_text}
use autonomy_harbor.Base.Tests.{leb, nat_eq, if◌then◌else◌}

infixr 66 ◌<>◌
-- `a + b`, and the pieces of an f-string
abbrev pub ◌<>◌ : String → String → String
s <> t = Str.◌++◌ s t

-- the characters of which `str.isspace` holds
is_space : ℕ → Bool
is_space n =
    leb 9 n && leb n 13
    || leb 28 n && leb n 32
    || nat_eq n 133
    || nat_eq n 160
    || nat_eq n 5760
    || leb 8192 n && leb n 8202
    || nat_eq n 8232
    || nat_eq n 8233
    || nat_eq n 8239
    || nat_eq n 8287
    || nat_eq n 12288

-- `not s.strip()`
unfoldable pub is_blank : String → Bool
unfolding is_space
is_blank String.[] = true
is_blank (String.◌∷◌ c s) = is_space (code c) && is_blank s

rstrip : String → String
unfolding is_space
rstrip String.[] = ""
rstrip (String.◌∷◌ c s) =
    let rest = rstrip s in if is_space (code c) && is_blank s then "" else String.◌∷◌ c rest

-- `s.strip()`
unfoldable pub strip : String → String
unfolding rstrip is_space
strip String.[] = ""
strip (String.◌∷◌ c s) =
    let rest = strip s in if is_space (code c) then rest else rstrip (String.◌∷◌ c s)

-- `given or generated`, where the given text may be absent or empty
abbrev pub or_else : Option String → String → String
or_else none generated = generated
or_else (some String.[]) generated = generated
or_else (some (String.◌∷◌ c s)) generated = String.◌∷◌ c s

-- the code points of a text
abbrev pub codes : String → List ℕ
codes String.[] = []
codes (String.◌∷◌ c s) = code c ∷ codes s

-- `str.upper` of one character, as code points. Beside a to z these are all the characters with
-- an upper case in ASCII: the long s, the dotless i, the sharp s and the ligatures. The upper
-- case of any other character holds a character outside ASCII, and equals no word that the
-- program compares it with; such a character is left as it is.
upper_code : ℕ → List ℕ
upper_code n =
    if leb b'a' n && leb n b'z'
    then (n - 32) ∷ []
    else if nat_eq n 305
    then b'I' ∷ []
    else if nat_eq n 383
    then b'S' ∷ []
    else if nat_eq n 223
    then b'S' ∷ b'S' ∷ []
    else if nat_eq n 64256
    then b'F' ∷ b'F' ∷ []
    else if nat_eq n 64257
    then b'F' ∷ b'I' ∷ []
    else if nat_eq n 64258
    then b'F' ∷ b'L' ∷ []
    else if nat_eq n 64259
    then b'F' ∷ b'F' ∷ b'I' ∷ []
    else if nat_eq n 64260
    then b'F' ∷ b'F' ∷ b'L' ∷ []
    else if nat_eq n 64261 || nat_eq n 64262
    then b'S' ∷ b'T' ∷ []
    else n ∷ []

-- `s.upper()`
unfoldable pub upper : String → List ℕ
unfolding upper_code
upper String.[] = []
upper (String.◌∷◌ c s) = upper_code (code c) ++ upper s

-- equality of texts given by their code points
abbrev pub codes_eq : List ℕ → List ℕ → Bool
codes_eq [] [] = true
codes_eq [] (m ∷ ms) = false
codes_eq (n ∷ ns) [] = false
codes_eq (n ∷ ns) (m ∷ ms) = nat_eq n m && codes_eq ns ms

-- the first characters of a text, `s[:n]`
abbrev pub first : ℕ → String → String
first zero s = ""
first (suc n) String.[] = ""
first (suc n) (String.◌∷◌ c s) = String.◌∷◌ c (first n s)

-- `s < t`
unfoldable pub before : String → String → Bool
before s t = elim (Str.compare s t) [ Ordering.lt ↦ true | _ ↦ false ]

insert_text : String → List String → List String
insert_text t [] = t ∷ []
insert_text t (u ∷ us) =
    let rest = insert_text t us in
    if t == u then u ∷ us else if before u t then u ∷ rest else t ∷ u ∷ us

-- `sorted(set(ts))`
unfoldable pub sorted_set : List String → List String
unfolding before insert_text
sorted_set [] = []
sorted_set (t ∷ ts) = insert_text t (sorted_set ts)

mem-insert_text :
    (s t : String) (ts : List String) → mem_text s (insert_text t ts) ≡ (s == t || mem_text s ts)
unfolding insert_text
mem-insert_text s t [] = refl
mem-insert_text s t (u ∷ us) =
    ground (arith, mem-insert_text s t us, eq_iff t u, eq_iff s t, eq_iff s u)

pub mem-sorted_set : (s : String) (ts : List String) → mem_text s (sorted_set ts) ≡ mem_text s ts
unfolding sorted_set
mem-sorted_set s [] = refl
mem-sorted_set s (t ∷ ts) = ground (arith, mem-insert_text s t (sorted_set ts), mem-sorted_set s ts)

-- the answer when the two are exchanged
abbrev swap : Ordering → Ordering
swap Ordering.lt = Ordering.gt
swap Ordering.eq = Ordering.eq
swap Ordering.gt = Ordering.lt

compare_ℕ-swap : (m n : ℕ) → compare_ℕ n m ≡ swap (compare_ℕ m n)
compare_ℕ-swap zero zero = rw (clauses_ℕ.zero-zero) refl
compare_ℕ-swap zero (suc n) = rw (clauses_ℕ.zero-suc n, clauses_ℕ.suc-zero n) refl
compare_ℕ-swap (suc m) zero = rw (clauses_ℕ.zero-suc m, clauses_ℕ.suc-zero m) refl
compare_ℕ-swap (suc m) (suc n) =
    rw (clauses_ℕ.suc-suc m n, clauses_ℕ.suc-suc n m) (compare_ℕ-swap m n)

then-swap : (o o' : Ordering) → Str.then (swap o) (swap o') ≡ swap (Str.then o o')
then-swap Ordering.lt o' = refl
then-swap Ordering.eq o' = refl
then-swap Ordering.gt o' = refl

compare-swap : (s t : String) → Str.compare t s ≡ swap (Str.compare s t)
compare-swap String.[] String.[] = rw (clauses.nil-nil) refl
compare-swap String.[] (String.◌∷◌ d t) = rw (clauses.nil-cons d t, clauses.cons-nil d t) refl
compare-swap (String.◌∷◌ c s) String.[] = rw (clauses.nil-cons c s, clauses.cons-nil c s) refl
compare-swap (String.◌∷◌ c s) (String.◌∷◌ d t) =
    rw
      (
        clauses.cons-cons c d s t,
        clauses.cons-cons d c t s,
        compare_ℕ-swap (code c) (code d),
        compare-swap s t,
      )
      (then-swap (compare_ℕ (code c) (code d)) (Str.compare s t))

pub before_asym : (s t : String) → before s t ≡ true → before t s ≡ false
unfolding before
before_asym s t h = rw (before, compare-swap s t) (not_both (Str.compare s t) h)
  where
    is_lt : Ordering → Bool
    is_lt o = elim o [ Ordering.lt ↦ true | _ ↦ false ]

    not_both : (o : Ordering) → is_lt o ≡ true → is_lt (swap o) ≡ false
    not_both Ordering.lt h = refl
    not_both Ordering.eq h = refl
    not_both Ordering.gt h = absurd (ground arith)
