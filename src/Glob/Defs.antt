-- ===== src/Glob/Defs.antt =====
-- `fnmatch.fnmatchcase`, which `gate.py` calls, after `fnmatch.translate` of CPython.
use autonomy_harbor.Base.{
  ℕ, zero, suc, String, Bool, true, false, not, ◌&&◌, ◌||◌, Option, none, some, List, [], ◌∷◌, leb,
  ltb, nat_eq, codes, if◌then◌else◌,
}

-- One element of a bracket expression: a character, or a range of characters, by their codes.
pub data Member : Type 0 where
  single : ℕ → Member
  range : ℕ → ℕ → Member

-- What a pattern is compiled to. `set negated members` is a bracket expression.
pub data Item : Type 0 where
  star any_char : Item
  lit : ℕ → Item
  set : Bool → List Member → Item

abbrev pub Pattern : Type 0
Pattern = List Item

-- The text of a bracket expression, up to the closing bracket; `none` if there is none.
closing : List ℕ → Option (List ℕ)
closing [] = none
closing (c ∷ s) =
    let rest = closing s in
    if nat_eq c b']' then some [] else elim rest [ none ↦ none | some r ↦ some (c ∷ r) ]

-- A bracket just behind `[` or `[!` does not close.
after_first : List ℕ → Option (List ℕ)
after_first [] = none
after_first (c ∷ s) =
    if nat_eq c b']'
    then elim (closing s) [ none ↦ none | some r ↦ some (c ∷ r) ]
    else closing (c ∷ s)

unfoldable pub bracket : List ℕ → Option (List ℕ)
unfolding closing after_first
bracket [] = none
bracket (c ∷ s) =
    if nat_eq c b'!'
    then elim (after_first s) [ none ↦ none | some r ↦ some (c ∷ r) ]
    else after_first (c ∷ s)

-- A hyphen between two characters makes a range. Ranges that hold no character are dropped.
members : List ℕ → List Member
members [] = []
members (a ∷ []) = single a ∷ []
members (a ∷ d ∷ []) = single a ∷ single d ∷ []
members (a ∷ d ∷ b ∷ s) =
    let wide = members s in
    let next = members (d ∷ b ∷ s) in
    if nat_eq d b'-' then (if ltb b a then wide else range a b ∷ wide) else single a ∷ next

-- A `!` at the front is no end of a range.
elements : List ℕ → List Member
elements [] = []
elements (c ∷ s) = if nat_eq c b'!' then single c ∷ members s else members (c ∷ s)

-- The `!` that negates is looked for when the empty ranges are gone.
negate_if : List Member → Item
negate_if [] = set false []
negate_if (single c ∷ ms) = if nat_eq c b'!' then set true ms else set false (single c ∷ ms)
negate_if (range a b ∷ ms) =
    if nat_eq a b'!' then set true (single b'-' ∷ single b ∷ ms) else set false (range a b ∷ ms)

unfoldable pub set_of : List ℕ → Item
unfolding members elements negate_if
set_of s = negate_if (elements s)

size : List ℕ → ℕ
size [] = 0
size (c ∷ s) = suc (size s)

-- The item that begins with `c`, and how many of the characters behind `c` belong to it.
item_at : ℕ → List ℕ → Item × ℕ
item_at c s =
    if nat_eq c b'*'
    then (star, 0)
    else if nat_eq c b'?'
    then (any_char, 0)
    else if nat_eq c b'['
    then elim (bracket s) [ none ↦ (lit c, 0) | some r ↦ (set_of r, suc (size r)) ]
    else (lit c, 0)

-- The number counts characters that the item before has taken.
translate : ℕ → List ℕ → Pattern
translate skip [] = []
translate (suc skip) (c ∷ s) = translate skip s
translate zero (c ∷ s) = let (item, taken) = item_at c s in item ∷ translate taken s

unfoldable pub compile : String → Pattern
unfolding bracket set_of size item_at translate
compile p = translate 0 (codes p)

pub in_members : List Member → ℕ → Bool
in_members [] n = false
in_members (single c ∷ ms) n = nat_eq c n || in_members ms n
in_members (range a b ∷ ms) n = leb a n && leb n b || in_members ms n

pub accepts : Item → ℕ → Bool
unfolding in_members
accepts star n = true
accepts any_char n = true
accepts (lit c) n = nat_eq c n
accepts (set negated ms) n = if negated then not (in_members ms n) else in_members ms n

-- `.fullmatch`: the whole name fits the whole pattern.
unfoldable pub matches : Pattern → List ℕ → Bool
unfolding accepts
matches [] [] = true
matches [] (c ∷ s) = false
matches (star ∷ p) [] = matches p []
matches (star ∷ p) (c ∷ s) = matches p (c ∷ s) || matches (star ∷ p) s
matches (any_char ∷ p) [] = false
matches (any_char ∷ p) (c ∷ s) = matches p s
matches (lit d ∷ p) [] = false
matches (lit d ∷ p) (c ∷ s) = accepts (lit d) c && matches p s
matches (set negated ms ∷ p) [] = false
matches (set negated ms ∷ p) (c ∷ s) = accepts (set negated ms) c && matches p s

unfoldable pub fnmatchcase : String → String → Bool
unfolding compile matches
fnmatchcase name pattern = matches (compile pattern) (codes name)
