-- ===== src/Json.antt =====
-- The values of Python's `json`, the dictionaries among them, and `==` on them.
pub mod Print
mod Tests
use autonomy_harbor.Base.{
  ℕ, zero, suc, String, Bool, true, false, ◌&&◌, Option, none, some, List, [], ◌∷◌, ◌==◌, ℤ, pos,
  int_eq, nat_eq, if◌then◌else◌, not,
}

-- Floats are left out. A list and a tuple are both `arr`, as they are after `_plain`. A
-- dictionary is the list of its entries, in their order and with no key twice.
mutual
  pub data Json : Type 0 where
    null : Json
    bool : Bool → Json
    int : ℤ → Json
    str : String → Json
    arr : Items → Json
    obj : Fields → Json

  pub data Items : Type 0 where
    nil : Items
    cons : Json → Items → Items

  pub data Fields : Type 0 where
    end : Fields
    field : String → Json → Fields → Fields

-- a dictionary, written out
abbrev pub fields : List (String × Json) → Fields
fields [] = end
fields ((k, v) ∷ d) = field k v (fields d)

abbrev pub opt_str : Option String → Json
opt_str none = null
opt_str (some t) = str t

-- `d.get(k)`, and `k in d`
unfoldable pub get : String → Fields → Option Json
get k end = none
get k (field j v d) = if j == k then some v else get k d

abbrev pub has : String → Fields → Bool
has k d = elim (get k d) [ none ↦ false | some _ ↦ true ]

-- `d[k] = v`, also of a new key
unfoldable pub put : String → Json → Fields → Fields
put k v end = field k v end
put k v (field j w d) = let rest = put k v d in if j == k then field j v d else field j w rest

abbrev pub size : Fields → ℕ
size end = 0
size (field j v d) = suc (size d)

abbrev pub keys : Fields → List String
keys end = []
keys (field j v d) = j ∷ keys d

abbrev pub without : String → Fields → Fields
without k end = end
without k (field j v d) = let rest = without k d in if j == k then d else field j v rest

-- `set(d) == names`, for `names` with no name twice
unfoldable pub has_exactly : List String → Fields → Bool
has_exactly [] d = nat_eq (size d) 0
has_exactly (k ∷ ks) d = has k d && has_exactly ks (without k d)

abbrev pub strs : List String → Items
strs [] = nil
strs (t ∷ ts) = cons (str t) (strs ts)

abbrev one_of : Bool → ℤ
one_of true = pos 1
one_of false = pos 0

-- Python's `==`: a Boolean equals the number that it stands for, and dictionaries are compared
-- without regard to the order of their entries.
unfoldable mutual
  pub json_eq : Json → Json → Bool
  json_eq null null = true
  json_eq (bool b) (bool c) = int_eq (one_of b) (one_of c)
  json_eq (bool b) (int n) = int_eq (one_of b) n
  json_eq (int m) (bool c) = int_eq m (one_of c)
  json_eq (int m) (int n) = int_eq m n
  json_eq (str s) (str t) = s == t
  json_eq (arr xs) (arr ys) = items_eq xs ys
  json_eq (obj d) (obj e) = nat_eq (size d) (size e) && within d e
  json_eq _ _ = false

  pub items_eq : Items → Items → Bool
  items_eq nil nil = true
  items_eq (cons x xs) (cons y ys) = json_eq x y && items_eq xs ys
  items_eq _ _ = false

  pub within : Fields → Fields → Bool
  within end e = true
  within (field k v d) e = elim (get k e) [ none ↦ false | some w ↦ json_eq v w ] && within d e

-- `not value`, of what a dictionary holds or not
unfoldable pub is_falsy : Option Json → Bool
is_falsy none = true
is_falsy (some null) = true
is_falsy (some (bool b)) = not b
is_falsy (some (int (pos zero))) = true
is_falsy (some (str String.[])) = true
is_falsy (some (arr nil)) = true
is_falsy (some (obj end)) = true
is_falsy (some v) = false

abbrev pub or_null : Option Json → Json
or_null none = null
or_null (some v) = v
