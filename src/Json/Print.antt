-- ===== src/Json/Print.antt =====
-- `json.dumps(value, ensure_ascii=False, sort_keys=True, separators=(",", ":")).encode("utf-8")`
use Prim.Native.String as Str
use Prim.Native.Nat.{Ordering, ◌/◌, ◌%◌}
use autonomy_harbor.Base.{
  ℕ, zero, suc, ◌+◌, code, String, Bool, true, false, List, [], ◌∷◌, ◌++◌, ◌<>◌, codes, ltb, nat_eq,
  pos, negsuc, if◌then◌else◌,
}
use autonomy_harbor.Json.{
  Json, null, bool, int, str, arr, obj, Items, nil, cons, Fields, end, field,
}

digit : ℕ → String
digit n =
    if nat_eq n 0
    then "0"
    else if nat_eq n 1
    then "1"
    else if nat_eq n 2
    then "2"
    else if nat_eq n 3
    then "3"
    else if nat_eq n 4
    then "4"
    else if nat_eq n 5
    then "5"
    else if nat_eq n 6
    then "6"
    else if nat_eq n 7
    then "7"
    else if nat_eq n 8
    then "8"
    else if nat_eq n 9
    then "9"
    else if nat_eq n 10
    then "a"
    else if nat_eq n 11
    then "b"
    else if nat_eq n 12
    then "c"
    else if nat_eq n 13
    then "d"
    else if nat_eq n 14
    then "e"
    else "f"

-- The fuel is at least the number of digits.
decimal_from : ℕ → ℕ → String
decimal_from zero n = digit (n % 10)
decimal_from (suc f) n = elim (ltb n 10) [
  | true ↦ digit n
  | false ↦ decimal_from f (n / 10) <> digit (n % 10)
]

-- `str(n)`
unfoldable pub decimal : ℕ → String
unfolding digit decimal_from
decimal n = decimal_from n n

escaped : ℕ → String → String
escaped n plain =
    if nat_eq n 34
    then "\\\""
    else if nat_eq n 92
    then "\\\\"
    else if nat_eq n 10
    then "\\n"
    else if nat_eq n 13
    then "\\r"
    else if nat_eq n 9
    then "\\t"
    else if nat_eq n 12
    then "\\f"
    else if nat_eq n 8
    then "\\b"
    else if ltb n 32
    then "\\u00" <> digit (n / 16) <> digit (n % 16)
    else plain

escape : String → String
escape String.[] = ""
escape (String.◌∷◌ c s) = escaped (code c) (String.◌∷◌ c String.[]) <> escape s

unfoldable pub quoted : String → String
unfolding digit escaped escape
quoted s = "\"" <> escape s <> "\""

-- One entry, printed, at its key.
abbrev Entry : Type 0
Entry = String × String

abbrev before : String → String → Bool
before s t = elim (Str.compare s t) [ Ordering.lt ↦ true | _ ↦ false ]

insert_entry : Entry → List Entry → List Entry
insert_entry e [] = e ∷ []
insert_entry e (f ∷ fs) =
    let rest = insert_entry e fs in if before f.0 e.0 then f ∷ rest else e ∷ f ∷ fs

join : List Entry → String
join [] = ""
join (e ∷ []) = quoted e.0 <> ":" <> e.1
join (e ∷ f ∷ fs) = quoted e.0 <> ":" <> e.1 <> "," <> join (f ∷ fs)

mutual
  unfolding insert_entry join

  dump : Json → String
  dump null = "null"
  dump (bool true) = "true"
  dump (bool false) = "false"
  dump (int (pos n)) = decimal n
  dump (int (negsuc n)) = "-" <> decimal (n + 1)
  dump (str s) = quoted s
  dump (arr xs) = "[" <> dump_items xs <> "]"
  dump (obj d) = "{" <> join (entries d) <> "}"

  dump_items : Items → String
  dump_items nil = ""
  dump_items (cons x nil) = dump x
  dump_items (cons x (cons y ys)) = dump x <> "," <> dump_items (cons y ys)

  entries : Fields → List Entry
  entries end = []
  entries (field k v d) = insert_entry (k, dump v) (entries d)

-- the bytes of one code point
utf8_code : ℕ → List ℕ
utf8_code n =
    if ltb n 128
    then n ∷ []
    else if ltb n 2048
    then (192 + n / 64) ∷ (128 + n % 64) ∷ []
    else if ltb n 65536
    then (224 + n / 4096) ∷ (128 + n / 64 % 64) ∷ (128 + n % 64) ∷ []
    else (240 + n / 262144) ∷ (128 + n / 4096 % 64) ∷ (128 + n / 64 % 64) ∷ (128 + n % 64) ∷ []

utf8_codes : List ℕ → List ℕ
utf8_codes [] = []
utf8_codes (n ∷ ns) = utf8_code n ++ utf8_codes ns

-- `text.encode("utf-8")`
unfoldable pub utf8 : String → List ℕ
unfolding utf8_code utf8_codes
utf8 s = utf8_codes (codes s)

-- `canonical_bytes`, `_canonical_json` and the encodings of `request_digest` and of the events. The
-- model's texts have no lone surrogates, on which `encode("utf-8")` raises.
unfoldable pub canonical_bytes : Json → List ℕ
unfolding decimal quoted dump utf8
canonical_bytes v = utf8 (dump v)
