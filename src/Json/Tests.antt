-- ===== src/Json/Tests.antt =====
-- Runs of the printer and of Python's `==`.
use autonomy_harbor.Base.{◌≡◌, refl, true, false, pos, negsuc}
use autonomy_harbor.Json.{Json, null, bool, int, str, arr, cons, nil, obj, field, end, json_eq, get}
use autonomy_harbor.Json.Print.{utf8, canonical_bytes}

abbrev value : Json
value = obj (field "b" (arr (cons (int (negsuc 11)) (cons null nil))) (field "a" (str "x\n\"") end))

value-bytes : canonical_bytes value ≡ utf8 "{\"a\":\"x\\n\\\"\",\"b\":[-12,null]}"
unfolding canonical_bytes
value-bytes = refl

eq_by_keys :
    (json_eq (obj (field "a" null (field "b" null end))) (obj (field "b" null (field "a" null end)))
      ≡ true)
    × (json_eq (bool true) (int (pos 1)) ≡ true)
    × (json_eq (str "1") (int (pos 1)) ≡ false)
unfolding json_eq get
eq_by_keys = (refl, refl, refl)
