-- ===== src/Platform.antt =====
-- What the program takes from outside: the digests of `hashlib`, the keys of `cryptography`,
-- `base64`, the texts of `datetime`, and `repr`. Each is a function of the model, with the laws
-- that its documentation promises.
pub mod Model
use Prim.Native.String.{count}
use autonomy_harbor.Base.{
  ℕ, ℤ, pos, negsuc, ◌+◌, ◌*◌, ◌-◌, ◌/◌, ◌<◌, ◌≡◌, ap, String, Bool, true, false, Option, some,
  none, List, ltb, code, nat_eq, length, ◌<>◌, Result, ok, fail, value_error, overflow_error,
  if◌then◌else◌,
}
use autonomy_harbor.Json.{Json, null, bool, int, str, arr, obj}
use autonomy_harbor.Json.Print.{canonical_bytes, decimal}

-- A `datetime`: the microseconds since year 1 in UTC, and whether it has a time zone.
pub record Datetime : Type 0 where
  pub instant : ℕ
  pub aware : Bool

-- the first instant of year 10000, which `datetime` cannot hold
abbrev pub end_of_time : ℕ
end_of_time = 315537897600000000

-- `value.replace("Z", "+00:00")`
unfoldable pub replace_z : String → String
replace_z String.[] = ""
replace_z (String.◌∷◌ c s) =
    let rest = replace_z s in if nat_eq (code c) b'Z' then "+00:00" <> rest else String.◌∷◌ c rest

pub record Platform : Type 0 where
  -- `hashlib.sha256(data).hexdigest()`
  pub sha256 : List ℕ → String
  pub count-sha256 : (message : List ℕ) → count (sha256 message) ≡ 64
  -- `base64.b64encode` and `b64decode(…, validate=True)`
  pub b64encode : List ℕ → String
  pub b64decode : String → Option (List ℕ)
  pub b64decode-b64encode : (bytes : List ℕ) → b64decode (b64encode bytes) ≡ some bytes
  -- Ed25519: the public key of a private key, signatures, and whether `verify` returns
  pub public_key : List ℕ → List ℕ
  pub ed25519_sign : List ℕ → List ℕ → List ℕ
  pub ed25519_verify : List ℕ → List ℕ → List ℕ → Bool
  pub length-public_key : (key : List ℕ) → length (public_key key) ≡ 32
  pub ed25519_verify-sign :
      (key message : List ℕ)
      → ed25519_verify (public_key key) (ed25519_sign key message) message ≡ true
  -- `isoformat` of a UTC `datetime`, and `fromisoformat`
  pub isoformat : ℕ → String
  pub fromisoformat : String → Option Datetime
  pub fromisoformat-isoformat :
      (t : ℕ)
      → t < end_of_time
      → fromisoformat (replace_z (isoformat t)) ≡ some (record { instant = t; aware = true })
  -- `repr` of a list or a dictionary
  pub repr : Json → String
  -- `int` of a text
  pub int_of : String → Option ℤ

aware_instant : Option Datetime → Result ℕ
aware_instant none = fail value_error "Invalid isoformat string"
aware_instant (some d) =
    if d.aware then ok d.instant else fail value_error "timestamp_must_be_timezone_aware"

module _ ⦃p : Platform⦄ where
  -- `str(v)`
  unfoldable pub text_of : Json → String
  text_of null = "None"
  text_of (bool true) = "True"
  text_of (bool false) = "False"
  text_of (str s) = s
  text_of (int (pos n)) = decimal n
  text_of (int (negsuc n)) = "-" <> decimal (n + 1)
  text_of (arr xs) = p.repr (arr xs)
  text_of (obj d) = p.repr (obj d)

  -- `sha256_hex`
  unfoldable pub sha256_hex : Json → String
  sha256_hex v = p.sha256 (canonical_bytes v)

  -- `_parse_time`
  unfoldable pub parse_time : String → Result ℕ
  unfolding aware_instant
  parse_time value = aware_instant (p.fromisoformat (replace_z value))

  pub parse_time-isoformat : (t : ℕ) → t < end_of_time → parse_time (p.isoformat t) ≡ ok t
  unfolding parse_time
  parse_time-isoformat t h = ap aware_instant (p.fromisoformat-isoformat t h)

-- `_now`: a naive `datetime` is refused, another one is taken to UTC
unfoldable pub to_utc : Datetime → Result ℕ
to_utc d = if d.aware then ok d.instant else fail value_error "now_must_be_timezone_aware"

abbrev epoch : ℕ
epoch = 62135596800000000

-- `f"{int(t.timestamp())}"`: whole seconds since 1970, cut off towards zero
unfoldable pub timestamp_text : ℕ → String
timestamp_text t =
    let late = (t - epoch) / 1000000 in
    let early = (epoch - t) / 1000000 in
    if nat_eq early 0 then decimal late else "-" <> decimal early

-- `t + timedelta(seconds=n)`
unfoldable pub add_seconds : ℕ → ℕ → Result ℕ
add_seconds t n =
    let later = t + n * 1000000 in
    if ltb later end_of_time then ok later else fail overflow_error "date value out of range"
