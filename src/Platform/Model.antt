-- ===== src/Platform/Model.antt =====
-- A platform that meets the laws, to try the theorems at: times in base 50,000, bytes in unary, and
-- checksums for digests and signatures. It stands for no real algorithm.
use Prim.Native.Char.{Char, char, IsScalar}
use Prim.Native.Nat.{compare, Ordering}
use Prim.Native.String.{count}
use mathlib.Core.Option
use autonomy_harbor.Base.{
  ℕ, zero, suc, ◌+◌, ◌-◌, ◌*◌, ◌/◌, ◌%◌, ◌<◌, ◌≡◌, ◌∙◌, refl, ap, String, Bool, true, false, Option,
  some, none, List, [], ◌∷◌, ◌++◌, length, code, nat_eq, arith, if◌then◌else◌,
}
use text.Mathlib.TextLemmas.{length-cons}
use autonomy_harbor.Platform.{Platform, Datetime, replace_z, end_of_time}

pub scalar : (n : ℕ) → n < 55296 → IsScalar n
scalar n h = let below : compare n 55296 ≡ Ordering.lt = ground arith in rw below tt

-- a digit of a time
digit : ℕ → Char
digit n = char (n % 50000 + 128) (scalar (n % 50000 + 128) (omega arith))

code-digit : (n : ℕ) → code (digit n) ≡ n % 50000 + 128
unfolding digit
code-digit n = refl

pub time_text : ℕ → String
time_text t = String.◌∷◌ (digit (t / 125000000000000)) (
    String.◌∷◌ (digit (t / 2500000000))
      (String.◌∷◌ (digit (t / 50000)) (String.◌∷◌ (digit t) String.[])))

pub time_of : String → Option Datetime
time_of (String.◌∷◌ a (String.◌∷◌ b (String.◌∷◌ c (String.◌∷◌ d String.[])))) = some (record {
  instant =
      (((code a - 128) * 50000 + (code b - 128)) * 50000 + (code c - 128)) * 50000 + (code d - 128);
  aware = true;
})
time_of _ = none

replace_z-digit :
    (n : ℕ) (s : String) → replace_z (String.◌∷◌ (digit n) s) ≡ String.◌∷◌ (digit n) (replace_z s)
unfolding replace_z digit
replace_z-digit n s = ground arith

pub time_of-time_text :
    (t : ℕ)
    → t < end_of_time
    → time_of (replace_z (time_text t)) ≡ some (record { instant = t; aware = true })
unfolding time_of time_text replace_z
time_of-time_text t h = simp replace_z-digit (
    ap (λ (i : ℕ). some (record { instant = i; aware = true }))
      (let a = code-digit (t / 125000000000000) in
        let b = code-digit (t / 2500000000) in
        let c = code-digit (t / 50000) in let d = code-digit t in omega arith))

checksum : ℕ → List ℕ → ℕ
checksum acc [] = acc
checksum acc (b ∷ bs) = checksum ((acc * 31 + b) % 251) bs

abbrev zeros63 : String
zeros63 = "000000000000000000000000000000000000000000000000000000000000000"

pub digest_text : List ℕ → String
unfolding checksum digit
digest_text bytes = String.◌∷◌ (digit (checksum 7 bytes)) zeros63

pub count-digest_text : (bytes : List ℕ) → count (digest_text bytes) ≡ 64
unfolding digest_text
count-digest_text bytes = length-cons (digit (checksum 7 bytes)) zeros63

zeros : ℕ → String → String
zeros zero rest = rest
zeros (suc n) rest = String.◌∷◌ "0" (zeros n rest)

pub bytes_text : List ℕ → String
unfolding zeros
bytes_text [] = String.[]
bytes_text (b ∷ bs) = zeros b (String.◌∷◌ "1" (bytes_text bs))

pub read_bytes : ℕ → String → Option (List ℕ)
read_bytes n String.[] = some []
read_bytes n (String.◌∷◌ c s) =
    let rest = read_bytes 0 s in
    let next = read_bytes (suc n) s in
    if nat_eq (code c) 49 then Option.map (λ bs. n ∷ bs) rest else next

read_bytes-zeros : (n m : ℕ) (rest : String) → read_bytes m (zeros n rest) ≡ read_bytes (n + m) rest
unfolding read_bytes zeros
read_bytes-zeros zero m rest = ap (λ (k : ℕ). read_bytes k rest) (omega arith)
read_bytes-zeros (suc n) m rest =
    read_bytes-zeros n (suc m) rest ∙ ap (λ (k : ℕ). read_bytes k rest) (omega arith)

pub read_bytes-bytes_text : (bytes : List ℕ) → read_bytes 0 (bytes_text bytes) ≡ some bytes
unfolding read_bytes bytes_text
read_bytes-bytes_text [] = refl
read_bytes-bytes_text (b ∷ bs) =
    read_bytes-zeros b 0 (String.◌∷◌ "1" (bytes_text bs))
    ∙ ap (λ (k : ℕ). read_bytes k (String.◌∷◌ "1" (bytes_text bs))) (omega arith)
    ∙ ap (Option.map (λ r. b ∷ r)) (read_bytes-bytes_text bs)

-- the 32 bytes of a public key
repeated : ℕ → ℕ → List ℕ
repeated zero b = []
repeated (suc n) b = b ∷ repeated n b

length-repeated : (n b : ℕ) → length (repeated n b) ≡ n
unfolding repeated
length-repeated zero b = refl
length-repeated (suc n) b = ap suc (length-repeated n b)

pub public : List ℕ → List ℕ
unfolding checksum repeated
public key = repeated 32 (checksum 3 key)

pub length-public : (key : List ℕ) → length (public key) ≡ 32
unfolding public
length-public key = length-repeated 32 (checksum 3 key)

mark : List ℕ → List ℕ → ℕ
unfolding checksum
mark key message = checksum 5 (key ++ message)

pub verifies : List ℕ → List ℕ → List ℕ → Bool
unfolding mark
verifies key [] message = false
verifies key (m ∷ ms) message = nat_eq m (mark key message)

pub sign_model : List ℕ → List ℕ → List ℕ
unfolding mark
sign_model key message = mark (public key) message ∷ []

pub verifies-sign :
    (key message : List ℕ) → verifies (public key) (sign_model key message) message ≡ true
unfolding verifies sign_model
verifies-sign key message = ground arith

instance unfoldable pub model : Platform
unfolding digest_text bytes_text read_bytes public verifies sign_model time_text time_of
model = record {
  sha256 = digest_text;
  count-sha256 = count-digest_text;
  b64encode = bytes_text;
  b64decode = read_bytes 0;
  b64decode-b64encode = read_bytes-bytes_text;
  public_key = public;
  ed25519_sign = sign_model;
  ed25519_verify = verifies;
  length-public_key = length-public;
  ed25519_verify-sign = verifies-sign;
  isoformat = time_text;
  fromisoformat = time_of;
  fromisoformat-isoformat = time_of-time_text;
  repr = λ v. "";
  int_of = λ s. none;
}
