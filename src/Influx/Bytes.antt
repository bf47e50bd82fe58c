-- ===== src/Influx/Bytes.antt =====
-- Python 2's byte strings as the InfluxDB repository makes them: `.encode('utf8')`,
-- `.decode('utf8')` and `chr`. A byte string is a text of characters below 256, one for each byte.
pub mod Codec
pub mod Range
use Prim.Native.Nat.{Ordering, compare}
use Prim.Native.Char.{char, nul, IsLt}
use Prim.Native.String.{[], ◌∷◌}
use mathlib.Core.Option.{map as map_option}
use monasca_api.Prelude.{
  ◌≡◌, refl, ap, ℕ, zero, suc, ◌+◌, ◌-◌, ◌*◌, ◌/◌, ◌%◌, ◌<◌, Bool, String, append, Char, code,
  Option, none, some, ltb, if◌then◌else◌, arith,
}

-- whether a number is that of a character, in the steps in which `IsScalar` decides it
abbrev BothLt : Ordering → Ordering → Type 0
BothLt Ordering.lt o = IsLt o
BothLt Ordering.eq o = ⊥
BothLt Ordering.gt o = ⊥

abbrev Scalar : Ordering → Ordering → Ordering → Type 0
Scalar Ordering.lt o p = Unit
Scalar Ordering.eq o p = BothLt o p
Scalar Ordering.gt o p = BothLt o p

abbrev below : (o : Ordering) → Option (IsLt o)
below Ordering.lt = some tt
below Ordering.eq = none
below Ordering.gt = none

abbrev both_found : (o p : Ordering) → Option (BothLt o p)
both_found Ordering.lt p = below p
both_found Ordering.eq p = none
both_found Ordering.gt p = none

abbrev found : (o p q : Ordering) → Option (Scalar o p q)
found Ordering.lt p q = some tt
found Ordering.eq p q = both_found p q
found Ordering.gt p q = both_found p q

-- `unichr(n)`, for the numbers of characters
unfoldable pub unichr : ℕ → Option Char
unichr n = map_option (char n) (found (compare n 55296) (compare 57343 n) (compare n 1114112))

-- `chr(n)` of a byte
unfoldable pub byte : ℕ → Char
unfolding unichr
byte n = elim (unichr n) [ none ↦ nul | some c ↦ c ]

-- a text of bytes
abbrev pub IsBytes : String → Type 0
IsBytes [] = Unit
IsBytes (c ∷ s) = (code c < 256) × IsBytes s

unfoldable pub utf8_char : Char → String
unfolding byte
utf8_char c =
    let n = code c in
    if ltb n 128
    then byte n ∷ ""
    else if ltb n 2048
    then byte (192 + n / 64) ∷ byte (128 + n % 64) ∷ ""
    else if ltb n 65536
    then byte (224 + n / 4096) ∷ byte (128 + n / 64 % 64) ∷ byte (128 + n % 64) ∷ ""
    else byte (240 + n / 262144)
      ∷ byte (128 + n / 4096 % 64)
      ∷ byte (128 + n / 64 % 64)
      ∷ byte (128 + n % 64)
      ∷ ""

-- `s.encode('utf8')`
unfoldable pub encode : String → String
unfolding utf8_char
encode [] = ""
encode (c ∷ s) = append (utf8_char c) (encode s)

-- What a byte at the start of a character says: it stands for itself, or some bytes follow, and
-- then the least number that needs so many and the first bits of the number.
pub data Lead : Type 0 where
  single bad_lead : Lead
  start : ℕ → ℕ → ℕ → Lead

unfoldable pub lead : ℕ → Lead
lead b =
    if ltb b 128
    then single
    else if ltb b 192
    then bad_lead
    else if ltb b 224
    then start 0 128 (b - 192)
    else if ltb b 240
    then start 1 2048 (b - 224)
    else if ltb b 248
    then start 2 65536 (b - 240)
    else bad_lead

-- the bits of a byte that follows
unfoldable pub follow : ℕ → Option ℕ
follow b = if ltb b 128 then none else if ltb b 192 then some (b - 128) else none

-- the character of a number that is not encoded in more bytes than it needs
unfoldable pub finish : ℕ → ℕ → Option Char
unfolding unichr
finish least n = if ltb n least then none else unichr n

abbrev pub before : Char → Option String → Option String
before c s = map_option (◌∷◌ c) s

unfoldable mutual
  unfolding lead follow finish

  -- `s.decode('utf8')`, with its `UnicodeDecodeError` as `none`
  pub decode : String → Option String
  decode [] = some ""
  decode (c ∷ s) = elim (lead (code c)) [
    | single ↦ before c (decode s)
    | bad_lead ↦ none
    | start more least n ↦ decode_rest more least n s
  ]

  -- the bytes after the first one of a character: one, and as many more
  pub decode_rest : ℕ → ℕ → ℕ → String → Option String
  decode_rest more least n [] = none
  decode_rest zero least n (c ∷ s) = elim (follow (code c)) [
    | none ↦ none
    | some bits ↦ elim (finish least (n * 64 + bits)) [ none ↦ none | some d ↦ before d (decode s) ]
  ]
  decode_rest (suc more) least n (c ∷ s) = elim (follow (code c)) [
    | none ↦ none
    | some bits ↦ decode_rest more least (n * 64 + bits) s
  ]

below_of : (o : Ordering) (h : IsLt o) → below o ≡ some h
below_of Ordering.lt tt = refl
below_of Ordering.eq h = elim h [ ]
below_of Ordering.gt h = elim h [ ]

both_found_of : (o p : Ordering) (h : BothLt o p) → both_found o p ≡ some h
both_found_of Ordering.lt p h = below_of p h
both_found_of Ordering.eq p h = elim h [ ]
both_found_of Ordering.gt p h = elim h [ ]

found_of : (o p q : Ordering) (h : Scalar o p q) → found o p q ≡ some h
found_of Ordering.lt p q tt = refl
found_of Ordering.eq p q h = both_found_of p q h
found_of Ordering.gt p q h = both_found_of p q h

pub unichr-code : (c : Char) → unichr (code c) ≡ some c
unfolding unichr
unichr-code (char n h) =
    ap (map_option (char n)) (found_of (compare n 55296) (compare 57343 n) (compare n 1114112) h)

found_low :
    (n : ℕ) (o p q : Ordering) → o ≡ Ordering.lt → (h : Scalar o p q) × (found o p q ≡ some h)
found_low n Ordering.lt p q e = (tt, refl)
found_low n Ordering.eq p q e = absurd (cc)
found_low n Ordering.gt p q e = absurd (cc)

pub code-byte : (n : ℕ) → n < 256 → code (byte n) ≡ n
unfolding byte unichr
code-byte n h =
    let small : compare n 55296 ≡ Ordering.lt = grind arith in
    let (p, e) = found_low n (compare n 55296) (compare 57343 n) (compare n 1114112) small in
    rw (e, code) refl
