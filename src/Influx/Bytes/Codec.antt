-- ===== src/Influx/Bytes/Codec.antt =====
-- Decoding what was encoded gives the text back.
use Prim.Native.Nat.{Ordering, compare}
use Prim.Native.Char.{char}
use Prim.Native.String.{[], ◌∷◌}
use text.Mathlib.TextEquality.{Char-path}
use text.Mathlib.TextLemmas.{nil-append, cons-append}
use monasca_api.Prelude.{
  ◌≡◌, ◌∙◌, refl, ap, ℕ, suc, ◌+◌, ◌*◌, ◌/◌, ◌%◌, ◌<◌, ◌≤◌, Bool, true, false, String, append, Char,
  code, Option, none, some, ltb, if◌then◌else◌, arith, ◌⊎◌, inl, inr, Bool-cases,
}
use monasca_api.Influx.Bytes.{
  byte, utf8_char, encode, Lead, single, bad_lead, start, lead, follow, finish, before, decode,
  decode_rest, BothLt, Scalar, unichr-code, code-byte,
}

lead-1 : (b : ℕ) → b < 128 → lead b ≡ single
unfolding lead
lead-1 b h = ground arith

lead-2 : (n : ℕ) → n < 32 → lead (192 + n) ≡ start 0 128 n
unfolding lead
lead-2 n h = ground arith

lead-3 : (n : ℕ) → n < 16 → lead (224 + n) ≡ start 1 2048 n
unfolding lead
lead-3 n h = ground arith

lead-4 : (n : ℕ) → n < 8 → lead (240 + n) ≡ start 2 65536 n
unfolding lead
lead-4 n h = ground arith

follow_bits : (n : ℕ) → n < 64 → follow (128 + n) ≡ some n
unfolding follow
follow_bits n h = ground arith

abbrev then_decode : String → Option Char → Option String
then_decode t none = none
then_decode t (some c) = before c (decode t)

abbrev after_last : ℕ → ℕ → String → Option ℕ → Option String
after_last least n t bits = elim bits [
  | none ↦ none
  | some b ↦ then_decode t (finish least (n * 64 + b))
]

abbrev after_next : ℕ → ℕ → ℕ → String → Option ℕ → Option String
after_next more least n t bits = elim bits [
  | none ↦ none
  | some b ↦ decode_rest more least (n * 64 + b) t
]

abbrev after_lead : Char → String → Lead → Option String
after_lead c t l = elim l [
  | single ↦ before c (decode t)
  | bad_lead ↦ none
  | start more least n ↦ decode_rest more least n t
]

follow-byte : (b : ℕ) → b < 64 → follow (code (byte (128 + b))) ≡ some b
follow-byte b h = ap follow (code-byte (128 + b) (omega arith)) ∙ follow_bits b h

last_byte :
    (least n b : ℕ) (t : String)
    → b < 64
    → decode_rest 0 least n (byte (128 + b) ∷ t) ≡ then_decode t (finish least (n * 64 + b))
unfolding decode
last_byte least n b t h = ap (after_last least n t) (follow-byte b h)

next_byte :
    (more least n b : ℕ) (t : String)
    → b < 64
    → decode_rest (suc more) least n (byte (128 + b) ∷ t) ≡ decode_rest more least (n * 64 + b) t
unfolding decode
next_byte more least n b t h = ap (after_next more least n t) (follow-byte b h)

first_byte :
    (b more least n : ℕ) (t : String)
    → b < 256
    → lead b ≡ start more least n
    → decode (byte b ∷ t) ≡ decode_rest more least n t
unfolding decode
first_byte b more least n t h e = ap (after_lead (byte b) t) (ap lead (code-byte b h) ∙ e)

finished : (least n : ℕ) (c : Char) → n ≡ code c → least ≤ n → finish least n ≡ some c
unfolding finish
finished least n c e h = let no : ltb n least ≡ false = ground arith in rw (no, e) (unichr-code c)

abbrev AfterBound : Ordering → Ordering → Ordering → Type 0
AfterBound o p q = (o ≡ Ordering.lt) ⊎ (q ≡ Ordering.lt)

bounded_both : (o p : Ordering) → BothLt o p → p ≡ Ordering.lt
bounded_both Ordering.lt Ordering.lt h = refl
bounded_both Ordering.lt Ordering.eq h = elim h [ ]
bounded_both Ordering.lt Ordering.gt h = elim h [ ]
bounded_both Ordering.eq p h = elim h [ ]
bounded_both Ordering.gt p h = elim h [ ]

bounded : (o p q : Ordering) → Scalar o p q → AfterBound o p q
bounded Ordering.lt p q h = inl refl
bounded Ordering.eq p q h = inr (bounded_both p q h)
bounded Ordering.gt p q h = inr (bounded_both p q h)

pub code-lt : (c : Char) → code c < 2097152
code-lt (char n h) = elim (bounded (compare n 55296) (compare 57343 n) (compare n 1114112) h) [
  | inl e ↦ grind arith
  | inr e ↦ grind arith
]

module _ (c : Char) (t : String) where
  one_byte : code c < 128 → decode (byte (code c) ∷ t) ≡ before c (decode t)
  unfolding decode
  one_byte h =
      let e : code (byte (code c)) ≡ code c = code-byte (code c) (omega arith) in
      ap (after_lead (byte (code c)) t) (ap lead e ∙ lead-1 (code c) h)
      ∙ ap (λ d. before d (decode t)) (Char-path (byte (code c)) c e)

  two_bytes :
      128 ≤ code c
      → code c < 2048
      → decode (byte (192 + code c / 64) ∷ byte (128 + code c % 64) ∷ t) ≡ before c (decode t)
  two_bytes h k =
      first_byte _ 0 128 _ _ (omega arith) (lead-2 _ (omega arith))
      ∙ last_byte 128 _ _ t (omega arith)
      ∙ ap (then_decode t) (finished 128 _ c (omega arith) (omega arith))

  three_bytes :
      2048 ≤ code c
      → code c < 65536
      → decode (
          byte (224 + code c / 4096) ∷ byte (128 + code c / 64 % 64) ∷ byte (128 + code c % 64) ∷ t)
        ≡ before c (decode t)
  three_bytes h k =
      first_byte _ 1 2048 _ _ (omega arith) (lead-3 _ (omega arith))
      ∙ next_byte 0 2048 _ _ _ (omega arith)
      ∙ last_byte 2048 _ _ t (omega arith)
      ∙ ap (then_decode t) (finished 2048 _ c (omega arith) (omega arith))

  four_bytes :
      65536 ≤ code c
      → code c < 2097152
      → decode (
          byte (240 + code c / 262144)
          ∷ byte (128 + code c / 4096 % 64)
          ∷ byte (128 + code c / 64 % 64)
          ∷ byte (128 + code c % 64)
          ∷ t)
        ≡ before c (decode t)
  four_bytes h k =
      first_byte _ 2 65536 _ _ (omega arith) (lead-4 _ (omega arith))
      ∙ next_byte 1 65536 _ _ _ (omega arith)
      ∙ next_byte 0 65536 _ _ _ (omega arith)
      ∙ last_byte 65536 _ _ t (omega arith)
      ∙ ap (then_decode t) (finished 65536 _ c (omega arith) (omega arith))

  abbrev Decodes : String → Type 0
  Decodes bytes = decode (append bytes t) ≡ before c (decode t)

  abbrev last_case : Bool → String
  last_case b =
      if b
      then byte (224 + code c / 4096)
        ∷ byte (128 + code c / 64 % 64)
        ∷ byte (128 + code c % 64)
        ∷ ""
      else byte (240 + code c / 262144)
        ∷ byte (128 + code c / 4096 % 64)
        ∷ byte (128 + code c / 64 % 64)
        ∷ byte (128 + code c % 64)
        ∷ ""

  abbrev middle_case : Bool → String
  middle_case b =
      if b
      then byte (192 + code c / 64) ∷ byte (128 + code c % 64) ∷ ""
      else last_case (ltb (code c) 65536)

  longest : (b : Bool) → ltb (code c) 65536 ≡ b → 2048 ≤ code c → Decodes (last_case b)
  longest true e h =
      rw (cons-append, cons-append, cons-append, nil-append) (three_bytes h (ground arith))
  longest false e h =
      rw (cons-append, cons-append, cons-append, cons-append, nil-append)
        (four_bytes (ground arith) (code-lt c))

  longer : (b : Bool) → ltb (code c) 2048 ≡ b → 128 ≤ code c → Decodes (middle_case b)
  longer true e h = rw (cons-append, cons-append, nil-append) (two_bytes h (ground arith))
  longer false e h = longest (ltb (code c) 65536) refl (ground arith)

  decode-utf8_char : decode (append (utf8_char c) t) ≡ before c (decode t)
  unfolding utf8_char
  decode-utf8_char = elim (Bool-cases (ltb (code c) 128)) [
    | inl e ↦ rw (e, cons-append, nil-append) (one_byte (ground arith))
    | inr e ↦ rw e (longer (ltb (code c) 2048) refl (ground arith))
  ]

pub decode-encode : (s : String) → decode (encode s) ≡ some s
unfolding encode
decode-encode [] = unfold decode in refl
decode-encode (c ∷ s) = decode-utf8_char c (encode s) ∙ ap (before c) (decode-encode s)
