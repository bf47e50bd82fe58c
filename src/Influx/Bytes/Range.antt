-- ===== src/Influx/Bytes/Range.antt =====
-- Encoding gives bytes, and leaves an ASCII text as it is.
use Prim.Native.String.{[], ◌∷◌}
use text.Mathlib.TextEquality.{Char-path}
use text.Mathlib.TextLemmas.{nil-append, cons-append}
use monasca_api.Prelude.{
  ◌≡◌, ◌≢◌, ◌∙◌, refl, ap, sym, ℕ, ◌+◌, ◌/◌, ◌%◌, ◌<◌, Bool, true, false, String, append, Char,
  code, some, ltb, if◌then◌else◌, arith,
}
use monasca_api.Influx.Bytes.{byte, IsBytes, utf8_char, encode, decode, code-byte}
use monasca_api.Influx.Bytes.Codec.{code-lt, decode-encode}

pub IsBytes-append : (s t : String) → IsBytes s → IsBytes t → IsBytes (append s t)
IsBytes-append [] t h g = rw nil-append g
IsBytes-append (c ∷ s) t (p, h) g = rw cons-append (p, IsBytes-append s t h g)

is_byte : (n : ℕ) → n < 256 → code (byte n) < 256
is_byte n h = rw (code-byte n h) h

module _ (n : ℕ) (bound : n < 2097152) where
  long-IsBytes :
      (b : Bool)
      → ltb n 65536 ≡ b
      → IsBytes (
          if b
          then byte (224 + n / 4096) ∷ byte (128 + n / 64 % 64) ∷ byte (128 + n % 64) ∷ ""
          else byte (240 + n / 262144)
            ∷ byte (128 + n / 4096 % 64)
            ∷ byte (128 + n / 64 % 64)
            ∷ byte (128 + n % 64)
            ∷ "")
  long-IsBytes true e =
      let small : n < 65536 = ground arith in
      (
        is_byte (224 + n / 4096) (omega arith),
        (is_byte (128 + n / 64 % 64) (omega arith), (is_byte (128 + n % 64) (omega arith), tt)),
      )
  long-IsBytes false e = (
    is_byte (240 + n / 262144) (omega arith),
    (
      is_byte (128 + n / 4096 % 64) (omega arith),
      (is_byte (128 + n / 64 % 64) (omega arith), (is_byte (128 + n % 64) (omega arith), tt)),
    ),
  )

module _ (c : Char) where
  two-IsBytes : (b : Bool) → ltb (code c) 128 ≡ b → IsBytes (utf8_char c)
  unfolding utf8_char
  two-IsBytes true e = rw e (is_byte (code c) (ground arith), tt)
  two-IsBytes false e = rw e (rest (ltb (code c) 2048) refl)
    where
      rest :
          (b : Bool)
          → ltb (code c) 2048 ≡ b
          → IsBytes (
              if b
              then byte (192 + code c / 64) ∷ byte (128 + code c % 64) ∷ ""
              else if ltb (code c) 65536
              then byte (224 + code c / 4096)
                ∷ byte (128 + code c / 64 % 64)
                ∷ byte (128 + code c % 64)
                ∷ ""
              else byte (240 + code c / 262144)
                ∷ byte (128 + code c / 4096 % 64)
                ∷ byte (128 + code c / 64 % 64)
                ∷ byte (128 + code c % 64)
                ∷ "")
      rest true f =
          let small : code c < 2048 = ground arith in
          (
            is_byte (192 + code c / 64) (omega arith),
            (is_byte (128 + code c % 64) (omega arith), tt),
          )
      rest false f = long-IsBytes (code c) (code-lt c) (ltb (code c) 65536) refl

pub encode-IsBytes : (s : String) → IsBytes (encode s)
unfolding encode
encode-IsBytes [] = tt
encode-IsBytes (c ∷ s) =
    IsBytes-append (utf8_char c) (encode s) (two-IsBytes c (ltb (code c) 128) refl)
      (encode-IsBytes s)

utf8_char-ascii : (c : Char) → ltb (code c) 128 ≡ true → utf8_char c ≡ c ∷ ""
unfolding utf8_char
utf8_char-ascii c e =
    let same : byte (code c) ≡ c = Char-path _ c (code-byte (code c) (ground arith)) in
    rw (e, same) refl

pub encode_cons : (c : Char) (s : String) → ltb (code c) 128 ≡ true → encode (c ∷ s) ≡ c ∷ encode s
unfolding encode
encode_cons c s e =
    ap (λ w. append w (encode s)) (utf8_char-ascii c e)
    ∙ cons-append c "" (encode s)
    ∙ ap (◌∷◌ c) (nil-append (encode s))

pub encode-ne-nil : (s : String) → s ≢ "" → encode s ≢ ""
encode-ne-nil s h e =
    let none_left : decode "" ≡ some "" = unfold decode in refl in
    let back : decode "" ≡ some s = ap decode (sym e) ∙ decode-encode s in h (cc)
