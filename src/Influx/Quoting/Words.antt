-- ===== src/Influx/Quoting/Words.antt =====
-- A quoted text is a word of a serie's name: it is ASCII, and holds none of '?', '&' and '='.
use Prim.Native.String.{[], ◌∷◌}
use text.Mathlib.TextLemmas.{nil-append, cons-append}
use monasca_api.Prelude.{
  ◌≡◌, ◌≢◌, ◌∙◌, refl, ap, ℕ, ◌/◌, ◌%◌, ◌<◌, Bool, true, false, ◌||◌, String, append, Char, code,
  NoCode, ltb, if◌then◌else◌, arith,
}
use monasca_api.Influx.Bytes.{byte, IsBytes, encode}
use monasca_api.Influx.Bytes.Range.{encode-IsBytes, encode-ne-nil, encode_cons}
use monasca_api.Influx.Quoting.{
  always_safe, hex_digit, quoted, quote, no_more, quoted_text, is_ascii,
}
use monasca_api.Influx.Quoting.Laws.{hex_digit-safe, quote-NoCode}
use monasca_api.Influx.Words.Scans.{IsWord}

pub encode_ascii : (s : String) → is_ascii s ≡ true → encode s ≡ s
unfolding encode is_ascii
encode_ascii [] h = refl
encode_ascii (c ∷ s) h =
    let (p, q) : (ltb (code c) 128 ≡ true) × (is_ascii s ≡ true) = ground arith in
    encode_cons c s p ∙ ap (◌∷◌ c) (encode_ascii s q)

pub is_ascii-append :
    (s t : String) → is_ascii s ≡ true → is_ascii t ≡ true → is_ascii (append s t) ≡ true
unfolding is_ascii
is_ascii-append [] t h g = rw nil-append g
is_ascii-append (c ∷ s) t h g = rw cons-append (
    let (p, q) : (ltb (code c) 128 ≡ true) × (is_ascii s ≡ true) = ground arith in
    rw (p, is_ascii-append s t q g) refl)

IsWord-of : (s : String) → NoCode b'?' s → NoCode b'&' s → NoCode b'=' s → IsWord s
IsWord-of [] h g k = tt
IsWord-of (c ∷ s) (p, h) (q, g) (r, k) = (ground arith, IsWord-of s h g k)

pub quoted_text-NoCode :
    (k : ℕ) (s : String) → always_safe k ≡ false → k ≢ b'%' → NoCode k (quoted_text s)
quoted_text-NoCode k s h n = quote-NoCode no_more k h refl (encode s) n (encode-IsBytes s)

pub quoted_text-IsWord : (s : String) → IsWord (quoted_text s)
unfolding always_safe
quoted_text-IsWord s =
    IsWord-of (quoted_text s) (quoted_text-NoCode b'?' s refl (omega arith))
      (quoted_text-NoCode b'&' s refl (omega arith)) (quoted_text-NoCode b'=' s refl (omega arith))

either-ne-nil : (b : Bool) (c d : Char) (s t : String) → (if b then c ∷ s else d ∷ t) ≢ ""
either-ne-nil true c d s t = cc
either-ne-nil false c d s t = cc

quoted-ne-nil : (c : Char) (t : String) → quoted no_more c t ≢ ""
unfolding quoted
quoted-ne-nil c t =
    either-ne-nil (always_safe (code c) || false) c (byte b'%') t
      (hex_digit (code c / 16) ∷ hex_digit (code c % 16) ∷ t)

quote-ne-nil : (s : String) → s ≢ "" → quote no_more s ≢ ""
unfolding quote
quote-ne-nil [] h = absurd (h refl)
quote-ne-nil (c ∷ s) h = quoted-ne-nil c (quote no_more s)

pub quoted_text-ne-nil : (s : String) → s ≢ "" → quoted_text s ≢ ""
quoted_text-ne-nil s h = quote-ne-nil (encode s) (encode-ne-nil s h)

always_safe-ascii : (b : ℕ) → always_safe b ≡ true → ltb b 128 ≡ true
unfolding always_safe
always_safe-ascii b h = ground arith

quoted-ascii :
    (c : Char) (t : String)
    → code c < 256
    → is_ascii t ≡ true
    → (b : Bool) → (always_safe (code c) || false) ≡ b
    → is_ascii (quoted no_more c t) ≡ true
unfolding quoted is_ascii
quoted-ascii c t h g true e =
    let safe : always_safe (code c) ≡ true = ground arith in
    rw (e, always_safe-ascii (code c) safe, g) refl
quoted-ascii c t h g false e =
    let p =
      always_safe-ascii (code (hex_digit (code c / 16)))
        (hex_digit-safe (code c / 16) (omega arith)) in
    let q =
      always_safe-ascii (code (hex_digit (code c % 16)))
        (hex_digit-safe (code c % 16) (omega arith)) in
    let r : ltb (code (byte b'%')) 128 ≡ true = unfold byte in refl in rw (e, r, p, q, g) refl

quote-ascii : (s : String) → IsBytes s → is_ascii (quote no_more s) ≡ true
unfolding quote
quote-ascii [] h = unfold is_ascii in refl
quote-ascii (c ∷ s) (p, h) =
    quoted-ascii c (quote no_more s) p (quote-ascii s h) (always_safe (code c) || false) refl

pub quoted_text-ascii : (s : String) → is_ascii (quoted_text s) ≡ true
quoted_text-ascii s = quote-ascii (encode s) (encode-IsBytes s)
