-- ===== src/Influx/Queries/Decimal.antt =====
-- The text of a number reads back as the number, so the fuel of its digits is enough.
use Prim.Native.String.{[], ◌∷◌}
use monasca_api.Prelude.{
  ◌≡◌, ◌∙◌, refl, ap, ℕ, zero, suc, ◌+◌, ◌-◌, ◌*◌, ◌/◌, ◌%◌, ◌<◌, ◌≤◌, Bool, true, false, String,
  code, ltb, arith,
}
use monasca_api.Influx.Bytes.{byte, code-byte}
use monasca_api.Influx.Queries.{digits, decimal}

-- the number of a text of digits, after the digits before it
unfoldable pub value : ℕ → String → ℕ
value n [] = n
value n (c ∷ s) = value (10 * n + (code c - 48)) s

value-digit : (n d : ℕ) (s : String) → d < 10 → value n (byte (48 + d) ∷ s) ≡ value (10 * n + d) s
unfolding value
value-digit n d s h =
    ap (λ c. value (10 * n + (c - 48)) s) (code-byte (48 + d) (omega arith))
    ∙ ap (λ m. value m s) (omega arith)

last_digit : (n : ℕ) (s : String) → n < 10 → value 0 (byte (48 + n) ∷ s) ≡ value n s
last_digit n s h = value-digit 0 n s h ∙ ap (λ m. value m s) (omega arith)

value-either :
    (b : Bool) (x y : String) (n : ℕ)
    → (b ≡ true → value 0 x ≡ n)
    → (b ≡ false → value 0 y ≡ n)
    → value 0 (elim b [ true ↦ x | false ↦ y ]) ≡ n
value-either true x y n h g = h refl
value-either false x y n h g = g refl

value-digits : (fuel n : ℕ) (s : String) → n < fuel → value 0 (digits fuel n s) ≡ value n s
unfolding digits
value-digits zero n s h = absurd (omega arith)
value-digits (suc fuel) n s h =
    let shorter = value-digits fuel (n / 10) (byte (48 + n % 10) ∷ s) in
    value-either (ltb n 10) _ _ _ (λ e. last_digit n s (ground arith))
      (λ e.
        let large : 10 ≤ n = ground arith in
        shorter (omega arith)
        ∙ value-digit (n / 10) (n % 10) s (omega arith)
        ∙ ap (λ m. value m s) (omega arith))

pub value-decimal : (n : ℕ) → value 0 (decimal n) ≡ n
unfolding decimal
value-decimal n = value-digits (suc n) n "" (omega arith) ∙ unfold value in refl

prints : decimal 1415894490 ≡ "1415894490"
unfolding decimal
prints = refl
