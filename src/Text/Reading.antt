-- ===== src/Text/Reading.antt =====
-- A decimal text that something else follows can be read back.
use Prim.Native.Char.{code}
use Prim.Native.String.{char_at}
use text.Mathlib.TextLemmas.{nil-append, cons-append}
use rust_experiments.Prelude.{
  ℕ, zero, suc, ◌+◌, ◌-◌, ◌*◌, ◌/◌, ◌%◌, ◌<◌, ◌≡◌, refl, sym, ap, ◌∙◌, String, ◌<>◌, ◌==◌, leb,
  ◌&&◌, if◌then◌else◌, arith, Bool-cases, ==→eq, ==→ne, inl, inr,
}
use rust_experiments.Text.{digit, to_decimal_from, to_decimal}

-- The number whose digits begin a text, after the digits of `acc`.
unfoldable prefix_value : ℕ → String → ℕ
prefix_value acc String.[] = acc
prefix_value acc (String.◌∷◌ c s) =
    let rest = prefix_value (acc * 10 + (code c - 48)) s in
    if leb 48 (code c) && leb (code c) 57 then rest else acc

code-digit : (d : ℕ) → d < 10 → code (digit d) ≡ 48 + d
code-digit zero h = refl
code-digit (suc zero) h = refl
code-digit (suc (suc zero)) h = refl
code-digit (suc (suc (suc zero))) h = refl
code-digit (suc (suc (suc (suc zero)))) h = refl
code-digit (suc (suc (suc (suc (suc zero))))) h = refl
code-digit (suc (suc (suc (suc (suc (suc zero)))))) h = refl
code-digit (suc (suc (suc (suc (suc (suc (suc zero))))))) h = refl
code-digit (suc (suc (suc (suc (suc (suc (suc (suc zero)))))))) h = refl
code-digit (suc (suc (suc (suc (suc (suc (suc (suc (suc zero))))))))) h = refl
code-digit (suc (suc (suc (suc (suc (suc (suc (suc (suc (suc d)))))))))) h = absurd (omega arith)

prefix_value-digit :
    (acc d : ℕ) (text : String)
    → d < 10
    → prefix_value acc (String.◌∷◌ (digit d) text) ≡ prefix_value (acc * 10 + d) text
unfolding prefix_value
prefix_value-digit acc d text h = ground (arith, code-digit d h)

prefix_value-to_decimal_from :
    (fuel n : ℕ) (text : String)
    → n < fuel
    → prefix_value 0 (to_decimal_from fuel n text) ≡ prefix_value n text
unfolding to_decimal_from
prefix_value-to_decimal_from zero n text h = absurd (omega arith)
prefix_value-to_decimal_from (suc fuel) n text h = elim (Bool-cases (n / 10 == 0)) [
  | inl e ↦ rw e (
      prefix_value-digit 0 (n % 10) text (omega arith)
      ∙ ap (λ k. prefix_value k text) (omega (arith, ==→eq (n / 10) 0 e)))
  | inr e ↦ rw e (
      prefix_value-to_decimal_from fuel (n / 10) (String.◌∷◌ (digit (n % 10)) text)
        (omega (arith, ==→ne (n / 10) 0 e))
      ∙ prefix_value-digit (n / 10) (n % 10) text (omega arith)
      ∙ ap (λ k. prefix_value k text) (omega arith))
]

to_decimal_from-append :
    (fuel n : ℕ) (text more : String)
    → to_decimal_from fuel n text <> more ≡ to_decimal_from fuel n (text <> more)
unfolding to_decimal_from
to_decimal_from-append zero n text more = refl
to_decimal_from-append (suc fuel) n text more =
    let first = digit (n % 10) in
    elim (Bool-cases (n / 10 == 0)) [
      | inl e ↦ rw e (cons-append first text more)
      | inr e ↦ rw e (
          to_decimal_from-append fuel (n / 10) (String.◌∷◌ first text) more
          ∙ ap (to_decimal_from fuel (n / 10)) (cons-append first text more))
    ]

to_decimal-read :
    (n : ℕ) (more : String) → prefix_value 0 (to_decimal n <> more) ≡ prefix_value n more
unfolding to_decimal
to_decimal-read n more =
    ap (prefix_value 0)
      (to_decimal_from-append (n + 1) n "" more ∙ ap (to_decimal_from (n + 1) n) (nil-append more))
    ∙ prefix_value-to_decimal_from (n + 1) n more (omega arith)

prefix_value-hyphen : (n : ℕ) (more : String) → prefix_value n ("-" <> more) ≡ n
unfolding prefix_value
prefix_value-hyphen n more = ap (prefix_value n) (cons-append (char_at "-" 0) "" more)

-- A number in front of a hyphen is known from the text.
pub to_decimal-injective :
    (m n : ℕ) (p q : String) → to_decimal m <> ("-" <> p) ≡ to_decimal n <> ("-" <> q) → m ≡ n
to_decimal-injective m n p q e =
    sym (to_decimal-read m ("-" <> p) ∙ prefix_value-hyphen m p)
    ∙ ap (prefix_value 0) e
    ∙ to_decimal-read n ("-" <> q)
    ∙ prefix_value-hyphen n q
