-- ===== src/Prelude/Decimal.antt =====
-- Numbers in template strings, as JavaScript writes an integer below 10 ^ 21.
use Prim.Native.String.{String, [], ◌∷◌, ◌++◌}
use Prim.Native.String.append
use Prim.Native.Char.{code}
use stellar_analytics_dashbo.Prelude.{
  ℕ, zero, suc, ◌+◌, ◌-◌, ◌*◌, ◌/◌, ◌%◌, ◌<◌, ◌≡◌, refl, sym, ap, ◌∙◌, ltb, ◌==◌, if◌then◌else◌,
  arith, Bool-cases, inl, inr,
}

unfoldable pub digit : ℕ → String
digit n =
    if n == 0
    then "0"
    else if n == 1
    then "1"
    else if n == 2
    then "2"
    else if n == 3
    then "3"
    else if n == 4
    then "4"
    else if n == 5
    then "5"
    else if n == 6
    then "6"
    else if n == 7
    then "7"
    else if n == 8
    then "8"
    else "9"

unfoldable pub digits : ℕ → ℕ → String
digits zero n = ""
digits (suc fuel) n =
    let front = digits fuel (n / 10) in if ltb n 10 then digit n else front ++ digit (n % 10)

-- A number has at most as many digits as its successor counts.
unfoldable pub decimal : ℕ → String
decimal n = digits (suc n) n

unfoldable pub value_from : ℕ → String → ℕ
value_from acc [] = acc
value_from acc (c ∷ s) = value_from (acc * 10 + (code c - 48)) s

value_from-append :
    (acc : ℕ) (s t : String) → value_from acc (s ++ t) ≡ value_from (value_from acc s) t
unfolding value_from
value_from-append acc [] t = rw (append.nil t) refl
value_from-append acc (c ∷ s) t =
    rw (append.cons c s t) (value_from-append (acc * 10 + (code c - 48)) s t)

value-digit : (acc d : ℕ) → d < 10 → value_from acc (digit d) ≡ acc * 10 + d
unfolding value_from digit
value-digit acc zero h = refl
value-digit acc (suc zero) h = refl
value-digit acc (suc (suc zero)) h = refl
value-digit acc (suc (suc (suc zero))) h = refl
value-digit acc (suc (suc (suc (suc zero)))) h = refl
value-digit acc (suc (suc (suc (suc (suc zero))))) h = refl
value-digit acc (suc (suc (suc (suc (suc (suc zero)))))) h = refl
value-digit acc (suc (suc (suc (suc (suc (suc (suc zero))))))) h = refl
value-digit acc (suc (suc (suc (suc (suc (suc (suc (suc zero)))))))) h = refl
value-digit acc (suc (suc (suc (suc (suc (suc (suc (suc (suc zero))))))))) h = refl
value-digit acc (suc (suc (suc (suc (suc (suc (suc (suc (suc (suc d)))))))))) h = omega arith

value-digits : (fuel n : ℕ) → n < fuel → value_from 0 (digits fuel n) ≡ n
unfolding digits
value-digits zero n h = omega arith
value-digits (suc fuel) n h = elim (Bool-cases (ltb n 10)) [
  | inl e ↦ rw e (value-digit 0 n (ground arith) ∙ omega arith)
  | inr e ↦ rw e (
      value_from-append 0 (digits fuel (n / 10)) (digit (n % 10))
      ∙ ap (λ x. value_from x (digit (n % 10))) (value-digits fuel (n / 10) (ground arith))
      ∙ value-digit (n / 10) (n % 10) (omega arith)
      ∙ omega arith)
]

-- Different numbers are written differently.
pub decimal_injective : (a b : ℕ) → decimal a ≡ decimal b → a ≡ b
unfolding decimal
decimal_injective a b e =
    sym (value-digits (suc a) a (omega arith))
    ∙ ap (value_from 0) e
    ∙ value-digits (suc b) b (omega arith)

decimal1234 : decimal 1234 ≡ "1234"
unfolding decimal digits digit
decimal1234 = refl

-- The text without as many characters as the first one has.
unfoldable past : String → String → String
past [] t = t
past (c ∷ s) [] = []
past (c ∷ s) (d ∷ t) = past s t

past-append : (s t : String) → past s (s ++ t) ≡ t
unfolding past
past-append [] t = rw (append.nil t) refl
past-append (c ∷ s) t = rw (append.cons c s t) (past-append s t)

pub append_cancel : (s a b : String) → s ++ a ≡ s ++ b → a ≡ b
append_cancel s a b e = sym (past-append s a) ∙ ap (past s) e ∙ past-append s b
