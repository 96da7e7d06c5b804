-- ===== src/Prelude/Text.antt =====
-- Whole texts compared: keys, tags and names.
use text.Mathlib.Text.{◌==◌}
use text.Mathlib.TextEquality.{eq_iff}
use stellar_analytics_dashbo.Prelude.{String, ◌≡◌, ◌↔◌, Bool, true, refl, sym, subst}

-- `a === b` on strings.
abbrev pub str_eq : String → String → Bool
str_eq a b = a == b

pub str_eq_iff : (a b : String) → (str_eq a b ≡ true) ↔ (a ≡ b)
str_eq_iff a b = eq_iff a b

pub str_eq_refl : (a : String) → str_eq a a ≡ true
str_eq_refl a = (str_eq_iff a a).1 refl

pub str_eq_path : (a b : String) → str_eq a b ≡ true → a ≡ b
str_eq_path a b = (str_eq_iff a b).0

-- Equal texts are equal to the same texts.
pub str_eq_left : (a b c : String) → str_eq a b ≡ true → str_eq a c ≡ str_eq b c
str_eq_left a b c e = subst (λ x. str_eq x c ≡ str_eq b c) (sym (str_eq_path a b e)) refl

pub str_eq_right : (a b c : String) → str_eq a b ≡ true → str_eq c a ≡ str_eq c b
str_eq_right a b c e = subst (λ x. str_eq c x ≡ str_eq c b) (sym (str_eq_path a b e)) refl
