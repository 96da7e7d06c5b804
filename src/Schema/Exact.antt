-- ===== src/Schema/Exact.antt =====
-- What it means that `validateMigrations` of schema-version.ts finds no error.
use stellar_analytics_dashbo.Prelude.{
  ℕ, ◌+◌, ◌≤◌, ◌<◌, ◌≡◌, ◌↔◌, inl, inr, refl, ap, ap₂, sym, subst, ◌∙◌, Bool, true, false, not,
  some, List, [], ◌∷◌, ◌++◌, map, filter, String, leb, All, arith, Bool-cases,
}
use stellar_analytics_dashbo.Prelude.Text.{str_eq, str_eq_refl, str_eq_path}
use stellar_analytics_dashbo.Schema.Semver.{is_named, timestamp, misnamed, missing, unexpected}
use stellar_analytics_dashbo.Schema.Migrations.{
  Migration, includes, order_from, order_errors, name_errors, expected_errors, applied_names,
  check_applied, validate_migrations,
}

-- Each timestamp is above all before it.
abbrev pub Ascending : List String → Type 0
Ascending [] = Unit
Ascending (x ∷ xs) = All (λ y. timestamp x < timestamp y) xs × Ascending xs

append-empty : {A : Type 0} (xs ys : List A) → xs ++ ys ≡ [] → (xs ≡ []) × (ys ≡ [])
append-empty [] ys e = (refl, e)
append-empty (x ∷ xs) ys e = cc

module _ (message : String → String) (p : String → Bool) where
  filter-none : (xs : List String) → map message (filter p xs) ≡ [] → All (λ x. p x ≡ false) xs
  filter-none [] e = tt
  filter-none (x ∷ xs) e = elim (Bool-cases (p x)) [
    | inl t ↦ absurd (ground arith)
    | inr f ↦ (f, filter-none xs (rw f at e))
  ]

  none-filter : (xs : List String) → All (λ x. p x ≡ false) xs → map message (filter p xs) ≡ []
  none-filter [] h = refl
  none-filter (x ∷ xs) h = rw (h.0) (none-filter xs h.1)

above-weaken :
    (m n : ℕ) (xs : List String)
    → m ≤ n
    → All (λ y. n < timestamp y) xs
    → All (λ y. m < timestamp y) xs
above-weaken m n [] le h = tt
above-weaken m n (x ∷ xs) le h = (omega (arith, h.0), above-weaken m n xs le h.1)

order_from-ascends :
    (i before : ℕ) (xs : List String)
    → order_from i before (map timestamp xs) ≡ []
    → All (λ y. before < timestamp y) xs × Ascending xs
unfolding order_from
order_from-ascends i before [] e = (tt, tt)
order_from-ascends i before (x ∷ xs) e = elim (Bool-cases (leb (timestamp x) before)) [
  | inl t ↦ absurd (ground arith)
  | inr f ↦
      let (above, up) = order_from-ascends (i + 1) (timestamp x) xs (rw f at e) in
      let lt : before < timestamp x = ground arith in
      ((lt, above-weaken before (timestamp x) xs (omega arith) above), (above, up))
]

ascends-order_from :
    (i before : ℕ) (xs : List String)
    → All (λ y. before < timestamp y) xs
    → Ascending xs
    → order_from i before (map timestamp xs) ≡ []
unfolding order_from
ascends-order_from i before [] above up = refl
ascends-order_from i before (x ∷ xs) above up =
    ground (arith, above.0, ascends-order_from (i + 1) (timestamp x) xs up.0 up.1)

includes-above :
    (n : ℕ) (xs : List String) (x : String)
    → All (λ y. n < timestamp y) xs
    → includes xs x ≡ true
    → n < timestamp x
includes-above n [] x h e = cc
includes-above n (y ∷ ys) x h e = elim (Bool-cases (str_eq y x)) [
  | inl t ↦ subst (λ z. n < timestamp z) (str_eq_path y x t) h.0
  | inr f ↦ includes-above n ys x h.1 (rw f at e)
]

-- Names behind `e` are not `e`.
tail-included :
    (e : String) (es ys : List String)
    → All (λ y. timestamp e < timestamp y) ys
    → All (λ y. includes (e ∷ es) y ≡ true) ys
    → All (λ y. includes es y ≡ true) ys
tail-included e es [] above h = tt
tail-included e es (y ∷ ys) above h = (
  elim (Bool-cases (str_eq e y)) [
    | inl t ↦
        absurd (omega (arith, subst (λ z. timestamp z < timestamp y) (str_eq_path e y t) above.0))
    | inr f ↦ rw f at h.0
  ],
  tail-included e es ys above.1 h.1,
)

-- Lists in the order of their timestamps that include one another begin with the same name.
same-head :
    (x e : String) (xs es : List String)
    → Ascending (x ∷ xs)
    → Ascending (e ∷ es)
    → includes (e ∷ es) x ≡ true
    → includes (x ∷ xs) e ≡ true
    → x ≡ e
same-head x e xs es ux ue ix ie = elim (Bool-cases (str_eq e x)) [
  | inl t ↦ sym (str_eq_path e x t)
  | inr f ↦ elim (Bool-cases (str_eq x e)) [
    | inl t ↦ str_eq_path x e t
    | inr g ↦ absurd (
        omega (
          arith,
          includes-above (timestamp e) es x ue.0 (rw f at ix),
          includes-above (timestamp x) xs e ux.0 (rw g at ie),
        ))
  ]
]

same-names :
    (xs es : List String)
    → Ascending xs
    → Ascending es
    → All (λ x. includes es x ≡ true) xs
    → All (λ e. includes xs e ≡ true) es
    → xs ≡ es
same-names [] [] ux ue ix ie = refl
same-names [] (e ∷ es) ux ue ix ie = cc
same-names (x ∷ xs) [] ux ue ix ie = cc
same-names (x ∷ xs) (e ∷ es) ux ue ix ie =
    let eq = same-head x e xs es ux ue ix.0 ie.0 in
    ap₂ (λ y ys. y ∷ ys) eq
      (same-names xs es ux.1 ue.1
        (tail-included e es xs (subst (λ z. All (λ y. timestamp z < timestamp y) xs) eq ux.0) ix.1)
        (tail-included x xs es (subst (λ z. All (λ y. timestamp z < timestamp y) es) (sym eq) ue.0)
          ie.1))

All-not :
    (p : String → Bool) (xs : List String)
    → All (λ x. not (p x) ≡ false) xs
    → All (λ x. p x ≡ true) xs
All-not p [] h = tt
All-not p (x ∷ xs) h = (ground (arith, h.0), All-not p xs h.1)

not-All :
    (p : String → Bool) (xs : List String)
    → All (λ x. p x ≡ true) xs
    → All (λ x. not (p x) ≡ false) xs
not-All p [] h = tt
not-All p (x ∷ xs) h = (ground (arith, h.0), not-All p xs h.1)

validated :
    (e : String) (es : List String) (applied : List String)
    → Ascending (e ∷ es)
    → check_applied (some (e ∷ es)) applied ≡ []
    → applied ≡ e ∷ es
unfolding expected_errors order_errors
validated e es [] up h = cc
validated e es (a ∷ as') up h =
    let (_, expected) =
      append-empty (name_errors (a ∷ as')) (expected_errors (some (e ∷ es)) (a ∷ as')) h in
    let (lacking, rest) =
      append-empty (map missing (filter (λ n. not (includes (a ∷ as') n)) (e ∷ es))) _ expected in
    let (surplus, order) =
      append-empty (map unexpected (filter (λ n. not (includes (e ∷ es) n)) (a ∷ as'))) _ rest in
    same-names (a ∷ as') (e ∷ es) (order_from-ascends 1 (timestamp a) as' order) up
      (All-not (includes (e ∷ es)) (a ∷ as')
        (filter-none unexpected (λ n. not (includes (e ∷ es) n)) (a ∷ as') surplus))
      (All-not (includes (a ∷ as')) (e ∷ es)
        (filter-none missing (λ n. not (includes (a ∷ as') n)) (e ∷ es) lacking))

includes-more :
    (x : String) (xs ys : List String)
    → All (λ y. includes xs y ≡ true) ys
    → All (λ y. includes (x ∷ xs) y ≡ true) ys
includes-more x xs [] h = tt
includes-more x xs (y ∷ ys) h = (ground (arith, h.0), includes-more x xs ys h.1)

includes_self : (xs : List String) → All (λ x. includes xs x ≡ true) xs
includes_self [] = tt
includes_self (x ∷ xs) = (rw (str_eq_refl x) refl, includes-more x xs xs (includes_self xs))

valid :
    (e : String) (es : List String)
    → Ascending (e ∷ es)
    → All (λ n. is_named n ≡ true) (e ∷ es)
    → check_applied (some (e ∷ es)) (e ∷ es) ≡ []
unfolding name_errors expected_errors order_errors
valid e es up named =
    rw (none-filter misnamed (λ n. not (is_named n)) (e ∷ es) (not-All is_named (e ∷ es) named)) (
      rw
        (none-filter missing (λ n. not (includes (e ∷ es) n)) (e ∷ es)
          (not-All (includes (e ∷ es)) (e ∷ es) (includes_self (e ∷ es))))
        (rw
          (none-filter unexpected (λ n. not (includes (e ∷ es) n)) (e ∷ es)
            (not-All (includes (e ∷ es)) (e ∷ es) (includes_self (e ∷ es))))
          (ascends-order_from 1 (timestamp e) es up.0 up.1)))

-- Against names that are in the order of their timestamps and well formed, and not none: no error is found
-- just if exactly these are applied, in this order.
pub validate_migrations-exact :
    (e : String) (es : List String) (rows : List Migration)
    → Ascending (e ∷ es)
    → All (λ n. is_named n ≡ true) (e ∷ es)
    → (validate_migrations (some (e ∷ es)) (some rows) ≡ []) ↔ (applied_names rows ≡ e ∷ es)
unfolding validate_migrations
validate_migrations-exact e es rows up named = (
  λ h. validated e es (applied_names rows) up h,
  λ same. ap (check_applied (some (e ∷ es))) same ∙ valid e es up named,
)
