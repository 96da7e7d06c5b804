-- ===== src/RateLimit/Fixed/Agreement.antt =====
-- The two stores of api/src/rateLimit.ts do the same, by the same clock.
use stellar_analytics_dashbo.Prelude.{
  ℕ, ◌≡◌, refl, ◌∙◌, ap, true, false, Option, none, some, List, [], ◌∷◌, String, find, arith,
  Bool-cases, inl, inr,
}
use stellar_analytics_dashbo.Prelude.Text.{str_eq_refl, str_eq_path, str_eq_right}
use stellar_analytics_dashbo.RateLimit.Entries.{Entry, has_key, set_entry, fresh}
use stellar_analytics_dashbo.RateLimit.Memory
use stellar_analytics_dashbo.RateLimit.Postgres
use stellar_analytics_dashbo.RateLimit.Postgres.{upsert, conflicting}
use stellar_analytics_dashbo.RateLimit.Fixed.{
  memory, postgres, check_rate_limit, Op, checks, prunes, step, run,
}

-- A record that is found has its key.
abbrev pub IsOf : String → Option Entry → Type 0
IsOf key none = Unit
IsOf key (some e) = has_key key e ≡ true

pub find-IsOf : (key : String) (es : List Entry) → IsOf key (find (has_key key) es)
find-IsOf key [] = tt
find-IsOf key (e ∷ es) = elim (Bool-cases (has_key key e)) [
  | inl h ↦ rw h h
  | inr h ↦ rw h (find-IsOf key es)
]

module _ (key : String) (window_ms now : ℕ) where
  here :
      (e : Entry) (es : List Entry)
      → has_key key e ≡ true
      → Memory.increment_at key window_ms now (e ∷ es) (some e) ≡ (
        conflicting (fresh key window_ms now) now e ∷ es,
        conflicting (fresh key window_ms now) now e,
      )
  unfolding Memory.increment_at set_entry
  here e es h = ground (arith, str_eq_path e.key key h, str_eq_refl e.key)

  past :
      (e : Entry) (es : List Entry) (o : Option Entry)
      → has_key key e ≡ false
      → IsOf key o
      → Memory.increment_at key window_ms now (e ∷ es) o ≡ (
        e ∷ (Memory.increment_at key window_ms now es o).0,
        (Memory.increment_at key window_ms now es o).1,
      )
  unfolding Memory.increment_at set_entry
  past e es none h p = ground arith
  past e es (some x) h p = ground (arith, str_eq_right x.key key e.key p)

  increment_at-upsert :
      (es : List Entry)
      → Memory.increment_at key window_ms now es (find (has_key key) es)
        ≡ upsert (fresh key window_ms now) now es
  unfolding upsert
  increment_at-upsert [] = unfold Memory.increment_at set_entry in refl
  increment_at-upsert (e ∷ es) = elim (Bool-cases (has_key key e)) [
    | inl h ↦ rw (h, upsert) (here e es h)
    | inr h ↦
        rw (h, upsert)
          (past e es (find (has_key key) es) h (find-IsOf key es)
            ∙ ap (λ (r : List Entry × Entry). (e ∷ r.0, r.1)) (increment_at-upsert es))
  ]

increment-increment :
    (key : String) (window_ms now : ℕ) (es : List Entry)
    → Memory.increment key window_ms now es ≡ Postgres.increment key window_ms now es
unfolding Memory.increment Postgres.increment
increment-increment key window_ms now es = increment_at-upsert key window_ms now es

prune-prune : (now : ℕ) (es : List Entry) → Memory.prune now es ≡ Postgres.prune now es
unfolding Memory.prune Postgres.prune
prune-prune now [] = refl
prune-prune now (e ∷ es) = ground (arith, prune-prune now es)

module _ (max window_ms : ℕ) where
  step-step :
      (op : Op) (es : List Entry)
      → step memory max window_ms op es ≡ step postgres max window_ms op es
  unfolding step check_rate_limit
  step-step (checks key now) es = rw (increment-increment key window_ms now es) refl
  step-step (prunes now) es = rw (prune-prune now es) refl

  -- Whatever requests are checked and whenever it is pruned, the store in memory and the one in
  -- PostgreSQL give the same answers and come to the same records, on the same clock.
  pub run-run :
      (ops : List Op) (es : List Entry)
      → run memory max window_ms ops es ≡ run postgres max window_ms ops es
  unfolding run
  run-run [] es = refl
  run-run (op ∷ ops) es =
      rw (step-step op es) (rw (run-run ops (step postgres max window_ms op es).0) refl)
