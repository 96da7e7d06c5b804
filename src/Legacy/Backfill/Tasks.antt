-- ===== src/Legacy/Backfill/Tasks.antt =====
-- What the tasks and the tally of a batch of indexer/src/backfill.ts do.
use stellar_analytics_dashbo.Prelude.{
  ℕ, suc, ◌+◌, ◌<◌, ◌≤◌, ◌≡◌, inl, inr, subst, true, Option, none, some, List, [], ◌∷◌, ◌==◌, arith,
  Bool-cases, Option-cases, length, get_elem?, is_some,
}
use stellar_analytics_dashbo.Legacy.Workers.{Settled, fulfilled, rejected, is_in}
use stellar_analytics_dashbo.Legacy.Ledgers.{
  BackfillOptions, Calls, Processing, processed, skipped, is_ledger_indexed, insert_ledger,
  write_ingested_data, process_one_ledger, task_of,
}
use stellar_analytics_dashbo.Legacy.Backfill.{Counters, count_result, tally}

module _ (o : BackfillOptions) (calls : Calls) where
  insert-grows :
      (q x : ℕ) (ledgers : List ℕ)
      → is_in ledgers x ≡ true
      → is_in (insert_ledger q ledgers) x ≡ true
  unfolding insert_ledger
  insert-grows q x ledgers h = ground arith

  insert-stored : (q : ℕ) (ledgers : List ℕ) → is_in (insert_ledger q ledgers) q ≡ true
  unfolding insert_ledger
  insert-stored q ledgers = ground arith

  -- No task takes a ledger out of the table.
  process-grows :
      (q x : ℕ) (ledgers : List ℕ)
      → is_in ledgers x ≡ true
      → is_in (process_one_ledger o calls q ledgers).1 x ≡ true
  unfolding process_one_ledger write_ingested_data
  process-grows q x ledgers h = ground (
    arith,
    insert-grows q x ledgers,
    Option-cases (calls.fetch_one_ledger q),
    Option-cases (calls.write_error q),
  )

  abbrev pub StoredIf : Settled Processing → ℕ → List ℕ → Type 0
  StoredIf (fulfilled p) q ledgers = is_in ledgers q ≡ true
  StoredIf (rejected e) q ledgers = Unit

  indexed-stored :
      (q : ℕ) (ledgers : List ℕ)
      → is_ledger_indexed o calls q ledgers ≡ true
      → is_in ledgers q ≡ true
  unfolding is_ledger_indexed
  indexed-stored q ledgers h = ground arith

  -- With a database, a ledger that is processed or skipped is stored.
  process-stored :
      (q : ℕ) (ledgers : List ℕ)
      → o.pool ≡ true
      → StoredIf (process_one_ledger o calls q ledgers).0 q (process_one_ledger o calls q ledgers).1
  unfolding process_one_ledger write_ingested_data
  process-stored q ledgers pool = elim (Bool-cases (is_ledger_indexed o calls q ledgers)) [
    | inl e ↦ rw (e, process_one_ledger) (indexed-stored q ledgers e)
    | inr e ↦
        rw (e, process_one_ledger)
          (elim (Option-cases (calls.fetch_one_ledger q)) [
            | inr (m, f) ↦ rw f tt
            | inl f ↦ rw f (elim (Option-cases (calls.write_error q)) [
              | inr (m, g) ↦ simp (pool, g) tt
              | inl g ↦ simp (pool, g) (insert-stored q ledgers)
            ])
          ])
  ]

  pub task-grows :
      (batch : List ℕ) (i x : ℕ) (ledgers : List ℕ)
      → is_in ledgers x ≡ true
      → is_in (task_of o calls batch i ledgers).1 x ≡ true
  unfolding task_of
  task-grows batch i x ledgers h = elim (Option-cases (get_elem? batch i)) [
    | inl e ↦ rw (e, task_of) h
    | inr (q, e) ↦ rw (e, task_of) (process-grows q x ledgers h)
  ]

  -- The result of task `i`, on the table after it.
  abbrev pub Stored : List ℕ → ℕ → Settled Processing → List ℕ → Type 0
  Stored batch i r ledgers = (q : ℕ) → get_elem? batch i ≡ some q → StoredIf r q ledgers

  StoredIf-grows :
      (batch : List ℕ) (i j q : ℕ) (r : Settled Processing) (ledgers : List ℕ)
      → StoredIf r q ledgers
      → StoredIf r q (task_of o calls batch j ledgers).1
  StoredIf-grows batch i j q (fulfilled p) ledgers h = task-grows batch j q ledgers h
  StoredIf-grows batch i j q (rejected e) ledgers h = tt

  pub Stored-grows :
      (batch : List ℕ) (i j : ℕ) (r : Settled Processing) (ledgers : List ℕ)
      → Stored batch i r ledgers
      → Stored batch i r (task_of o calls batch j ledgers).1
  Stored-grows batch i j r ledgers h q e = StoredIf-grows batch i j q r ledgers (h q e)

  pub task-Stored :
      (batch : List ℕ) (i : ℕ) (ledgers : List ℕ)
      → o.pool ≡ true
      → Stored batch i (task_of o calls batch i ledgers).0 (task_of o calls batch i ledgers).1
  unfolding task_of
  task-Stored batch i ledgers pool q e = rw (e, task_of) (process-stored q ledgers pool)

abbrev pub total : Counters → ℕ
total c = c.processed + c.skipped + c.failed

count_result-total :
    (q : ℕ) (r : Option (Settled Processing)) (c : Counters)
    → is_some r ≡ true
    → total (count_result q r c) ≡ suc (total c)
unfolding count_result
count_result-total q none c h = cc
count_result-total q (some (fulfilled processed)) c h = omega arith
count_result-total q (some (fulfilled skipped)) c h = omega arith
count_result-total q (some (rejected e)) c h = omega arith

-- Where no result is a hole, the tally counts every ledger of the batch.
pub tally-total :
    (results : ℕ → Option (Settled Processing)) (i : ℕ) (batch : List ℕ) (c : Counters)
    → ((j : ℕ) → j < i + length batch → is_some (results j) ≡ true)
    → total (tally results i batch c) ≡ total c + length batch
unfolding tally
tally-total results i [] c h = omega arith
tally-total results i (q ∷ batch) c h = omega (
  arith,
  tally-total results (suc i) batch (count_result q (results i) c) (λ j k. h j (omega arith)),
  count_result-total q (results i) c (h i (omega arith)),
)

abbrev pub IsFine : Option (Settled Processing) → Type 0
IsFine none = Unit
IsFine (some (fulfilled p)) = Unit
IsFine (some (rejected e)) = ⊥

count_result-IsFine :
    (q : ℕ) (r : Option (Settled Processing)) (c : Counters)
    → (count_result q r c).last_failed ≡ none
    → (c.last_failed ≡ none) × IsFine r
unfolding count_result
count_result-IsFine q none c h = (h, tt)
count_result-IsFine q (some (fulfilled processed)) c h = (h, tt)
count_result-IsFine q (some (fulfilled skipped)) c h = (h, tt)
count_result-IsFine q (some (rejected e)) c h = absurd (ground arith)

-- A tally without a failure has met none.
pub tally-IsFine :
    (results : ℕ → Option (Settled Processing)) (i : ℕ) (batch : List ℕ) (c : Counters)
    → (tally results i batch c).last_failed ≡ none
    → (c.last_failed ≡ none) × ((k : ℕ) → i ≤ k → k < i + length batch → IsFine (results k))
unfolding tally
tally-IsFine results i [] c h = (h, λ k a b. absurd (omega arith))
tally-IsFine results i (q ∷ batch) c h =
    let (before, later) = tally-IsFine results (suc i) batch (count_result q (results i) c) h in
    let (c_fine, fine) = count_result-IsFine q (results i) c before in
    (
      c_fine,
      λ k a b. elim (Bool-cases (i == k)) [
        | inl here ↦ let same : i ≡ k = ground arith in subst (λ m. IsFine (results m)) same fine
        | inr after ↦ later k (ground arith) (omega arith)
      ],
    )
