-- ===== src/Legacy/Backfill/Complete.antt =====
-- A run of indexer/src/backfill.ts that is not aborted works on every ledger that is left.
use stellar_analytics_dashbo.Prelude.{
  ℕ, ◌+◌, ◌<◌, ◌≡◌, inl, inr, ◌⊎◌, refl, ◌∙◌, sym, ap, true, false, Option, none, some, List, [],
  ◌∷◌, arith, Option-cases, length, get_elem?, is_some, All,
}
use stellar_analytics_dashbo.Backfill.Checkpoint.{Table}
use stellar_analytics_dashbo.Legacy.Checkpoint.{load_checkpoint}
use stellar_analytics_dashbo.Legacy.Workers.{Settled, fulfilled, rejected, is_in, is_done}
use stellar_analytics_dashbo.Legacy.Workers.Results.{start-Justified}
use stellar_analytics_dashbo.Legacy.Ledgers.{BackfillOptions, Calls, Processing, task_of}
use stellar_analytics_dashbo.Legacy.Backfill.{
  Round, Loop, is_nil, BackfillResult, returned, tally, batch_of, workers_of, after_batch,
  run_batches, begin_backfill, begin_fresh, begin_existing, job_id_of, run_backfill,
}
use stellar_analytics_dashbo.Legacy.Backfill.Rounds.{run_batches-keeps, run_batches-ends}
use stellar_analytics_dashbo.Legacy.Backfill.Tasks.{
  total, tally-total, Stored, Stored-grows, task-Stored, task-grows, IsFine, tally-IsFine,
}
use stellar_analytics_dashbo.Legacy.Backfill.Ends.{returned_from}
use stellar_analytics_dashbo.Legacy.Backfill.Quiet.{
  IsQuiet, length-take-drop, is_in-take-drop, index_of, quiet-aborted, batch-results,
}

is_nil-length : (xs : List ℕ) → is_nil xs ≡ true → length xs ≡ 0
is_nil-length [] h = refl
is_nil-length (x ∷ xs) h = cc

is_nil-is_in : (xs : List ℕ) (x : ℕ) → is_nil xs ≡ true → is_in xs x ≡ false
is_nil-is_in [] x h = refl
is_nil-is_in (y ∷ xs) x h = cc

begin-unaborted :
    (o : BackfillOptions) (ledgers : List ℕ) (t : Table) (now : ℕ)
    → ((begin_backfill o ledgers t now).aborted ≡ false)
      × ((begin_backfill o ledgers t now).ledgers ≡ ledgers)
unfolding begin_backfill begin_existing begin_fresh
begin-unaborted o ledgers t now = ground (arith, Option-cases (load_checkpoint (job_id_of o) t))

module _ (o : BackfillOptions) (calls : Calls) (workers : 0 < o.backfill_concurrency) where
  -- The ledgers counted and those left.
  abbrev Accounted : ℕ → Loop → Type 0
  Accounted n l = (l.aborted ≡ false) × (total l.counters + length l.rest ≡ n)

  after_batch-Accounted :
      (n : ℕ) (r : Round) (l : Loop)
      → IsQuiet r
      → l.aborted ≡ false
      → is_done (workers_of o calls r.events l) ≡ true
      → Accounted n l
      → Accounted n (after_batch o r.now (workers_of o calls r.events l) l)
  unfolding after_batch
  after_batch-Accounted n r l q go done acc = (
    quiet-aborted o calls workers r l q go,
    omega (
      arith,
      tally-total (workers_of o calls r.events l).results 0 (batch_of o l) l.counters
          (λ j lt. batch-results o calls workers r l q go done j (omega arith)),
      length-take-drop o.backfill_batch_size l.rest,
      acc.1,
    ),
  )

  loop-Accounted :
      (n : ℕ) (rounds : List Round) (l l' : Loop)
      → All IsQuiet rounds
      → Accounted n l
      → run_batches o calls rounds l ≡ some l'
      → Accounted n l'
  loop-Accounted n rounds l l' quiet acc e =
      run_batches-keeps o calls (Accounted n) IsQuiet (after_batch-Accounted n)
        (λ r l q stop acc. absurd (ground arith)) rounds l l' quiet acc e

  nothing_left :
      (rounds : List Round) (first l : Loop)
      → run_batches o calls rounds first ≡ some l
      → l.aborted ≡ false
      → is_nil l.rest ≡ true
  nothing_left rounds first l ran go = elim (run_batches-ends o calls rounds first l ran) [
    | inl nil ↦ nil
    | inr stop ↦ absurd (ground arith)
  ]

  -- A run that is not aborted and returns has counted each ledger that was left once: as processed,
  -- skipped or failed.
  pub run_backfill-total :
      (rounds : List Round) (ledgers : List ℕ) (t : Table) (now end : ℕ) {r : BackfillResult}
      {ledgers' : List ℕ} {t' : Table}
      → All IsQuiet rounds
      → run_backfill o calls rounds ledgers t now end ≡ returned r ledgers' t'
      → r.processed + r.skipped + r.failed
        ≡ total (begin_backfill o ledgers t now).counters
          + length (begin_backfill o ledgers t now).rest
  run_backfill-total rounds ledgers t now end quiet e =
      let (l, ran, er, el, et, le) = returned_from o calls rounds ledgers t now end e in
      let first = begin_backfill o ledgers t now in
      let (go, sum) =
        loop-Accounted (total first.counters + length first.rest) rounds first l quiet
          ((begin-unaborted o ledgers t now).0, refl) ran in
      let nothing = is_nil-length l.rest (nothing_left rounds first l ran go) in
      omega (
        arith,
        ap BackfillResult.processed er,
        ap BackfillResult.skipped er,
        ap BackfillResult.failed er,
        sum,
        nothing,
      )

  -- Where the run has met no failure, a ledger to work on is left or stored.
  abbrev Covered : Loop → Loop → Type 0
  Covered first l =
      (l.aborted ≡ false)
      × ((x : ℕ) → is_in first.ledgers x ≡ true → is_in l.ledgers x ≡ true)
      × (l.counters.last_failed ≡ none
          → (x : ℕ) → is_in first.rest x ≡ true
          → (is_in l.rest x ≡ true) ⊎ (is_in l.ledgers x ≡ true))

  -- The tasks of a batch keep what is stored, and store what they do not fail on.
  batch-stores :
      (r : Round) (l : Loop)
      → o.pool ≡ true
      → ((x : ℕ) → is_in l.ledgers x ≡ true → is_in (workers_of o calls r.events l).state x ≡ true)
        × ((i : ℕ) (q : Settled Processing)
            → (workers_of o calls r.events l).results i ≡ some q
            → Stored o calls (batch_of o l) i q (workers_of o calls r.events l).state)
  unfolding workers_of
  batch-stores r l pool =
      start-Justified (task_of o calls (batch_of o l))
        (λ s. (x : ℕ) → is_in l.ledgers x ≡ true → is_in s x ≡ true) (Stored o calls (batch_of o l))
        (λ i s h x m. task-grows o calls (batch_of o l) i x s (h x m))
        (λ i s h. task-Stored o calls (batch_of o l) i s pool)
        (λ i j q s h k. Stored-grows o calls (batch_of o l) i j q s k) r.events
        o.backfill_concurrency (length (batch_of o l)) l.aborted l.ledgers (λ x m. m)

  fine-Stored :
      (batch : List ℕ) (i x : ℕ) (q : Option (Settled Processing)) (ledgers : List ℕ)
      → is_some q ≡ true
      → IsFine q
      → ((p : Settled Processing) → q ≡ some p → Stored o calls batch i p ledgers)
      → get_elem? batch i ≡ some x
      → is_in ledgers x ≡ true
  fine-Stored batch i x none ledgers h fine k e = cc
  fine-Stored batch i x (some (fulfilled p)) ledgers h fine k e = k (fulfilled p) refl x e
  fine-Stored batch i x (some (rejected m)) ledgers h fine k e = absurd fine

  batch-Stored :
      (r : Round) (l : Loop)
      → o.pool ≡ true
      → IsQuiet r
      → l.aborted ≡ false
      → is_done (workers_of o calls r.events l) ≡ true
      → (tally (workers_of o calls r.events l).results 0 (batch_of o l) l.counters).last_failed
        ≡ none
      → (x : ℕ) → is_in (batch_of o l) x ≡ true
      → is_in (workers_of o calls r.events l).state x ≡ true
  batch-Stored r l pool q go done none_failed x m =
      let (i, lt, e) = index_of (batch_of o l) x m in
      let w = workers_of o calls r.events l in
      let (before, fine) = tally-IsFine w.results 0 (batch_of o l) l.counters none_failed in
      fine-Stored (batch_of o l) i x (w.results i) w.state
        (batch-results o calls workers r l q go done i lt) (fine i (omega arith) (omega arith))
        ((batch-stores r l pool).1 i) e

  after_batch-Covered :
      (first : Loop) (r : Round) (l : Loop)
      → o.pool ≡ true
      → IsQuiet r
      → l.aborted ≡ false
      → is_done (workers_of o calls r.events l) ≡ true
      → Covered first l
      → Covered first (after_batch o r.now (workers_of o calls r.events l) l)
  unfolding after_batch
  after_batch-Covered first r l pool q go done (a, keeps, covers) =
      let w = workers_of o calls r.events l in
      let grows = (batch-stores r l pool).0 in
      (
        quiet-aborted o calls workers r l q go,
        λ x m. grows x (keeps x m),
        λ none_failed x m.
            let (before, fine) = tally-IsFine w.results 0 (batch_of o l) l.counters none_failed in
            elim (covers before x m) [
              | inr stored ↦ inr (grows x stored)
              | inl left ↦ elim (is_in-take-drop o.backfill_batch_size l.rest x left) [
                | inr later ↦ inl later
                | inl now ↦ inr (batch-Stored r l pool q go done none_failed x now)
              ]
            ],
      )

  -- A run with a database that is not aborted, returns, and reports no failed ledger to resume from,
  -- leaves every ledger stored that was left to it, and each that was stored.
  pub run_backfill-stores :
      (rounds : List Round) (ledgers : List ℕ) (t : Table) (now end : ℕ) {r : BackfillResult}
      {ledgers' : List ℕ} {t' : Table}
      → o.pool ≡ true
      → All IsQuiet rounds
      → run_backfill o calls rounds ledgers t now end ≡ returned r ledgers' t'
      → r.resume_from ≡ none
      → (x : ℕ) → (is_in (begin_backfill o ledgers t now).rest x ≡ true) ⊎ (is_in ledgers x ≡ true)
      → is_in ledgers' x ≡ true
  run_backfill-stores rounds ledgers t now end pool quiet e none_failed x m =
      let (l, ran, er, el, et, le) = returned_from o calls rounds ledgers t now end e in
      let first = begin_backfill o ledgers t now in
      let (go, keeps, covers) =
        run_batches-keeps o calls (Covered first) IsQuiet
          (λ r l q go done. after_batch-Covered first r l pool q go done)
          (λ r l q stop acc. absurd (ground arith)) rounds first l quiet
          ((begin-unaborted o ledgers t now).0, λ x m. m, λ n x m. inl m) ran in
      let nil = is_nil-is_in l.rest x (nothing_left rounds first l ran go) in
      let same = (begin-unaborted o ledgers t now).1 in
      rw el (elim m [
        | inr stored ↦ keeps x (rw same stored)
        | inl todo ↦ elim (covers (ap BackfillResult.resume_from (sym er) ∙ none_failed) x todo) [
          | inl left ↦ absurd (ground arith)
          | inr stored ↦ stored
        ]
      ])
