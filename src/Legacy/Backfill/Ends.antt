-- ===== src/Legacy/Backfill/Ends.antt =====
-- The end of a run of indexer/src/backfill.ts: its report and its job, also after an abort.
use stellar_analytics_dashbo.Prelude.{
  ℕ, suc, ◌+◌, ◌-◌, ◌≤◌, ◌≡◌, ◌⊎◌, is_some, inl, inr, refl, ◌∙◌, true, false, Option, none, some,
  List, ◌∷◌, arith, find, Option-cases,
}
use stellar_analytics_dashbo.Backfill.Checkpoint.{completed, BackfillJob, Table, is_job}
use stellar_analytics_dashbo.Legacy.Checkpoint.{load_checkpoint}
use stellar_analytics_dashbo.Legacy.Workers.{Event}
use stellar_analytics_dashbo.Legacy.Ledgers.{BackfillOptions, Calls}
use stellar_analytics_dashbo.Legacy.Backfill.{
  Round, Loop, returned, is_nil, run_batches, cancel, job_id_of, finish, begin_backfill,
  begin_existing, begin_fresh, return_loop, run_backfill, BackfillResult, or_else, last_of,
  sequences, sequences_from,
}
use stellar_analytics_dashbo.Legacy.Backfill.Status.{
  Reports, begin_backfill-HasRow, run_batches-HasRow, finish-row, cancel_loop-HasRow,
}

abbrev pub result_of : Loop → BackfillResult
result_of l = record {
  processed = l.counters.processed;
  skipped = l.counters.skipped;
  failed = l.counters.failed;
  resume_from = l.counters.last_failed;
}

abbrev pub last_sequence : Loop → Option ℕ
last_sequence first = or_else (last_of first.rest) first.last

module _ (o : BackfillOptions) (calls : Calls) (rounds : List Round) (ledgers : List ℕ) (t : Table)
    (now end : ℕ) where
  -- What a run that returns has gone through.
  pub returned_from :
      {r : BackfillResult} {ledgers' : List ℕ} {t' : Table}
      → run_backfill o calls rounds ledgers t now end ≡ returned r ledgers' t'
      → (l : Loop) × (run_batches o calls rounds (begin_backfill o ledgers t now) ≡ some l)
        × (r ≡ result_of l)
        × (ledgers' ≡ l.ledgers)
        × (t' ≡ finish o (last_sequence (begin_backfill o ledgers t now)) end l)
        × (o.start_sequence ≤ o.end_sequence)
  unfolding run_backfill return_loop
  returned_from e =
      elim (Option-cases (run_batches o calls rounds (begin_backfill o ledgers t now))) [
        | inl wait ↦ absurd (ground arith)
        | inr (l, ran) ↦ (l, ran, ground arith, ground arith, ground arith, ground arith)
      ]

  -- The job of a run with a database that returns is never left cancelled, whatever the signal did: its
  -- status is failed if a ledger failed in this run and completed if not, with the run's counts; and a
  -- ledger failed, or its last sequence is the end.
  pub run_backfill-status :
      {r : BackfillResult} {ledgers' : List ℕ} {t' : Table}
      → o.pool ≡ true
      → run_backfill o calls rounds ledgers t now end ≡ returned r ledgers' t'
      → (j : BackfillJob) × (find (is_job (job_id_of o)) t'.rows ≡ some j)
        × Reports o r j
        × ((is_some r.resume_from ≡ true) ⊎ (j.last_processed_sequence ≡ some o.end_sequence))
  run_backfill-status pool e =
      let (l, ran, er, el, et, le) = returned_from e in
      let row =
        run_batches-HasRow o calls rounds _ l (begin_backfill-HasRow o ledgers t now pool) ran in
      let (j, there, status, p, s, f, last) =
        finish-row o (last_sequence (begin_backfill o ledgers t now)) end l pool row in
      (
        j,
        rw et there,
        rw er (status, p, s, f),
        elim (Option-cases l.counters.last_failed) [
          | inl nil ↦ inr (last nil)
          | inr (x, e) ↦ inl (rw er (rw e refl))
        ],
      )

sequences-more : (from to : ℕ) → from ≤ to → is_nil (sequences from to) ≡ false
unfolding sequences sequences_from
sequences-more from to h = let e : to + 1 - from ≡ suc (to - from) = omega arith in rw e refl

pub begin-fresh :
    (o : BackfillOptions) (ledgers : List ℕ) (t : Table) (now : ℕ)
    → o.pool ≡ true
    → load_checkpoint (job_id_of o) t ≡ none
    → begin_backfill o ledgers t now ≡ begin_fresh o ledgers t now
unfolding begin_backfill begin_existing
begin-fresh o ledgers t now pool new = ground arith

aborted-cancel :
    (o : BackfillOptions) (calls : Calls) (r : Round) (rs : List Round) (l : Loop)
    → r.signal ≡ true
    → is_nil l.rest ≡ false
    → run_batches o calls (r ∷ rs) l ≡ some (cancel o r.now l)
unfolding run_batches
aborted-cancel o calls r rs l stop more = ground arith

pub return-loop :
    (o : BackfillOptions) (calls : Calls) (rounds : List Round) (ledgers : List ℕ) (t : Table)
    (now end : ℕ) (l : Loop)
    → o.start_sequence ≤ o.end_sequence
    → run_batches o calls rounds (begin_backfill o ledgers t now) ≡ some l
    → run_backfill o calls rounds ledgers t now end
      ≡ returned
          (result_of l)
          l.ledgers
          (finish o (last_sequence (begin_backfill o ledgers t now)) end l)
unfolding run_backfill return_loop
return-loop o calls rounds ledgers t now end l le ran = ground arith

-- A run with a database, no checkpoint and a start that is not after the end, that finds the signal
-- aborted before its first batch, reports no ledger and stores none, and leaves its job completed up to
-- the end.
pub aborted_completes :
    (o : BackfillOptions) (calls : Calls) (events : List Event) (at : ℕ) (rs : List Round)
    (ledgers : List ℕ) (t : Table) (now end : ℕ)
    → o.pool ≡ true
    → o.start_sequence ≤ o.end_sequence
    → load_checkpoint (job_id_of o) t ≡ none
    → (t' : Table) × (run_backfill o calls
          (record { signal = true; events = events; now = at } ∷ rs)
          ledgers
          t
          now
          end
        ≡ returned
            (record { processed = 0; skipped = 0; failed = 0; resume_from = none })
            ledgers
            t')
      × (j : BackfillJob) × (find (is_job (job_id_of o)) t'.rows ≡ some j)
      × (j.status ≡ completed)
      × (j.last_processed_sequence ≡ some o.end_sequence)
unfolding cancel begin_fresh
aborted_completes o calls events at rs ledgers t now end pool le new =
    let r : Round = record { signal = true; events = events; now = at } in
    let first = begin_backfill o ledgers t now in
    let fresh = begin-fresh o ledgers t now pool new in
    let l = cancel o at first in
    let row = cancel_loop-HasRow o at first (begin_backfill-HasRow o ledgers t now pool) in
    let more : is_nil first.rest ≡ false =
      rw fresh (sequences-more o.start_sequence o.end_sequence le) in
    let ran = aborted-cancel o calls r rs first refl more in
    let none_failed : l.counters.last_failed ≡ none = rw fresh refl in
    let (j, there, status, p, s, f, last) = finish-row o (last_sequence first) end l pool row in
    (
      finish o (last_sequence first) end l,
      return-loop o calls (r ∷ rs) ledgers t now end l le ran ∙ rw fresh refl,
      j,
      there,
      status ∙ rw none_failed refl,
      last none_failed,
    )
