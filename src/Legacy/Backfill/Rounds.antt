-- ===== src/Legacy/Backfill/Rounds.antt =====
-- Induction on the batches of indexer/src/backfill.ts.
use stellar_analytics_dashbo.Prelude.{
  ℕ, ◌≡◌, ◌⊎◌, inl, inr, refl, sym, subst, true, false, ◌||◌, some, List, [], ◌∷◌, arith,
  Bool-cases, All,
}
use stellar_analytics_dashbo.Legacy.Workers.{is_done}
use stellar_analytics_dashbo.Legacy.Ledgers.{BackfillOptions, Calls}
use stellar_analytics_dashbo.Legacy.Backfill.{
  Round, Loop, is_nil, run_batches, cancel, after_batch, workers_of,
}

module _ (o : BackfillOptions) (calls : Calls) where
  -- The three ways that a loop goes on: it is at its end, it is cancelled, or it runs a batch.
  data Goes (r : Round) (rs : List Round) (l : Loop) (l' : Loop) : Type 0 where
    ends : is_nil l.rest ≡ true → l' ≡ l → Goes r rs l l'
    cancels : (l.aborted || r.signal) ≡ true → l' ≡ cancel o r.now l → Goes r rs l l'
    goes_on :
        is_nil l.rest ≡ false
        → l.aborted ≡ false
        → is_done (workers_of o calls r.events l) ≡ true
        → run_batches o calls rs (after_batch o r.now (workers_of o calls r.events l) l) ≡ some l'
        → Goes r rs l l'

  goes :
      (r : Round) (rs : List Round) (l l' : Loop)
      → run_batches o calls (r ∷ rs) l ≡ some l'
      → Goes r rs l l'
  unfolding run_batches
  goes r rs l l' e = elim (Bool-cases (is_nil l.rest)) [
    | inl nil ↦ ends nil (ground arith)
    | inr more ↦ elim (Bool-cases (l.aborted || r.signal)) [
      | inl stop ↦ cancels stop (ground arith)
      | inr go ↦ elim (Bool-cases (is_done (workers_of o calls r.events l))) [
        | inl done ↦ goes_on more (ground arith) done (ground arith)
        | inr busy ↦ absurd (ground arith)
      ]
    ]
  ]

  ended : (l l' : Loop) → run_batches o calls [] l ≡ some l' → (is_nil l.rest ≡ true) × (l' ≡ l)
  unfolding run_batches
  ended l l' e = elim (Bool-cases (is_nil l.rest)) [
    | inl nil ↦ (nil, ground arith)
    | inr more ↦ absurd (ground arith)
  ]

  cancel-aborted : (now : ℕ) (l : Loop) → (cancel o now l).aborted ≡ true
  unfolding cancel
  cancel-aborted now l = refl

  -- What batches and cancelling keep, under rounds that satisfy `Q`, holds at the end.
  pub run_batches-keeps :
      (P : Loop → Type 0) (Q : Round → Type 0)
      → ((r : Round) (l : Loop)
          → Q r
          → l.aborted ≡ false
          → is_done (workers_of o calls r.events l) ≡ true
          → P l
          → P (after_batch o r.now (workers_of o calls r.events l) l))
      → ((r : Round) (l : Loop) → Q r → (l.aborted || r.signal) ≡ true → P l → P (cancel o r.now l))
      → (rounds : List Round) (l l' : Loop) → All Q rounds
      → P l
      → run_batches o calls rounds l ≡ some l'
      → P l'
  run_batches-keeps P Q batch cancelled [] l l' q p e = subst P (sym (ended l l' e).1) p
  run_batches-keeps P Q batch cancelled (r ∷ rs) l l' q p e = elim (goes r rs l l' e) [
    | ends nil same ↦ subst P (sym same) p
    | cancels stop same ↦ subst P (sym same) (cancelled r l q.0 stop p)
    | goes_on more go done rest ↦
        run_batches-keeps P Q batch cancelled rs
          (after_batch o r.now (workers_of o calls r.events l) l) l' q.1 (batch r l q.0 go done p)
          rest
  ]

  -- A loop that ends has nothing left, or was aborted.
  pub run_batches-ends :
      (rounds : List Round) (l l' : Loop)
      → run_batches o calls rounds l ≡ some l'
      → (is_nil l'.rest ≡ true) ⊎ (l'.aborted ≡ true)
  run_batches-ends [] l l' e = let (nil, same) = ended l l' e in inl (rw same nil)
  run_batches-ends (r ∷ rs) l l' e = elim (goes r rs l l' e) [
    | ends nil same ↦ inl (rw same nil)
    | cancels stop same ↦ inr (rw same (cancel-aborted r.now l))
    | goes_on more go done rest ↦ run_batches-ends rs _ l' rest
  ]
