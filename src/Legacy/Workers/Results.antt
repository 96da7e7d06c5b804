-- ===== src/Legacy/Workers/Results.antt =====
-- What the tasks of the worker pool of indexer/src/backfill.ts establish, their results keep.
use stellar_analytics_dashbo.Prelude.{
  ℕ, zero, suc, ◌≡◌, refl, ◌∙◌, Bool, none, some, List, [], ◌∷◌, ◌==◌, if◌then◌else◌, arith,
  Bool-cases, min, inl, inr, subst, sym,
}
use stellar_analytics_dashbo.Legacy.Workers.{
  Settled, Workers, Event, settles, aborts, is_in, take_next, begin_workers, start_workers, settle,
  step, run,
}

take_next-results : {S T : Type 0} (w : Workers S T) (i : ℕ) → (take_next w).results i ≡ w.results i
unfolding take_next
take_next-results w i = ground arith

take_next-state : {S T : Type 0} (w : Workers S T) → (take_next w).state ≡ w.state
unfolding take_next
take_next-state w = ground arith

begin_workers-results :
    {S T : Type 0} (n : ℕ) (w : Workers S T) (i : ℕ) → (begin_workers n w).results i ≡ w.results i
unfolding begin_workers
begin_workers-results zero w i = refl
begin_workers-results (suc n) w i = begin_workers-results n (take_next w) i ∙ take_next-results w i

begin_workers-state : {S T : Type 0} (n : ℕ) (w : Workers S T) → (begin_workers n w).state ≡ w.state
unfolding begin_workers
begin_workers-state zero w = refl
begin_workers-state (suc n) w = begin_workers-state n (take_next w) ∙ take_next-state w

settle-state :
    {S T : Type 0} (task : ℕ → S → Settled T × S) (i : ℕ) (w : Workers S T)
    → (settle task i w).state ≡ (task i w.state).1
unfolding settle
settle-state task i w = take_next-state _

settle-results :
    {S T : Type 0} (task : ℕ → S → Settled T × S) (i : ℕ) (w : Workers S T) (j : ℕ)
    → (settle task i w).results j ≡ (if i == j then some (task i w.state).0 else w.results j)
unfolding settle
settle-results task i w j = take_next-results _ j

some_injective : {T : Type 0} {a b : T} → some a ≡ some b → a ≡ b
some_injective e = cc

none-some : {T : Type 0} {a : T} → none ≡ some a → ⊥
none-some e = cc

-- `J` holds of the shared state, and `R i r` of it once task `i` has had the result `r`.
module _ {S T : Type 0} (task : ℕ → S → Settled T × S) (J : S → Type 0)
    (R : ℕ → Settled T → S → Type 0) (keeps : (i : ℕ) (s : S) → J s → J (task i s).1)
    (gives : (i : ℕ) (s : S) → J s → R i (task i s).0 (task i s).1)
    (stable : (i j : ℕ) (r : Settled T) (s : S) → J s → R i r s → R i r (task j s).1) where
  abbrev pub Justified : Workers S T → Type 0
  Justified w = (i : ℕ) (r : Settled T) → w.results i ≡ some r → R i r w.state

  settle-result :
      (i : ℕ) (w : Workers S T)
      → J w.state
      → Justified w
      → (j : ℕ) (r : Settled T) → (if i == j then some (task i w.state).0 else w.results j) ≡ some r
      → R j r (task i w.state).1
  settle-result i w h k j r e = elim (Bool-cases (i == j)) [
    | inl same ↦
        let there : some (task i w.state).0 ≡ some r = ground arith in
        let index : i ≡ j = ground arith in
        subst (λ m. R m r (task i w.state).1) index
          (subst (λ q. R i q (task i w.state).1) (some_injective there) (gives i w.state h))
    | inr other ↦ stable j i r w.state h (k j r (ground arith))
  ]

  settle-Justified :
      (i : ℕ) (w : Workers S T)
      → J w.state
      → Justified w
      → J (settle task i w).state × Justified (settle task i w)
  settle-Justified i w h k = (
    subst J (sym (settle-state task i w)) (keeps i w.state h),
    λ j r e.
        subst (R j r) (sym (settle-state task i w))
          (settle-result i w h k j r (sym (settle-results task i w j) ∙ e)),
  )

  step-Justified :
      (e : Event) (w : Workers S T)
      → J w.state
      → Justified w
      → J (step task e w).state × Justified (step task e w)
  unfolding step
  step-Justified (settles i) w h k = elim (Bool-cases (is_in w.in_flight i)) [
    | inl e ↦ rw (e, step) (settle-Justified i w h k)
    | inr e ↦ rw (e, step) (h, k)
  ]
  step-Justified aborts w h k = (h, k)

  run-Justified :
      (es : List Event) (w : Workers S T)
      → J w.state
      → Justified w
      → J (run task es w).state × Justified (run task es w)
  unfolding run
  run-Justified [] w h k = (h, k)
  run-Justified (e ∷ es) w h k =
      let (h', k') = step-Justified e w h k in run-Justified es (step task e w) h' k'

  pub start-Justified :
      (es : List Event) (concurrency count : ℕ) (aborted : Bool) (s : S)
      → J s
      → let w = run task es (start_workers concurrency count aborted s) in J w.state × Justified w
  unfolding start_workers
  start-Justified es concurrency count aborted s h =
      run-Justified es _ (subst J (sym (begin_workers-state {T = T} (min concurrency count) _)) h)
        (λ i r e.
          absurd (none-some (sym (begin_workers-results {T = T} (min concurrency count) _ i) ∙ e)))
