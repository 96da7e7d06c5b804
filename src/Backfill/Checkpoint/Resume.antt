-- ===== src/Backfill/Checkpoint/Resume.antt =====
-- Which checkpoint findResumableJob of BackfillCheckpointManager.ts takes.
use stellar_analytics_dashbo.Prelude.{
  ℕ, ◌≤◌, ◌<◌, ◌≡◌, Bool, true, false, ◌&&◌, not, Option, none, some, List, [], ◌∷◌, String,
  if◌then◌else◌, ltb, any, filter, refl, arith, sym, subst, ◌∙◌, Bool-cases, Option-cases, inl, inr,
  ap, ◌⊎◌,
}
use stellar_analytics_dashbo.Prelude.Text.{str_eq_refl}
use stellar_analytics_dashbo.Prelude.Sort.{sort, insert, any-sort}
use stellar_analytics_dashbo.Backfill.Checkpoint.{
  BackfillJob, is_job, BackfillCheckpointManager, Table, is_resumable, updated_later,
  find_resumable_job, head,
}

-- A row of the network in progress that was updated after a time.
abbrev pub is_newer : String → ℕ → BackfillJob → Bool
is_newer network time j = is_resumable network j && ltb time j.updated_at

head-insert :
    (x : BackfillJob) (js : List BackfillJob)
    → head (insert updated_later x js)
      ≡ elim (head js) [ none ↦ some x | some h ↦ if updated_later x h then some x else some h ]
unfolding insert
head-insert x [] = refl
head-insert x (j ∷ js) = ground arith

head-sort-none : (js : List BackfillJob) → head (sort updated_later js) ≡ none → js ≡ []
unfolding sort
head-sort-none [] e = refl
head-sort-none (j ∷ js) e = ground (arith, head-insert j (sort updated_later js))

newer_mono :
    (a b : ℕ) (js : List BackfillJob)
    → a ≤ b
    → any (λ j. ltb a j.updated_at) js ≡ false
    → any (λ j. ltb b j.updated_at) js ≡ false
newer_mono a b [] h e = refl
newer_mono a b (j ∷ js) h e = ground (arith, newer_mono a b js h)

-- One of two is the head of the insertion.
head_or :
    (x k h : BackfillJob)
    → (if updated_later x k then some x else some k) ≡ some h
    → ((k.updated_at ≤ x.updated_at) × (x ≡ h)) ⊎ ((x.updated_at < k.updated_at) × (k ≡ h))
head_or x k h e = elim (Bool-cases (updated_later x k)) [
  | inl first ↦ inl (ground arith, ground arith)
  | inr second ↦ inr (ground arith, ground arith)
]

head-sort_newest :
    (js : List BackfillJob) (h : BackfillJob)
    → head (sort updated_later js) ≡ some h
    → any (λ j. ltb h.updated_at j.updated_at) js ≡ false
unfolding sort
head-sort_newest [] h e = refl
head-sort_newest (j ∷ js) h e = elim (Option-cases (head (sort updated_later js))) [
  | inl is ↦ rw (head-sort-none js is) (ground (arith, head-insert j (sort updated_later js)))
  | inr (k, is) ↦
      let found =
        sym (
          head-insert j (sort updated_later js)
          ∙ ap
              (λ o. elim o [
                | none ↦ some j
                | some x ↦ if updated_later j x then some j else some x
              ])
              is)
        ∙ e in
      let rest = head-sort_newest js k is in
      elim (head_or j k h found) [
        | inl (later, same) ↦
            subst (λ x. any (λ y. ltb x.updated_at y.updated_at) (j ∷ js) ≡ false) same
              (ground (arith, newer_mono k.updated_at j.updated_at js later rest))
        | inr (earlier, same) ↦
            subst (λ x. any (λ y. ltb x.updated_at y.updated_at) (j ∷ js) ≡ false) same
              (ground arith)
      ]
]

any-head :
    (p : BackfillJob → Bool) (js : List BackfillJob) (h : BackfillJob)
    → head js ≡ some h
    → p h ≡ true
    → any p js ≡ true
any-head p [] h e holds = cc
any-head p (j ∷ js) h e holds = ground arith

head-sort-any :
    (p : BackfillJob → Bool) (js : List BackfillJob) (h : BackfillJob)
    → head (sort updated_later js) ≡ some h
    → p h ≡ true
    → any p js ≡ true
head-sort-any p js h e holds =
    sym (any-sort p updated_later js) ∙ any-head p (sort updated_later js) h e holds

any-filter :
    (p q : BackfillJob → Bool) (js : List BackfillJob)
    → any p (filter q js) ≡ any (λ j. q j && p j) js
any-filter p q [] = refl
any-filter p q (j ∷ js) = ground (arith, any-filter p q js)

filtered :
    (q : BackfillJob → Bool) (js : List BackfillJob) → any (λ j. not (q j)) (filter q js) ≡ false
filtered q [] = refl
filtered q (j ∷ js) = ground (arith, filtered q js)

any_right :
    (p q : BackfillJob → Bool) (js : List BackfillJob)
    → any (λ j. p j && q j) js ≡ true
    → any q js ≡ true
any_right p q [] e = cc
any_right p q (j ∷ js) e = ground (arith, any_right p q js)

filtered_none :
    (q : BackfillJob → Bool) (js : List BackfillJob) → filter q js ≡ [] → any q js ≡ false
filtered_none q [] e = refl
filtered_none q (j ∷ js) e = ground (arith, filtered_none q js)

-- What findResumableJob has to answer.
abbrev pub IsNewest : String → List BackfillJob → Option BackfillJob → Type 0
IsNewest network js none = any (is_resumable network) js ≡ false
IsNewest network js (some j) =
    (any (is_job j.job_id) js ≡ true)
    × (is_resumable network j ≡ true)
    × (any (is_newer network j.updated_at) js ≡ false)

-- findResumableJob answers null exactly if the network has no job in progress; else a row of the table
-- that is in progress and of the network, and no such row was updated later.
pub find_resumable_job-IsNewest :
    (m : BackfillCheckpointManager) (t : Table) → IsNewest m.network t.rows (find_resumable_job m t)
unfolding find_resumable_job
find_resumable_job-IsNewest m t =
    let own = is_resumable m.network in
    let js = filter own t.rows in
    elim (Option-cases (head (sort updated_later js))) [
      | inl e ↦
          subst (IsNewest m.network t.rows) (sym e) (filtered_none own t.rows (head-sort-none js e))
      | inr (h, e) ↦ subst (IsNewest m.network t.rows) (sym e) (
        any_right own (is_job h.job_id) t.rows (
            sym (any-filter (is_job h.job_id) own t.rows)
            ∙ head-sort-any (is_job h.job_id) js h e (str_eq_refl h.job_id)),
        elim (Bool-cases (own h)) [
          | inl holds ↦ holds
          | inr fails ↦
              let seen = head-sort-any (λ j. not (own j)) js h e (rw fails refl) in
              ground (arith, filtered own t.rows)
        ],
        sym (any-filter (λ j. ltb h.updated_at j.updated_at) own t.rows) ∙ head-sort_newest js h e,
      )
    ]
