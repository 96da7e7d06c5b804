-- ===== src/RateLimit/Fixed/Budget.antt =====
-- What api/src/rateLimit.ts allows a client: its budget in a window, and a request after Retry-After.
use stellar_analytics_dashbo.Prelude.{
  ℕ, suc, ◌+◌, ◌-◌, ◌<◌, ◌≡◌, refl, ◌∙◌, sym, subst, ap, Bool, true, false, ◌&&◌, Option, none,
  some, List, [], ◌∷◌, String, leb, if◌then◌else◌, find, min, arith, Bool-cases, inl, inr, All,
}
use stellar_analytics_dashbo.Prelude.Text.{str_eq, str_eq_path, str_eq_left, str_eq_right}
use stellar_analytics_dashbo.RateLimit.Entries.{Entry, has_key, set_entry, fresh}
use stellar_analytics_dashbo.RateLimit.Memory
use stellar_analytics_dashbo.RateLimit.Fixed.{
  RateLimitResult, memory, check_rate_limit, Op, checks, prunes, step, run,
}
use stellar_analytics_dashbo.RateLimit.Fixed.Agreement.{IsOf, find-IsOf}

-- A record that the next request resets, or none.
abbrev pub is_over : ℕ → Option Entry → Bool
is_over now none = true
is_over now (some e) = leb e.reset_at now

-- What a request of the key makes of its record.
abbrev pub next_entry : String → ℕ → ℕ → Option Entry → Entry
next_entry key window_ms now none = fresh key window_ms now
next_entry key window_ms now (some e) =
    if leb e.reset_at now then fresh key window_ms now else record e { count = suc e.count }

find-set_entry :
    (k : String) (e : Entry) (es : List Entry)
    → find (has_key k) (set_entry e es) ≡ (if str_eq e.key k then some e else find (has_key k) es)
unfolding set_entry
find-set_entry k e [] = ground arith
find-set_entry k e (x ∷ xs) =
    ground (arith, find-set_entry k e xs, str_eq_left x.key e.key k, str_eq_right e.key k x.key)

module _ (window_ms now : ℕ) where
  increment_at-find :
      (k key : String) (es : List Entry) (o : Option Entry)
      → IsOf key o
      → (find (has_key k) (Memory.increment_at key window_ms now es o).0
          ≡ (if str_eq key k then some (next_entry key window_ms now o) else find (has_key k) es))
        × ((Memory.increment_at key window_ms now es o).1 ≡ next_entry key window_ms now o)
  unfolding Memory.increment_at
  increment_at-find k key es none h = ground (arith, find-set_entry k (fresh key window_ms now) es)
  increment_at-find k key es (some e) h = ground (
    arith,
    find-set_entry k (fresh key window_ms now) es,
    find-set_entry k (record e { count = suc e.count }) es,
    str_eq_left e.key key k,
  )

  increment-find :
      (k key : String) (es : List Entry)
      → (find (has_key k) (Memory.increment key window_ms now es).0 ≡ (
          if str_eq key k
          then some (next_entry key window_ms now (find (has_key key) es))
          else find (has_key k) es))
        × ((Memory.increment key window_ms now es).1
            ≡ next_entry key window_ms now (find (has_key key) es))
  unfolding Memory.increment
  increment-find k key es = increment_at-find k key es (find (has_key key) es) (find-IsOf key es)

-- Pruning drops what the next request would reset.
prune-find :
    (k : String) (now : ℕ) (es : List Entry) (e : Entry)
    → find (has_key k) es ≡ some e
    → leb e.reset_at now ≡ false
    → find (has_key k) (Memory.prune now es) ≡ some e
unfolding Memory.prune
prune-find k now [] e h live = cc
prune-find k now (x ∷ es) e h live = ground (arith, prune-find k now es e)

abbrev pub one : Bool → ℕ
one true = 1
one false = 0

-- The requests of a key, and those of them that were allowed.
abbrev pub requests_of : String → List Op → ℕ
requests_of k [] = 0
requests_of k (checks key now ∷ ops) = one (str_eq key k) + requests_of k ops
requests_of k (prunes now ∷ ops) = requests_of k ops

abbrev pub allowed_of : String → List (String × RateLimitResult) → ℕ
allowed_of k [] = 0
allowed_of k ((key, r) ∷ rs) = one (str_eq key k && r.allowed) + allowed_of k rs

-- All of it happens before `until`.
abbrev pub IsBefore : ℕ → Op → Type 0
IsBefore until (checks key now) = now < until
IsBefore until (prunes now) = now < until

module _ (max window_ms : ℕ) where
  pub check-find :
      (k key : String) (now : ℕ) (es : List Entry)
      → find (has_key k) (check_rate_limit memory key max window_ms now es).0 ≡ (
          if str_eq key k
          then some (next_entry key window_ms now (find (has_key key) es))
          else find (has_key k) es)
  unfolding check_rate_limit
  check-find k key now es = (increment-find window_ms now k key es).0

  check-result :
      (key : String) (now : ℕ) (es : List Entry) (e : Entry)
      → next_entry key window_ms now (find (has_key key) es) ≡ e
      → (check_rate_limit memory key max window_ms now es).1 ≡ record {
        allowed = leb e.count max;
        limit = max;
        remaining = max - e.count;
        reset_at = e.reset_at;
      }
  unfolding check_rate_limit
  check-result key now es e next = rw ((increment-find window_ms now key key es).1 ∙ next) refl

  -- A request of a key, told by the record that it makes.
  pub check-own :
      (k key : String) (now : ℕ) (es : List Entry) (o : Option Entry) (e : Entry)
      → str_eq key k ≡ true
      → find (has_key k) es ≡ o
      → next_entry key window_ms now o ≡ e
      → (find (has_key k) (check_rate_limit memory key max window_ms now es).0 ≡ some e)
        × ((check_rate_limit memory key max window_ms now es).1.allowed ≡ leb e.count max)
        × ((check_rate_limit memory key max window_ms now es).1.reset_at ≡ e.reset_at)
  check-own k key now es o e same there next =
      let own : find (has_key key) es ≡ o =
        subst (λ x. find (has_key x) es ≡ o) (sym (str_eq_path key k same)) there in
      let made = ap (next_entry key window_ms now) own ∙ next in
      let result = check-result key now es e made in
      (
        check-find k key now es ∙ rw same (ap some made),
        ap RateLimitResult.allowed result,
        ap RateLimitResult.reset_at result,
      )

  -- A key whose record is live: what is left of its budget goes to its next requests.
  pub live :
      (k : String) (until count : ℕ) (ops : List Op) (es : List Entry) (e : Entry)
      → find (has_key k) es ≡ some e
      → e.count ≡ count
      → e.reset_at ≡ until
      → All (IsBefore until) ops
      → allowed_of k (run memory max window_ms ops es).1 ≡ min (max - count) (requests_of k ops)
  unfolding run step
  live k until count [] es e there c u before = omega arith
  live k until count (prunes now ∷ ops) es e there c u before =
      live k until count ops (Memory.prune now es) e (prune-find k now es e there (ground arith)) c
        u before.1
  live k until count (checks key now ∷ ops) es e there c u before =
      elim (Bool-cases (str_eq key k)) [
        | inl same ↦
            let e' : Entry = record e { count = suc e.count } in
            let (there', answer, at) =
              check-own k key now es (some e) e' same there (ground (arith, before.0)) in
            let rest =
              live k until (suc count) ops (check_rate_limit memory key max window_ms now es).0 e'
                there' (omega arith) u before.1 in
            ground (arith, rest)
        | inr other ↦
            let rest =
              live k until count ops (check_rate_limit memory key max window_ms now es).0 e
                (check-find k key now es ∙ rw other there) c u before.1 in
            ground (arith, rest)
      ]
