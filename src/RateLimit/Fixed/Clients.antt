-- ===== src/RateLimit/Fixed/Clients.antt =====
-- What api/src/rateLimit.ts promises a client.
use stellar_analytics_dashbo.Prelude.{
  ℕ, suc, ◌+◌, ◌*◌, ◌≤◌, ◌<◌, ◌≡◌, refl, ◌∙◌, sym, ap, true, false, Option, none, some, List, [],
  ◌∷◌, String, leb, find, min, arith, All,
}
use stellar_analytics_dashbo.Prelude.Int.{pos_part, sub_ℕ, ceil_div}
use stellar_analytics_dashbo.Prelude.Text.{str_eq, str_eq_refl}
use stellar_analytics_dashbo.RateLimit.Entries.{Entry, has_key, fresh}
use stellar_analytics_dashbo.RateLimit.Fixed.{
  RateLimitResult, memory, postgres, check_rate_limit, Op, checks, prunes, step, run,
  rate_limit_headers,
}
use stellar_analytics_dashbo.RateLimit.Fixed.Agreement.{run-run}
use stellar_analytics_dashbo.RateLimit.Fixed.Budget.{
  is_over, next_entry, requests_of, allowed_of, IsBefore, check-own, check-find, live,
}

over-next :
    (key : String) (window_ms now : ℕ) (o : Option Entry)
    → is_over now o ≡ true
    → next_entry key window_ms now o ≡ fresh key window_ms now
over-next key window_ms now none h = refl
over-next key window_ms now (some e) h = ground arith

in_memory :
    (max window_ms : ℕ) (k : String) (now : ℕ) (ops : List Op) (es : List Entry)
    → is_over now (find (has_key k) es) ≡ true
    → All (IsBefore (now + window_ms)) ops
    → allowed_of k (run memory max window_ms (checks k now ∷ ops) es).1
      ≡ min max (suc (requests_of k ops))
unfolding run step
in_memory max window_ms k now ops es over before =
    let (there, answer, at) =
      check-own max window_ms k k now es (find (has_key k) es) (fresh k window_ms now)
        (str_eq_refl k) refl (over-next k window_ms now (find (has_key k) es) over) in
    let rest =
      live max window_ms k (now + window_ms) 1 ops
        (check_rate_limit memory k max window_ms now es).0 (fresh k window_ms now) there refl refl
        before in
    ground (arith, rest, str_eq_refl k)

-- The shared budget: from the request with which a client's window begins, the window's requests of the
-- client are allowed up to the limit, and no more, whichever replicas check them, and whatever requests
-- of others and prunings come between.
pub window_budget :
    (max window_ms : ℕ) (k : String) (now : ℕ) (ops : List Op) (es : List Entry)
    → is_over now (find (has_key k) es) ≡ true
    → All (IsBefore (now + window_ms)) ops
    → allowed_of k (run postgres max window_ms (checks k now ∷ ops) es).1
      ≡ min max (suc (requests_of k ops))
window_budget max window_ms k now ops es over before =
    ap (λ (r : List Entry × List (String × RateLimitResult)). allowed_of k r.1)
      (sym (run-run max window_ms (checks k now ∷ ops) es))
    ∙ in_memory max window_ms k now ops es over before

-- The seconds of Retry-After reach the reset.
resets : (reset_at now : ℕ) → reset_at ≤ now + 1000 * pos_part (ceil_div (sub_ℕ reset_at now) 1000)
unfolding ceil_div
resets reset_at now = ground arith

-- Requests of other clients.
abbrev pub IsOther : String → Op → Type 0
IsOther k (checks key now) = str_eq key k ≡ false
IsOther k (prunes now) = ⊥

others-find :
    (max window_ms : ℕ) (k : String) (ops : List Op) (es : List Entry)
    → All (IsOther k) ops
    → find (has_key k) (run memory max window_ms ops es).0 ≡ find (has_key k) es
unfolding run step
others-find max window_ms k [] es h = refl
others-find max window_ms k (checks key now ∷ ops) es h =
    others-find max window_ms k ops (check_rate_limit memory key max window_ms now es).0 h.1
    ∙ check-find max window_ms k key now es
    ∙ rw (h.0) refl
others-find max window_ms k (prunes now ∷ ops) es h = absurd h.0

-- A client that is rejected and comes back after the seconds of Retry-After is allowed, while the
-- requests of others are checked, if the limit lets any request.
pub retry_after-allowed :
    (max window_ms : ℕ) (k : String) (now at later seconds : ℕ) (ops : List Op) (es : List Entry)
    → 0 < max
    → (rate_limit_headers (check_rate_limit memory k max window_ms now es).1 at).retry_after
      ≡ some seconds
    → at + 1000 * seconds ≤ later
    → All (IsOther k) ops
    → let es' =
        (run memory max window_ms ops (check_rate_limit memory k max window_ms now es).0).0 in
      (check_rate_limit memory k max window_ms later es').1.allowed ≡ true
unfolding rate_limit_headers
retry_after-allowed max window_ms k now at later seconds ops es some_limit header wait others =
    let e = next_entry k window_ms now (find (has_key k) es) in
    let (there, answer, reset) =
      check-own max window_ms k k now es (find (has_key k) es) e (str_eq_refl k) refl refl in
    let (es1, r) = check_rate_limit memory k max window_ms now es in
    let es2 = (run memory max window_ms ops es1).0 in
    let after : find (has_key k) es2 ≡ some e =
      others-find max window_ms k ops es1 others ∙ there in
    let over : leb e.reset_at later ≡ true = ground (arith, resets r.reset_at at) in
    let (there', answer', reset') =
      check-own max window_ms k k later es2 (some e) (fresh k window_ms later) (str_eq_refl k) after
        (over-next k window_ms later (some e) over) in
    answer' ∙ ground arith
