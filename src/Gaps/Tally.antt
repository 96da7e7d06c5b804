-- ===== src/Gaps/Tally.antt =====
-- How many sequence numbers a list of gaps covers.
use stellar_analytics_dashbo.Prelude.{
  ℕ, zero, suc, ◌+◌, ◌-◌, ◌<◌, ◌≡◌, refl, sym, Bool, true, false, ◌&&◌, ◌||◌, List, [], ◌∷◌, arith,
  if◌then◌else◌, min, All,
}
use stellar_analytics_dashbo.Gaps.Scan.{Range, within, covers, AreRanges, total}
use stellar_analytics_dashbo.Gaps.Merge.{SeparatedFrom}

-- The numbers below `k` at which the test holds.
abbrev pub tally : (ℕ → Bool) → ℕ → ℕ
tally p zero = 0
tally p (suc k) = (if p k then 1 else 0) + tally p k

tally-or :
    (p q : ℕ → Bool) (k : ℕ)
    → ((n : ℕ) → (p n && q n) ≡ false)
    → tally (λ n. p n || q n) k ≡ tally p k + tally q k
tally-or p q zero h = refl
tally-or p q (suc k) h = ground (arith, h k, tally-or p q k h)

tally-within :
    (r : Range) (k : ℕ)
    → tally (λ n. within n r) k ≡ min k (r.end_sequence + 1) - min k r.start_sequence
tally-within r zero = omega arith
tally-within r (suc k) = ground (arith, tally-within r k)

pub tally-cong : (p q : ℕ → Bool) (k : ℕ) → ((n : ℕ) → p n ≡ q n) → tally p k ≡ tally q k
tally-cong p q zero h = refl
tally-cong p q (suc k) h = rw (h k, tally-cong p q k h)

tally_none : (k : ℕ) → tally (λ n. false) k ≡ 0
tally_none zero = refl
tally_none (suc k) = omega (arith, tally_none k)

not-covers_below :
    (n lo : ℕ) (rs : List Range) → SeparatedFrom lo rs → AreRanges rs → n < lo → covers n rs ≡ false
not-covers_below n lo [] s h l = refl
not-covers_below n lo (r ∷ rs) s h l =
    ground (arith, not-covers_below n (r.end_sequence + 2) rs s.1 h.1)

apart :
    (r : Range) (rs : List Range)
    → SeparatedFrom (r.end_sequence + 2) rs
    → AreRanges rs
    → (n : ℕ) → (within n r && covers n rs) ≡ false
apart r rs s h n = ground (arith, not-covers_below n (r.end_sequence + 2) rs s h)

-- Of separated gaps that end below `k` the sizes add up to the numbers covered.
pub total-tally :
    (lo k : ℕ) (rs : List Range)
    → SeparatedFrom lo rs
    → AreRanges rs
    → All (λ r. r.end_sequence < k) rs
    → total rs ≡ tally (λ n. covers n rs) k
total-tally lo k [] s h b = sym (tally_none k)
total-tally lo k (r ∷ rs) s h b = omega (
  arith,
  tally-or (λ n. within n r) (λ n. covers n rs) k (apart r rs s.1 h.1),
  tally-within r k,
  total-tally (r.end_sequence + 2) k rs s.1 h.1 b.1,
)

pub ends_below :
    (k : ℕ) (rs : List Range)
    → AreRanges rs
    → ((n : ℕ) → covers n rs ≡ true → n < k)
    → All (λ r. r.end_sequence < k) rs
ends_below k [] h b = tt
ends_below k (r ∷ rs) h b =
    (b r.end_sequence (ground arith), ends_below k rs h.1 (λ n e. b n (ground arith)))
