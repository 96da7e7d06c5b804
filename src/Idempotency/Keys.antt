-- ===== src/Idempotency/Keys.antt =====
-- The keys and hashes of IdempotencyTracker.ts. A number that `>>>= 0` leaves is below 2 ^ 32.
use stellar_analytics_dashbo.Prelude.{
  ℕ, zero, suc, ◌+◌, ◌*◌, ◌/◌, ◌%◌, ◌^◌, ◌<◌, ◌≡◌, refl, List, [], ◌∷◌, String, arith,
}
use stellar_analytics_dashbo.Idempotency.{Runtime}

-- `^` on the lowest w bits.
abbrev pub xor_bits : ℕ → ℕ → ℕ → ℕ
xor_bits zero a b = 0
xor_bits (suc w) a b = (a % 2 + b % 2) % 2 + 2 * xor_bits w (a / 2) (b / 2)

-- h = ((h << 5) + h) ^ code; h >>>= 0. The sum is exact in a double and `^` takes it modulo 2 ^ 32; the
-- shift is modulo 2 ^ 32 as well.
unfoldable pub mix : ℕ → ℕ → ℕ
mix h code = xor_bits 32 ((h * 2 ^ 5 % 2 ^ 32 + h) % 2 ^ 32) code

unfoldable pub hash_from : ℕ → List ℕ → ℕ
hash_from h [] = h
hash_from h (code ∷ codes) = hash_from (mix h code) codes

unfoldable pub compute_checksum : {P : Type 0} → Runtime P → P → String
compute_checksum rt payload = rt.hex (hash_from 5381 (rt.char_codes payload))

-- `Math.abs` of a number that is not negative.
unfoldable pub get_advisory_lock_key : List ℕ → ℕ
get_advisory_lock_key codes = hash_from 5381 codes

xor_bits_lt : (w a b : ℕ) → xor_bits w a b < 2 ^ w
xor_bits_lt zero a b = omega arith
xor_bits_lt (suc w) a b = omega (arith, xor_bits_lt w (a / 2) (b / 2))

hash_from_lt : (h : ℕ) (codes : List ℕ) → h < 2 ^ 32 → hash_from h codes < 2 ^ 32
unfolding hash_from mix
hash_from_lt h [] l = l
hash_from_lt h (c ∷ codes) l = hash_from_lt (mix h c) codes (xor_bits_lt 32 _ c)

-- Every lock key is a 32-bit number, so it fits the 64-bit space of PostgreSQL's advisory locks.
pub get_advisory_lock_key_lt : (codes : List ℕ) → get_advisory_lock_key codes < 2 ^ 32
unfolding get_advisory_lock_key
get_advisory_lock_key_lt codes = hash_from_lt 5381 codes (omega arith)

hash_abc : get_advisory_lock_key (97 ∷ 98 ∷ 99 ∷ []) ≡ 193409669
unfolding get_advisory_lock_key hash_from mix
hash_abc = refl
