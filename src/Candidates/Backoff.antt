-- ===== src/Candidates/Backoff.antt =====
-- The back-off of a retry is one second, doubled for each retry after the first, up to its maximum.
use Prim.Native.Nat.{zero, suc}
use agent_machine.Common.{
  ℕ, ◌-◌, ◌*◌, ◌≤◌, ◌<◌, ◌≡◌, refl, arith, true, false, ltb, leb, eqb, Bool-cases, sym, leb→le, inl,
  inr, if◌then◌else◌,
}
use agent_machine.Candidates.{double, at_least, backoff_rounds, second, retry_backoff_duration}

-- `d` doubled `n` times, without a bound
unfoldable pub doubled : ℕ → ℕ → ℕ
doubled zero d = d
doubled (suc n) d = doubled n (d * 2)

abbrev pub smaller : ℕ → ℕ → ℕ
smaller a b = if leb a b then a else b

pub grows : (n d : ℕ) → d ≤ doubled n d
unfolding doubled
grows zero d = omega arith
grows (suc n) d = omega (arith, grows n (d * 2))

-- 2 ^ 62
abbrev pub half_range : ℕ
half_range = 4611686018427387904

no_wrap : (d : ℕ) → d < half_range → double d ≡ d * 2
no_wrap d low = omega (arith, low)

reached : (d max : ℕ) → d < half_range → leb max (d * 2) ≡ true → at_least (d * 2) max ≡ true
reached d max low e = ground (arith, low, e)

below : (d max : ℕ) → max ≤ half_range → leb max (d * 2) ≡ false → d * 2 < half_range
below d max bound e = ground (arith, bound, e)

capped : (a max : ℕ) → max ≤ a → smaller a max ≡ max
capped a max h = ground (arith, h)

backoff_rounds_lem :
    (n d max : ℕ)
    → d < half_range
    → max ≤ half_range
    → backoff_rounds n d max ≡ smaller (doubled n d) max
unfolding backoff_rounds doubled
backoff_rounds_lem zero d max low bound = ground (arith, low, bound)
backoff_rounds_lem (suc n) d max low bound = elim (Bool-cases (leb max (d * 2))) [
  | inl e ↦
      let next : double d ≡ d * 2 = no_wrap d low in
      rw (next, reached d max low e)
        (sym
          (capped (doubled n (d * 2)) max (omega (arith, grows n (d * 2), leb→le max (d * 2) e))))
  | inr e ↦
      let next : double d ≡ d * 2 = no_wrap d low in
      rw (next, e, backoff_rounds_lem n (d * 2) max (below d max bound e) bound) (ground arith)
]

-- Where the maximum is at most 2 ^ 62 nanoseconds, 146 years, a retry waits for one second doubled once
-- for each retry after the first, or for the maximum if that is shorter.
pub retry_backoff_duration_lem :
    (retry_count max : ℕ)
    → 0 < max
    → max ≤ half_range
    → retry_backoff_duration retry_count max ≡ smaller (doubled (retry_count - 1) second) max
unfolding retry_backoff_duration
retry_backoff_duration_lem retry_count max positive bound =
    let rounds : (if ltb retry_count 1 then 1 else retry_count) - 1 ≡ retry_count - 1 =
      ground arith in
    let set : eqb max 0 ≡ false = ground (arith, positive) in
    rw (set, rounds) (backoff_rounds_lem (retry_count - 1) second max (omega arith) bound)

pub no_backoff :
    (retry_count max : ℕ) → eqb max 0 ≡ true → retry_backoff_duration retry_count max ≡ 0
unfolding retry_backoff_duration
no_backoff retry_count max h = rw h refl

pub smaller_between :
    (n max : ℕ)
    → 0 < max
    → (0 < smaller (doubled n second) max) × (smaller (doubled n second) max ≤ max)
smaller_between n max positive = ground (arith, positive, grows n second)
