-- ===== src/Policy/Delay.antt =====
-- `retryDelay` of runner.go against closed forms.
use Prim.Native.Nat.{min}
use native.Mathlib.Nat.{
  pow-suc, pow-le-pow_right, mul-le-mul_left, mul-le-mul_right, le-mul_of_pos_right,
}
use codex_auto_retry.Prelude.{
  Duration, if◌then◌else◌, Bool-cases, inl, inr, leb, ℕ, zero, suc, ◌+◌, ◌-◌, ◌*◌, ◌/◌, ◌^◌, ◌≤◌,
  ◌≡◌, arith, ◌==◌, second, ◌⊎◌, eq_iff,
}
use codex_auto_retry.Config.{Config}
use codex_auto_retry.Config.Bounds.{IsValid}
use codex_auto_retry.Policy.{retry_delay, linear_delay, exponential_delay}

linear_delay_lem :
    (rounds increment maximum delay : ℕ)
    → delay ≤ maximum
    → linear_delay rounds increment maximum delay ≡ min maximum (delay + rounds * increment)
unfolding linear_delay
linear_delay_lem zero increment maximum delay h = omega arith
linear_delay_lem (suc rounds) increment maximum delay h =
    ground (arith, linear_delay_lem rounds increment maximum (delay + increment))

one-le-pow : (n : ℕ) → 1 ≤ 2 ^ n
one-le-pow zero = omega arith
one-le-pow (suc n) = rw pow-suc (omega (arith, one-le-pow n))

double_pow : (d n : ℕ) → d * 2 ^ suc n ≡ d * 2 * 2 ^ n
double_pow d n = rw pow-suc (grind arith)

exponential_delay_lem :
    (rounds half delay : ℕ)
    → delay ≤ half * 2
    → exponential_delay rounds (half * 2) delay ≡ min (half * 2) (delay * 2 ^ rounds)
unfolding exponential_delay
exponential_delay_lem zero half delay h = omega arith
exponential_delay_lem (suc rounds) half delay h =
    rw (double_pow delay rounds) (elim (Bool-cases (leb (half * 2 / 2) delay)) [
      | inl up ↦ rw up (ground (arith, le-mul_of_pos_right (delay * 2) (one-le-pow rounds)))
      | inr low ↦ rw low (exponential_delay_lem rounds half (delay * 2) (ground arith))
    ])

-- The delay before retry `n`, in closed form.
abbrev delay_by_strategy : ℕ → Config → Duration
delay_by_strategy n config =
    let initial = config.initial_delay_seconds * second in
    let maximum = config.max_delay_seconds * second in
    if config.delay_strategy == "fixed"
    then initial
    else if config.delay_strategy == "linear"
    then min maximum (initial + (n - 1) * (config.delay_increment_seconds * second))
    else min maximum (initial * 2 ^ (n - 1))

even_maximum : (n : ℕ) → n * second ≡ n * 500000000 * 2
even_maximum n = omega arith

-- Under a valid configuration the loops of `retryDelay` compute: the initial delay for the fixed
-- strategy, else the smaller of the maximum and the initial delay increased `n - 1` times by the
-- increment (linear) or doubled `n - 1` times (exponential).
pub retry_delay-closed_form :
    (n : ℕ) (config : Config) → IsValid config → retry_delay n config ≡ delay_by_strategy n config
unfolding retry_delay
retry_delay-closed_form n config v = elim (Bool-cases (config.delay_strategy == "fixed")) [
  | inl e ↦ rw e
  | inr e ↦ rw e (elim (Bool-cases (config.delay_strategy == "linear")) [
    | inl l ↦ rw l (linear_delay_lem (n - 1) _ _ _ (omega (arith, v.ordered e)))
    | inr l ↦ rw l (
        rw (even_maximum config.max_delay_seconds) (
          ground (
            arith,
            v.ordered e,
            exponential_delay_lem (n - 1) (config.max_delay_seconds * 500000000)
                (config.initial_delay_seconds * second),
          )))
  ])
]

shift : (m n : ℕ) → m ≤ n → m - 1 ≤ n - 1
shift m n h = omega arith

-- Under a valid configuration a later retry never waits less than an earlier one.
pub retry_delay_mono :
    (m n : ℕ) (config : Config)
    → IsValid config
    → m ≤ n
    → retry_delay m config ≤ retry_delay n config
retry_delay_mono m n config v h =
    rw (retry_delay-closed_form m config v, retry_delay-closed_form n config v)
      (ground (
        arith,
        mul-le-mul_left (config.initial_delay_seconds * second)
            (pow-le-pow_right {n = 2} (omega arith) (shift m n h)),
        mul-le-mul_right (config.delay_increment_seconds * second) (shift m n h),
      ))

-- Under a valid configuration every delay lies between the initial delay, which is at least a
-- second, and the maximum delay (or, for the fixed strategy, is the initial delay).
pub retry_delay_bounds :
    (n : ℕ) (config : Config)
    → IsValid config
    → (second ≤ retry_delay n config)
      × (config.initial_delay_seconds * second ≤ retry_delay n config)
      × ((config.delay_strategy ≡ "fixed")
          ⊎ (retry_delay n config ≤ config.max_delay_seconds * second))
retry_delay_bounds n config v = rw (retry_delay-closed_form n config v) (
    ground (
      arith,
      eq_iff config.delay_strategy "fixed",
      le-mul_of_pos_right (config.initial_delay_seconds * second) (one-le-pow (n - 1)),
    ))
