-- ===== src/Egress/Backoff.antt =====
-- client/egress/tcp_egress.rs and client/egress/udp_egress.rs: the wait before the next attempt to
-- connect. `2_u64.pow(retry)`, the product with 100 and `retry += 1` overflow: a build with overflow
-- checks panics there, any other wraps.
use native.Mathlib.Nat.{pow-le-pow_right, pow-suc}
use siffleux.Prelude.{
  ◌⊎◌, ltb→lt, Bool-cases, inl, inr, ℕ, zero, suc, ◌+◌, ◌*◌, ◌%◌, ◌^◌, ◌≤◌, ◌<◌, ◌≡◌, Bool, true,
  false, min, ltb, arith, if◌then◌else◌, refl, lt→ltb, ltb-false, ap,
}
use siffleux.Error.{Result, ok, panic, ◌>>=◌}

-- A value of a `w`-bit type.
unfoldable pub checked : Bool → ℕ → ℕ → Result ℕ
checked overflow_checks w n =
    if ltb n (2 ^ w) then ok n else if overflow_checks then panic else ok (n % 2 ^ w)

-- `(100 * 2_u64.pow(retry)).min(30_000_u64)`, in milliseconds.
unfoldable pub reconnect_delay : Bool → ℕ → Result ℕ
unfolding checked
reconnect_delay overflow_checks retry = do
  factor ← checked overflow_checks 64 (2 ^ retry)
  duration ← checked overflow_checks 64 (100 * factor)
  ok (min duration 30000)

-- `retry += 1`, of 32 bits.
unfoldable pub next_retry : Bool → ℕ → Result ℕ
unfolding checked
next_retry overflow_checks retry = checked overflow_checks 32 (retry + 1)

pow-le : (i j : ℕ) → i ≤ j → 2 ^ i ≤ 2 ^ j
pow-le i j h = pow-le-pow_right (omega arith) h

pub checked-lt : (c : Bool) (w n : ℕ) → n < 2 ^ w → checked c w n ≡ ok n
unfolding checked
checked-lt c w n h = rw (lt→ltb n (2 ^ w) h)

checked-ge :
    (w n : ℕ) → 2 ^ w ≤ n → (checked true w n ≡ panic) × (checked false w n ≡ ok (n % 2 ^ w))
unfolding checked
checked-ge w n h = (rw (ltb-false n (2 ^ w) h), rw (ltb-false n (2 ^ w) h))

-- Up to the 58th failure in a row, and in every build, the wait is 100 milliseconds, doubled for each failure, or
-- 30 seconds if that is less.
pub delay-doubles :
    (c : Bool) (retry : ℕ) → retry ≤ 57 → reconnect_delay c retry ≡ ok (min (100 * 2 ^ retry) 30000)
unfolding reconnect_delay
delay-doubles c retry h =
    let small : 2 ^ retry ≤ 2 ^ 57 = pow-le retry 57 h in
    rw (checked-lt c 64 (2 ^ retry) (omega (arith, small)))
      (rw (checked-lt c 64 (100 * 2 ^ retry) (omega (arith, small))))

-- Within that range the wait never shrinks, lies between 100 milliseconds and 30 seconds, and is 30 seconds
-- from the tenth failure on.
pub delay_bounds :
    (c : Bool) (i j : ℕ)
    → i ≤ j
    → j ≤ 57
    → (d e : ℕ) × (reconnect_delay c i ≡ ok d)
      × (reconnect_delay c j ≡ ok e)
      × (100 ≤ d)
      × (d ≤ e)
      × (e ≤ 30000)
      × ((i < 9) ⊎ (d ≡ 30000))
delay_bounds c i j h k = (
  min (100 * 2 ^ i) 30000,
  min (100 * 2 ^ j) 30000,
  delay-doubles c i (omega arith),
  delay-doubles c j k,
  omega (arith, pow-le 0 i (omega arith)),
  omega (arith, pow-le i j h),
  omega arith,
  elim (Bool-cases (ltb i 9)) [
    | inl s ↦ inl (ltb→lt i 9 s)
    | inr b ↦ inr (omega (arith, pow-le 9 i (ground arith)))
  ],
)

pow-shift : (k : ℕ) → 2 ^ (k + 62) ≡ 2 ^ 62 * 2 ^ k
pow-shift zero = refl
pow-shift (suc k) =
    let e : suc k + 62 ≡ suc (k + 62) = omega arith in
    rw e (omega (arith, pow-shift k, pow-suc 2 (k + 62), pow-suc 2 k))

wide-product : (k : ℕ) → 2 ^ 64 ≤ 100 * 2 ^ (k + 58)
wide-product k = omega (arith, pow-le 58 (k + 58) (omega arith))

overflow_panics : (k : ℕ) → reconnect_delay true (k + 58) ≡ panic
unfolding reconnect_delay
overflow_panics k = elim (Bool-cases (ltb (2 ^ (k + 58)) (2 ^ 64))) [
  | inl e ↦
      rw (checked-lt true 64 (2 ^ (k + 58)) (ltb→lt _ _ e))
        (rw ((checked-ge 64 (100 * 2 ^ (k + 58)) (wide-product k)).0))
  | inr e ↦ rw ((checked-ge 64 (2 ^ (k + 58)) (ground arith)).0)
]

checked-mod : (n : ℕ) → checked false 64 n ≡ ok (n % 2 ^ 64)
unfolding checked
checked-mod n = ground arith

overflow_wraps : (k : ℕ) → reconnect_delay false (k + 62) ≡ ok 0
unfolding reconnect_delay
overflow_wraps k =
    rw (pow-shift k, checked-mod (2 ^ 62 * 2 ^ k))
      (rw (checked-mod (100 * (2 ^ 62 * 2 ^ k % 2 ^ 64))) (ap ok (omega arith)))

-- From the 59th failure in a row on, a build with overflow checks panics in the task that reconnects; from the
-- 63rd on, any other build waits no time at all.
pub delay_overflows :
    (k : ℕ) → (reconnect_delay true (k + 58) ≡ panic) × (reconnect_delay false (k + 62) ≡ ok 0)
delay_overflows k = (overflow_panics k, overflow_wraps k)
