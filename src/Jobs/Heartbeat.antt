-- ===== src/Jobs/Heartbeat.antt =====
-- The waits of the heartbeat loop under the interval that `JobRunner.__init__` settles (map-business-backend/app/workers/job_runner.py).
use mathlib.Core.Bool.{false≢true}
use map.Base.{
  ℕ, Bool, true, false, sym, ap, ◌+◌, ◌*◌, ◌≤◌, ◌<◌, ◌≡◌, ◌≢◌, Option, none, some, leb, Bool-cases,
  inl, inr, arith,
}
use native.Mathlib.Nat.{mul-le-mul_left}
use map.Envelope.{pos, negsuc}
use map.Jobs.{seconds}
use map.Jobs.Runner.{
  Interval, finite, infinity, minus_infinity, not_a_number, heartbeat_interval, steps,
  heartbeat_delay,
}

-- A positive number of microseconds below a third of the lease.
abbrev Third : ℕ → Interval → Type 0
Third lease_seconds i = (n : ℕ) × (i ≡ finite (pos n)) × (0 < n) × (n * 3 < seconds lease_seconds)

settled : Option Interval → Interval
settled none = not_a_number
settled (some i) = i

accepted : Option Interval → Bool
accepted none = false
accepted (some i) = true

configured_Third :
    (lease_seconds n : ℕ) (i : Interval)
    → heartbeat_interval lease_seconds (some (finite (pos n))) ≡ some i
    → Third lease_seconds i
unfolding heartbeat_interval settled accepted
configured_Third lease_seconds n i h = elim (Bool-cases (leb n 0)) [
  | inl a ↦ absurd (false≢true (ap accepted (rw a at h)))
  | inr a ↦ elim (Bool-cases (leb (seconds lease_seconds) (n * 3))) [
    | inl b ↦ absurd (false≢true (ap accepted (rw (a, b) at h)))
    | inr b ↦ (n, sym (ap settled (rw (a, b) at h)), ground arith, ground arith)
  ]
]

default_Third :
    (lease_seconds : ℕ) (i : Interval)
    → 1 ≤ lease_seconds
    → heartbeat_interval lease_seconds none ≡ some i
    → Third lease_seconds i
unfolding heartbeat_interval settled
default_Third lease_seconds i long h = (_, sym (ap settled h), ground arith, ground arith)

delay_bound : (n r : ℕ) → r < steps → heartbeat_delay n r ≤ n * (6 * steps)
unfolding heartbeat_delay
delay_bound n r h = mul-le-mul_left n (omega arith)

two_waits :
    (lease_seconds n r r' : ℕ)
    → n * 3 < seconds lease_seconds
    → r < steps
    → r' < steps
    → heartbeat_delay n r + heartbeat_delay n r' < seconds lease_seconds * (5 * steps)
two_waits lease_seconds n r r' h a b = omega (arith, delay_bound n r a, delay_bound n r' b)

interval_Third :
    (lease_seconds : ℕ) (o : Option Interval) (i : Interval)
    → 1 ≤ lease_seconds
    → heartbeat_interval lease_seconds o ≡ some i
    → i ≢ not_a_number
    → Third lease_seconds i
unfolding heartbeat_interval settled accepted
interval_Third lease_seconds none i long h n = default_Third lease_seconds i long h
interval_Third lease_seconds (some not_a_number) i long h n = absurd (n (sym (ap settled h)))
interval_Third lease_seconds (some infinity) i long h n = absurd (false≢true (ap accepted h))
interval_Third lease_seconds (some minus_infinity) i long h n = absurd (false≢true (ap accepted h))
interval_Third lease_seconds (some (finite (negsuc k))) i long h n =
    absurd (false≢true (ap accepted h))
interval_Third lease_seconds (some (finite (pos k))) i long h n =
    configured_Third lease_seconds k i h

-- An interval that `__init__` accepts or chooses, for a lease of a second or more, is a positive number of microseconds, unless
-- it is NaN; and any two waits of the heartbeat loop under it, with the jitter, are together shorter than the lease, so that
-- after one missed tick the next still comes before the lease runs out.
pub heartbeat_interval_waits :
    (lease_seconds : ℕ) (o : Option Interval) (i : Interval) (r r' : ℕ)
    → 1 ≤ lease_seconds
    → heartbeat_interval lease_seconds o ≡ some i
    → i ≢ not_a_number
    → r < steps
    → r' < steps
    → (n : ℕ) × (i ≡ finite (pos n))
      × (0 < n)
      × (heartbeat_delay n r + heartbeat_delay n r' < seconds lease_seconds * (5 * steps))
heartbeat_interval_waits lease_seconds o i r r' long h nan a b =
    let (n, e, positive, third) = interval_Third lease_seconds o i long h nan in
    (n, e, positive, two_waits lease_seconds n r r' third a b)
