-- ===== src/Queues/Shedding.antt =====
-- What is shed (load_shedder.py), and when producers are to slow down (backpressure.py).
use native.Mathlib.Nat.{add-mul}
use voice_os.Prelude.{ℕ, ◌+◌, ◌≤◌, ◌≡◌, refl, Bool, true, false, leb, not, if◌then◌else◌, arith}
use voice_os.Queues.{Ratio, exceeds, Priority, speculative, low, normal, high, should_shed}

-- The value of a priority.
abbrev pub rank : Priority → ℕ
rank speculative = 0
rank low = 1
rank normal = 2
rank high = 3

-- The decision, once it is known whether the load is over the threshold.
abbrev verdict : Bool → Ratio → Priority → Bool
verdict over load priority = if not over then false else elim priority [
  | high ↦ false
  | speculative ↦ true
  | low ↦ true
  | normal ↦ leb load.bottom load.top
]

exceeds_more :
    (threshold : Ratio) (top more bottom : ℕ)
    → exceeds (record { top = top; bottom = bottom }) threshold ≡ true
    → exceeds (record { top = top + more; bottom = bottom }) threshold ≡ true
exceeds_more threshold top more bottom h =
    rw (add-mul top more threshold.bottom) (ground (arith, h))

shed_more :
    (p q : Priority) (top more bottom : ℕ) (over over_more : Bool)
    → rank q ≤ rank p
    → (over ≡ true → over_more ≡ true)
    → verdict over (record { top = top; bottom = bottom }) p ≡ true
    → verdict over_more (record { top = top + more; bottom = bottom }) q ≡ true
shed_more p q top more bottom false over_more urgent mono shed = absurd (ground (arith, shed))
shed_more high q top more bottom true over_more urgent mono shed = absurd (ground (arith, shed))
shed_more speculative speculative top more bottom true o urgent mono shed = rw (mono refl) refl
shed_more speculative low top more bottom true o urgent mono shed = ground (arith, urgent)
shed_more speculative normal top more bottom true o urgent mono shed = ground (arith, urgent)
shed_more speculative high top more bottom true o urgent mono shed = ground (arith, urgent)
shed_more low speculative top more bottom true o urgent mono shed = rw (mono refl) refl
shed_more low low top more bottom true o urgent mono shed = rw (mono refl) refl
shed_more low normal top more bottom true o urgent mono shed = ground (arith, urgent)
shed_more low high top more bottom true o urgent mono shed = ground (arith, urgent)
shed_more normal speculative top more bottom true o urgent mono shed = rw (mono refl) refl
shed_more normal low top more bottom true o urgent mono shed = rw (mono refl) refl
shed_more normal normal top more bottom true o urgent mono shed =
    rw (mono refl) (ground (arith, shed))
shed_more normal high top more bottom true o urgent mono shed = ground (arith, urgent)

-- Work of a priority that is shed at a load: less urgent work is shed at that load too, and the same work
-- at every higher load of the same denominator.
pub should_shed_more :
    (threshold : Ratio) (top more bottom : ℕ) (p q : Priority)
    → rank q ≤ rank p
    → should_shed threshold (record { top = top; bottom = bottom }) p ≡ true
    → should_shed threshold (record { top = top + more; bottom = bottom }) q ≡ true
unfolding should_shed
should_shed_more threshold top more bottom p q urgent shed =
    shed_more p q top more bottom _ _ urgent (exceeds_more threshold top more bottom) shed
