-- ===== src/Negotiation/Envelope.antt =====
-- The envelope that an outstanding amount gives (envelope.py and `build_envelope` in engine.py).
use voice_os.Prelude.{ℕ, ◌+◌, ◌*◌, ◌<◌, ◌≤◌, ◌≡◌, refl, some, ok, arith, max}
use voice_os.Negotiation.{Money, NegotiationEnvelope, ceil_fraction, build_envelope}

-- Rounding up: at least the fraction, and less than one unit above it.
pub ceil_fraction_bounds :
    (amount num den : ℕ)
    → 0 < den
    → (amount * num ≤ ceil_fraction amount num den * den)
      × (ceil_fraction amount num den * den < amount * num + den)
unfolding ceil_fraction
ceil_fraction_bounds amount num den h = (grind arith, grind arith)

times_le : (c a d : ℕ) → c * d < (a + 1) * d → c ≤ a
times_le c a d h = grind arith

widen : (c f d x : ℕ) → c ≤ f → x ≤ c * d → x ≤ f * d
widen c f d x h k = grind arith

ceil_fraction_le :
    (amount num den : ℕ) → 0 < den → num ≤ den → ceil_fraction amount num den ≤ amount
ceil_fraction_le amount num den h k =
    let (_, below) = ceil_fraction_bounds amount num den h in
    let scaled : amount * num ≤ amount * den = grind arith in
    times_le (ceil_fraction amount num den) amount den (grind arith)

-- An outstanding amount and a fraction of at most one give an envelope without an exception: its
-- ceiling is the amount, its floor the fraction of it rounded up, in the currency of the amount.
pub build_envelope_total :
    (total : Money) (num den days today : ℕ)
    → 0 < den
    → num ≤ den
    → 0 < total.amount_minor
    → (e : NegotiationEnvelope) × (build_envelope (some total) num den days today ≡ ok e)
      × (e.ceiling_amount ≡ total)
      × (e.floor_amount.currency ≡ total.currency)
      × (e.floor_amount.amount_minor ≤ total.amount_minor)
      × (0 < e.floor_amount.amount_minor)
      × (total.amount_minor * num ≤ e.floor_amount.amount_minor * den)
      × (e.floor_date ≤ e.ceiling_date)
unfolding build_envelope
build_envelope_total total num den days today d k p =
    let least = ceil_fraction_le total.amount_minor num den d k in
    let (enough, _) = ceil_fraction_bounds total.amount_minor num den d in
    let floor = max 1 (ceil_fraction total.amount_minor num den) in
    (
      record {
        floor_amount = record { amount_minor = floor; currency = total.currency };
        ceiling_amount = total;
        floor_date = today;
        ceiling_date = today + days;
        pct_num = num;
        pct_den = den;
      },
      ground arith,
      refl,
      refl,
      omega (arith, least),
      omega arith,
      widen (ceil_fraction total.amount_minor num den) floor den (total.amount_minor * num)
          (omega arith) enough,
      omega arith,
    )
