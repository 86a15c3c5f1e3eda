-- ===== src/Idempotency/Fencing.antt =====
-- Stale writers (`FencingTokenTracker` in fencing.py).
use voice_os.Prelude.{
  ℕ, ◌≤◌, ◌<◌, ◌≡◌, Key, true, false, max, none, some, List, [], ◌∷◌, arith, ◌==◌, if◌then◌else◌,
}
use voice_os.Prelude.Dict.{Dict, lookup, lookup-insert}
use voice_os.Idempotency.{validate}

-- The highest token seen for a resource, 0 before the first.
abbrev pub last_seen : Key → Dict ℕ → ℕ
last_seen k d = elim (lookup k d) [ none ↦ 0 | some n ↦ n ]

-- The writes that come in, in this order.
abbrev pub validate_all : List (Key × ℕ) → Dict ℕ → Dict ℕ
validate_all [] d = d
validate_all ((k, n) ∷ ws) d = validate_all ws (validate k n d).1

last_seen-validate :
    (j k : Key) (n : ℕ) (d : Dict ℕ)
    → last_seen j (validate k n d).1 ≡ (if k == j then max (last_seen j d) n else last_seen j d)
unfolding validate
last_seen-validate j k n d = ground (arith, lookup-insert k j n d)

never_back :
    (j : Key) (ws : List (Key × ℕ)) (d : Dict ℕ) → last_seen j d ≤ last_seen j (validate_all ws d)
never_back j [] d = omega arith
never_back j ((k, n) ∷ ws) d =
    ground (arith, last_seen-validate j k n d, never_back j ws (validate k n d).1)

-- Once a token was accepted for a resource, every lower one is refused and changes nothing,
-- whatever was written in between, to this resource or others.
pub stale_refused :
    (k : Key) (n m : ℕ) (ws : List (Key × ℕ)) (d : Dict ℕ)
    → (validate k n d).0 ≡ true
    → m < n
    → let d' = validate_all ws (validate k n d).1 in validate k m d' ≡ (false, d')
unfolding validate
stale_refused k n m ws d accepted h =
    ground (arith, last_seen-validate k k n d, never_back k ws (validate k n d).1)
