-- ===== src/Breaker/Registry.antt =====
-- The breakers by service name (`CircuitBreakerRegistry` in breaker.py).
use voice_os.Prelude.{◌≡◌, ◌≢◌, Key, Option, none, some, arith, inl, inr, Option-cases}
use voice_os.Prelude.Dict.{lookup, lookup-insert}
use voice_os.Breaker.{CircuitBreakerConfig, CircuitBreakerRegistry, new_breaker, get_or_create, get}

-- Once a service has a breaker every later request for that name has the same one, whatever
-- configuration it brings, and no other service's breaker is touched.
pub get_or_create_shared :
    (k : Key) (c d : Option CircuitBreakerConfig) (r : CircuitBreakerRegistry)
    → let (b, r') = get_or_create k c r in
      (get_or_create k d r' ≡ (b, r'))
      × (get k r' ≡ some b)
      × ((j : Key) → k ≢ j → get j r' ≡ get j r)
unfolding get_or_create get
get_or_create_shared k c d r = elim (Option-cases (lookup k r.breakers)) [
  | inr (b, e) ↦ (ground arith, ground arith, λ j ne. ground arith)
  | inl e ↦
      let b = new_breaker (some (elim c [ none ↦ r.registry_default | some x ↦ x ])) in
      (
        ground (arith, lookup-insert k k b r.breakers),
        ground (arith, lookup-insert k k b r.breakers),
        λ j ne. ground (arith, lookup-insert k j b r.breakers),
      )
]
