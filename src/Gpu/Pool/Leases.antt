-- ===== src/Gpu/Pool/Leases.antt =====
-- Who holds a model instance (`acquire` and `release` in model_pool.py), where
-- every caller gives back only what it holds.
use voice_os.Prelude.{
  ◌+◌, ◌≤◌, ◌<◌, ◌≡◌, inl, inr, refl, Key, true, false, some, List, [], ◌∷◌, ◌++◌, ok, arith, ◌==◌,
  if◌then◌else◌, count, count-append, Bool-cases, List-cases, ap, ◌∙◌,
}
use voice_os.Prelude.Dict.{lookup, insert, lookup-insert}
use voice_os.Gpu.Pool.{ModelHandle, ModelPool, remove, acquire, release_handle}

-- `out` lists the handles that callers hold.
pub record IsExclusive (p : ModelPool) (out : List Key) : Type 0 where
  pub once : (k : Key) → count k p.available + count k out ≤ 1
  pub stored :
      (k : Key) → 0 < count k p.available → (h : ModelHandle) × (lookup k p.handles ≡ some h)
  pub open_leases :
      (k : Key)
      → 0 < count k out
      → (h : ModelHandle) × (lookup k p.handles ≡ some h) × (h.released ≡ false)

pub data Lease : ModelPool → List Key → ModelPool → List Key → Type 0 where
  take :
      {p q : ModelPool} {out : List Key} (h : Key) → acquire p ≡ ok (h, q) → Lease p out q (h ∷ out)
  give :
      {p : ModelPool} {out : List Key} (h : Key)
      → 0 < count h out
      → Lease p out (release_handle h p) (remove h out)

count-remove :
    (k h : Key) (xs : List Key)
    → 0 < count h xs
    → count k (remove h xs) + (if h == k then 1 else 0) ≡ count k xs
unfolding remove
count-remove k h [] c = absurd (omega arith)
count-remove k h (x ∷ xs) c = ground (arith, count-remove k h xs)

acquire-eq_ok :
    (p : ModelPool) {q : ModelPool} (h : Key) (out : List Key)
    → IsExclusive p out
    → acquire p ≡ ok (h, q)
    → (rest : List Key) × (m : ModelHandle) × (p.available ≡ h ∷ rest)
      × (q ≡ record p {
        available = rest;
        handles = insert h (record m { released = false }) p.handles;
      })
unfolding acquire
acquire-eq_ok p {q} h out x e = elim (List-cases p.available) [
  | inl empty ↦ absurd (ground arith)
  | inr (k, rest, av) ↦
      let same : k ≡ h = ground arith in
      let (m, there) = x.stored h (ground arith) in
      (rest, m, av ∙ ap (λ y. y ∷ rest) same, ground arith)
]

-- `acquire` hands out an instance that nobody holds.
take-IsExclusive :
    (p q : ModelPool) (h : Key) (out : List Key)
    → IsExclusive p out
    → acquire p ≡ ok (h, q)
    → IsExclusive q (h ∷ out)
take-IsExclusive p q h out x e =
    let (rest, m, av, after) = acquire-eq_ok p h out x e in
    let m' : ModelHandle = record m { released = false } in
    rw after (record {
      once = λ k. ground (arith, x.once k);
      stored = λ k c.
          let (n, there) = x.stored k (ground arith) in
          ((if h == k then m' else n), ground (arith, lookup-insert h k m' p.handles));
      open_leases = λ k c. elim (Bool-cases (h == k)) [
        | inl same ↦ (m', ground (arith, lookup-insert h k m' p.handles), refl)
        | inr other ↦
            let (n, there, opened) = x.open_leases k (ground arith) in
            (n, ground (arith, lookup-insert h k m' p.handles), opened)
      ];
    })

-- A lease that is given back puts the instance at the end of the free ones.
release_handle-leased :
    (p : ModelPool) (h : Key) (m : ModelHandle)
    → lookup h p.handles ≡ some m
    → m.released ≡ false
    → release_handle h p ≡ record p {
      available = p.available ++ (h ∷ []);
      handles = insert h (record m { released = true }) p.handles;
    }
unfolding release_handle
release_handle-leased p h m e open_lease = ground arith

give-IsExclusive :
    (p : ModelPool) (h : Key) (out : List Key)
    → IsExclusive p out
    → 0 < count h out
    → IsExclusive (release_handle h p) (remove h out)
give-IsExclusive p h out x held =
    let (m, there, opened) = x.open_leases h held in
    let m' : ModelHandle = record m { released = true } in
    rw (release_handle-leased p h m there opened) (record {
      once = λ k.
          ground (arith, x.once k, count-append k p.available (h ∷ []), count-remove k h out held);
      stored = λ k c. elim (Bool-cases (h == k)) [
        | inl same ↦ (m', ground (arith, lookup-insert h k m' p.handles))
        | inr other ↦
            let (n, found) = x.stored k (ground (arith, count-append k p.available (h ∷ []))) in
            (n, ground (arith, lookup-insert h k m' p.handles))
      ];
      open_leases = λ k c.
          let (n, found, fine) = x.open_leases k (ground (arith, count-remove k h out held)) in
          (
            n,
            ground (
              arith,
              x.once k,
              x.once h,
              count-remove k h out held,
              lookup-insert h k m' p.handles,
            ),
            fine,
          );
    })

pub Lease-IsExclusive :
    {p q : ModelPool} {out now : List Key}
    → Lease p out q now
    → IsExclusive p out
    → IsExclusive q now
Lease-IsExclusive {p} {q} {out} (take h e) x = take-IsExclusive p q h out x e
Lease-IsExclusive {p} {q} {out} (give h held) x = give-IsExclusive p h out x held

pub data Leases (p : ModelPool) : ModelPool → List Key → Type 0 where
  start : Leases p p []
  next :
      {q r : ModelPool} {out now : List Key} → Leases p q out → Lease q out r now → Leases p r now

pub Leases-IsExclusive :
    {p q : ModelPool} {out : List Key} → IsExclusive p [] → Leases p q out → IsExclusive q out
Leases-IsExclusive x start = x
Leases-IsExclusive x (next ls l) = Lease-IsExclusive l (Leases-IsExclusive x ls)

-- From a pool whose instances are free, once each, on every run of takes and returns of what is
-- held: no instance is held twice, and none that is held is free.
pub Leases-exclusive :
    {p q : ModelPool} {out : List Key} (k : Key)
    → IsExclusive p []
    → Leases p q out
    → (count k out ≤ 1) × (0 < count k out → count k q.available ≡ 0)
Leases-exclusive {out = out} k x ls =
    let o = (Leases-IsExclusive x ls).once k in (omega arith, λ held. omega arith)
