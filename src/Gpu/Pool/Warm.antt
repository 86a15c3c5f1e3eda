-- ===== src/Gpu/Pool/Warm.antt =====
-- Growing a pool (`warm_new_instance` in model_pool.py): warm before admit, and what becomes of
-- the instance that is retired.
use voice_os.Prelude.{
  ℕ, ◌+◌, ◌≤◌, ◌≡◌, ◌≢◌, inl, inr, Key, Bool, true, false, none, some, List, [], ◌∷◌, ◌++◌,
  get_elem?, Result-cases, ok, arith, Option-cases, List-cases, length, length-append,
}
use voice_os.Prelude.Dict.{lookup, insert, IsKeyed, lookup-insert}
use voice_os.Gpu.Ledger.{VramLedger, allocate, release}
use voice_os.Gpu.Ledger.Accounting.Grants.{allocate-IsKeyed}
use voice_os.Gpu.Ledger.Tokens.{release_drops}
use voice_os.Gpu.Pool.{
  PoolType, ModelHandle, ModelPool, pool_value, remove, create_handle, admit, retire_oldest,
  warm_new_instance, acquire, available_count, pool_size,
}

-- Retiring leaves the free instances as they are, and takes at most the oldest out.
retire_oldest_keeps :
    (b : Bool) (new : Key) (q : ModelPool) (m : VramLedger) {p' : ModelPool} {m' : VramLedger}
    → retire_oldest b new q m ≡ ok (p', m')
    → (p'.available ≡ q.available)
      × (length q.all_handles ≤ length p'.all_handles + 1)
      × (length p'.all_handles ≤ length q.all_handles)
unfolding retire_oldest remove
retire_oldest_keeps b new q m h = elim (List-cases q.all_handles) [
  | inl e ↦ ground arith
  | inr (old, rest, e) ↦ elim (Option-cases (lookup old q.handles)) [
    | inl f ↦ ground arith
    | inr (x, f) ↦ elim (Result-cases (release x.allocation_token m)) [
      | inl (m'', g) ↦ ground arith
      | inr (y, g) ↦ ground arith
    ]
  ]
]

module _ (name : PoolType → Key) (ids : Key × Key) (p : ModelPool) (l : VramLedger) where
  -- A handle that was created is warm and open, under the second id; its VRAM is allocated.
  create_handle-eq_ok :
      (i : ℕ) {h : ModelHandle} {m : VramLedger}
      → create_handle name i ids p l ≡ ok (h, m)
      → (d : Key) × (allocate d
            (name p.pool_type)
            p.vram_per_instance_mb
            (pool_value p.pool_type)
            ids.0
            l
          ≡ ok (h.allocation_token, m))
        × (h.handle_id ≡ ids.1)
        × (h.released ≡ false)
        × (h.is_warm ≡ true)
  unfolding create_handle
  create_handle-eq_ok i h = elim (Option-cases (get_elem? p.devices i)) [
    | inl e ↦ absurd (ground arith)
    | inr (d, e) ↦
        elim (Result-cases
          (allocate d (name p.pool_type) p.vram_per_instance_mb (pool_value p.pool_type) ids.0 l)) [
            | inl ((t, l'), a) ↦ (d, ground arith, ground arith, ground arith, ground arith)
            | inr (x, a) ↦ absurd (ground arith)
          ]
  ]

  -- However it ends, growing the pool takes no instance from the free ones and never leaves the
  -- pool smaller; when it succeeds there is one free instance more.
  pub warm_before_admit :
      (b : Bool)
      → let (r, p', _) = warm_new_instance name b ids p l in
        (pool_size p ≤ pool_size p')
        × (pool_size p' ≤ pool_size p + 1)
        × (available_count p ≤ available_count p')
        × ((h : ModelHandle) → r ≡ ok h → p'.available ≡ p.available ++ (h.handle_id ∷ []))
  unfolding warm_new_instance pool_size available_count
  warm_before_admit b = elim (Result-cases (create_handle name 0 ids p l)) [
    | inr (x, e) ↦ (ground arith, ground arith, ground arith, λ h f. ground arith)
    | inl ((n, m), e) ↦ elim (Result-cases (retire_oldest b n.handle_id (admit n p) m)) [
      | inr (x, f) ↦ (
        ground (
          arith,
          length-append p.all_handles (n.handle_id ∷ []),
          length-append p.available (n.handle_id ∷ []),
        ),
        ground (
          arith,
          length-append p.all_handles (n.handle_id ∷ []),
          length-append p.available (n.handle_id ∷ []),
        ),
        ground (
          arith,
          length-append p.all_handles (n.handle_id ∷ []),
          length-append p.available (n.handle_id ∷ []),
        ),
        λ h g. ground arith,
      )
      | inl ((q, k), f) ↦ (
        ground (
          arith,
          length-append p.all_handles (n.handle_id ∷ []),
          length-append p.available (n.handle_id ∷ []),
          retire_oldest_keeps b n.handle_id (admit n p) m f,
        ),
        ground (
          arith,
          length-append p.all_handles (n.handle_id ∷ []),
          length-append p.available (n.handle_id ∷ []),
          retire_oldest_keeps b n.handle_id (admit n p) m f,
        ),
        ground (
          arith,
          length-append p.all_handles (n.handle_id ∷ []),
          length-append p.available (n.handle_id ∷ []),
          retire_oldest_keeps b n.handle_id (admit n p) m f,
        ),
        λ h g. ground (arith, retire_oldest_keeps b n.handle_id (admit n p) m f),
      )
    ]
  ]

  -- What is left of a warm-up that retired the oldest instance: the new one is admitted, and the
  -- VRAM of the old one is back in the ledger.
  warm_retired :
      (old : Key) (rest : List Key) (x : ModelHandle) {h : ModelHandle} {p' : ModelPool}
      {l' : VramLedger}
      → p.all_handles ≡ old ∷ rest
      → lookup old p.handles ≡ some x
      → old ≢ ids.1
      → warm_new_instance name true ids p l ≡ (ok h, p', l')
      → (m : VramLedger) × (create_handle name 0 ids p l ≡ ok (h, m))
        × (release x.allocation_token m ≡ ok l')
        × (p' ≡ record (admit h p) { all_handles = rest ++ (h.handle_id ∷ []) })
  unfolding warm_new_instance retire_oldest remove
  warm_retired old rest x all there ne w = elim (Result-cases (create_handle name 0 ids p l)) [
    | inr (y, e) ↦ absurd (ground arith)
    | inl ((n, m), e) ↦
        let (_, _, named, _, _) = create_handle-eq_ok 0 e in
        let kept : lookup old (admit n p).handles ≡ some x =
          ground (arith, lookup-insert n.handle_id old n p.handles) in
        elim (Result-cases (release x.allocation_token m)) [
          | inl (m', f) ↦ (
            m,
            ground (arith, length-append rest (n.handle_id ∷ [])),
            ground (arith, length-append rest (n.handle_id ∷ [])),
            ground (arith, length-append rest (n.handle_id ∷ [])),
          )
          | inr (y, f) ↦ absurd (ground (arith, length-append rest (n.handle_id ∷ [])))
        ]
  ]

  -- After a warm-up that retires the oldest instance while it is free, the next `acquire` still
  -- hands that instance out, although the ledger holds its VRAM no more.
  pub retired_still_served :
      (old : Key) (rest av : List Key) (x : ModelHandle) {h : ModelHandle} {p' : ModelPool}
      {l' : VramLedger}
      → p.all_handles ≡ old ∷ rest
      → p.available ≡ old ∷ av
      → lookup old p.handles ≡ some x
      → old ≢ ids.1
      → IsKeyed l.tokens
      → warm_new_instance name true ids p l ≡ (ok h, p', l')
      → ((q : ModelPool) × (acquire p' ≡ ok (old, q)))
        × (lookup x.allocation_token.token_id l'.tokens ≡ none)
  unfolding acquire
  retired_still_served old rest av x {h} {p'} {l'} all free there ne keyed w =
      let (m, made, given, after) = warm_retired old rest x all there ne w in
      let (d, granted, named, _, _) = create_handle-eq_ok 0 made in
      let m_keyed =
        allocate-IsKeyed d (name p.pool_type) p.vram_per_instance_mb (pool_value p.pool_type) ids.0
          l keyed granted in
      (
        (
          record p' {
            available = av ++ (h.handle_id ∷ []);
            handles = insert old (record x { released = false }) p'.handles;
          },
          ground (arith, lookup-insert h.handle_id old h p.handles),
        ),
        release_drops x.allocation_token m m_keyed given,
      )
