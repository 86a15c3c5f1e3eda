-- ===== src/Queues/Order.antt =====
-- The bound and the order of a bounded queue (bounded_queue.py).
use mathlib.Core.List.{append-nil}
use voice_os.Prelude.{
  ◌≤◌, ◌≡◌, refl, ap, sym, ◌∙◌, List, [], ◌∷◌, ◌++◌, leb, length, length-append, arith, Bool-cases,
  List-cases, inl, inr, ok, err, Result,
}
use voice_os.Queues.{BoundedQueue, QueueError, is_full, qsize, put_nowait, get_nowait}

-- A call that does not wait.
pub data QueueCall (A : Type 0) : Type 0 where
  putting : A → QueueCall A
  getting : QueueCall A

module _ {A : Type 0} where
  -- An item, if a call went through.
  abbrev pub if_ok : {E B : Type 0} → Result E B → A → List A → List A
  if_ok (ok _) x xs = x ∷ xs
  if_ok (err _) x xs = xs

  abbrev pub with_ok : Result QueueError A → List A → List A
  with_ok (ok x) xs = x ∷ xs
  with_ok (err _) xs = xs

  -- What calls put in, what they got out, and the queue after them.
  abbrev pub run : List (QueueCall A) → BoundedQueue A → List A × List A × BoundedQueue A
  run [] q = ([], [], q)
  run (putting x ∷ calls) q =
      let (out, q') = put_nowait x q in
      let (ins, outs, end) = run calls q' in (if_ok out x ins, outs, end)
  run (getting ∷ calls) q =
      let (out, q') = get_nowait q in
      let (ins, outs, end) = run calls q' in (ins, with_ok out outs, end)

  put_nowait-IsWithin :
      (x : A) (q : BoundedQueue A)
      → length q.items ≤ q.max_size
      → let q' = (put_nowait x q).1 in (length q'.items ≤ q'.max_size) × (q'.max_size ≡ q.max_size)
  unfolding put_nowait is_full qsize
  put_nowait-IsWithin x q h = elim (Bool-cases (leb q.max_size (length q.items))) [
    | inl e ↦ rw (put_nowait, e) (h, refl)
    | inr e ↦ rw (put_nowait, e) (ground (arith, length-append q.items (x ∷ []), e), refl)
  ]

  get_nowait-IsWithin :
      (q : BoundedQueue A)
      → length q.items ≤ q.max_size
      → let q' = (get_nowait q).1 in (length q'.items ≤ q'.max_size) × (q'.max_size ≡ q.max_size)
  unfolding get_nowait
  get_nowait-IsWithin q h = elim (List-cases q.items) [
    | inl e ↦ rw (get_nowait, e) (ground (arith, h), refl)
    | inr (x, xs, e) ↦ rw (get_nowait, e) (ground (arith, h, e), refl)
  ]

  append_assoc : (xs ys zs : List A) → (xs ++ ys) ++ zs ≡ xs ++ (ys ++ zs)
  append_assoc [] ys zs = refl
  append_assoc (x ∷ xs) ys zs = ap (λ q. x ∷ q) (append_assoc xs ys zs)

  -- One put, before what is put in later.
  put_nowait-items :
      (x : A) (q : BoundedQueue A) (ins : List A)
      → (put_nowait x q).1.items ++ ins ≡ q.items ++ if_ok (put_nowait x q).0 x ins
  unfolding put_nowait is_full qsize
  put_nowait-items x q ins = elim (Bool-cases (leb q.max_size (length q.items))) [
    | inl e ↦ rw (put_nowait, e) refl
    | inr e ↦ rw (put_nowait, e) (append_assoc q.items (x ∷ []) ins)
  ]

  -- One get, before what is got later.
  get_nowait-items :
      (q : BoundedQueue A) (ins outs rest : List A)
      → (get_nowait q).1.items ++ ins ≡ outs ++ rest
      → q.items ++ ins ≡ with_ok (get_nowait q).0 outs ++ rest
  unfolding get_nowait
  get_nowait-items q ins outs rest = elim (List-cases q.items) [
    | inl e ↦ rw (get_nowait, e) (λ h. ap (λ (is : List A). is ++ ins) (sym e) ∙ h)
    | inr (x, xs, e) ↦ rw (get_nowait, e) (λ h. ap (λ q. x ∷ q) h)
  ]

  -- Whatever is put and got without waiting, into a queue within its bound: it stays within it, and what
  -- stood in it and was accepted comes out in that order. Nothing accepted is lost or comes twice.
  pub run-IsFifo :
      (calls : List (QueueCall A)) (q : BoundedQueue A)
      → length q.items ≤ q.max_size
      → let (ins, outs, end) = run calls q in
        (q.items ++ ins ≡ outs ++ end.items)
        × (length end.items ≤ end.max_size)
        × (end.max_size ≡ q.max_size)
  run-IsFifo [] q h = (append-nil q.items, h, refl)
  run-IsFifo (putting x ∷ calls) q h =
      let q' = (put_nowait x q).1 in
      let (within, size) = put_nowait-IsWithin x q h in
      let (order, bound, sizes) = run-IsFifo calls q' within in
      (sym (put_nowait-items x q (run calls q').0) ∙ order, bound, sizes ∙ size)
  run-IsFifo (getting ∷ calls) q h =
      let q' = (get_nowait q).1 in
      let (within, size) = get_nowait-IsWithin q h in
      let (order, bound, sizes) = run-IsFifo calls q' within in
      (
        get_nowait-items q (run calls q').0 (run calls q').1 (run calls q').2.items order,
        bound,
        sizes ∙ size,
      )
