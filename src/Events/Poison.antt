-- ===== src/Events/Poison.antt =====
-- What a poll (consumer.py) leaves waiting: nothing, or all that follows an entry that cannot be
-- decoded.
use mathlib.Core.List.{append-nil}
use native.Mathlib.Nat.{add-zero, zero-add, suc-add}
use voice_os.Prelude.{
  All-mono, ℕ, zero, suc, ◌+◌, ◌≡◌, ◌≢◌, refl, ap, sym, ◌∙◌, Key, Bool, none, some, List, [], ◌∷◌,
  ◌++◌, length, ok, err, arith, map,
}
use voice_os.Prelude.Dict.{Dict}
use voice_os.Events.{
  Envelope, Fields, Stream, Consumer, value_error, numbered, xreadgroup, take, drop, xack,
  process_entry, process_all, poll_once,
}
use voice_os.Events.Delivery.{waiting, IsBefore, erase-before, deliver-waiting, process_entry-ok}

-- Entries that can be decoded.
abbrev pub decodable : List Envelope → List Fields
decodable es = map (λ e. some e) es

-- The entries of the next poll.
abbrev pub batch : {W : Type 0} → ℕ → Consumer W → List Fields
batch count c = take count (drop c.stream.cursor c.stream.entries)

IsBefore-suc : (i : ℕ) (p : Dict ℕ) → IsBefore i p → IsBefore (suc i) p
IsBefore-suc i p h = All-mono _ _ p (λ e below. omega (arith, below)) h

add_one : (n l : ℕ) → n + suc l ≡ n + 1 + l
add_one n l = omega arith

abbrev emptied : Dict ℕ → Stream → Stream
emptied pending s = record s { pending = pending }

xack-waiting :
    (i : ℕ) (s : Stream) (p rest : Dict ℕ)
    → IsBefore i p
    → s.pending ≡ p ++ ((i, 1) ∷ rest)
    → xack i s ≡ record s { pending = p ++ rest }
unfolding xack
xack-waiting i s p rest h e = rw (xack, e, erase-before i 1 p rest h) refl

add_suc : (a b : ℕ) → a + suc b ≡ suc a + b
add_suc a b = omega arith

length-numbered : (fs : List Fields) (i : ℕ) → length (numbered i fs) ≡ length fs
unfolding numbered
length-numbered [] i = refl
length-numbered (f ∷ fs) i = ap suc (length-numbered fs (suc i))

length-decodable :
    (es : List Envelope) (rest : List Fields)
    → length (decodable es ++ rest) ≡ length es + length rest
length-decodable [] rest = omega arith
length-decodable (e ∷ es) rest = omega (arith, length-decodable es rest)

waiting-add : (m n i : ℕ) → waiting i (m + n) ≡ waiting i m ++ waiting (i + m) n
waiting-add zero n i = rw (zero-add, add-zero) refl
waiting-add (suc m) n i = rw (suc-add, add_suc i m) (ap (λ q. (i, 1) ∷ q) (waiting-add m n (suc i)))

module _ {W : Type 0} (handle : Key → Key → W → Bool × W) where
  -- One entry that can be decoded.
  process_all-step :
      (i n : ℕ) (x : Envelope) (es : Dict Fields) (c : Consumer W)
      → c.backoff_seconds ≢ []
      → process_all handle ((i, some x) ∷ es) n c
        ≡ process_all handle es (n + 1) (process_entry handle i (some x) c).1
  unfolding process_all
  process_all-step i n x es c some_backoff =
      rw (process_all, (process_entry-ok handle i x c some_backoff).0) refl

  -- The loop over entries that can be decoded takes them off the waiting ones.
  process_all-decodable :
      (es : List Envelope) (rest : List Fields) (i n : ℕ) (p tail : Dict ℕ) (c : Consumer W)
      → c.backoff_seconds ≢ []
      → IsBefore i p
      → c.stream.pending ≡ p ++ (waiting i (length es) ++ tail)
      → (c' : Consumer W) × (process_all handle (numbered i (decodable es ++ rest)) n c
          ≡ process_all handle (numbered (i + length es) rest) (n + length es) c')
        × (c'.stream ≡ record c.stream { pending = p ++ tail })
  unfolding numbered
  process_all-decodable [] rest i n p tail c some_backoff h e =
      (c, rw (add-zero, add-zero) refl, ap (λ q. record c.stream { pending = q }) e)
  process_all-decodable (x ∷ es) rest i n p tail c some_backoff h e =
      let c1 = (process_entry handle i (some x) c).1 in
      let (_, acked, backoff) = process_entry-ok handle i x c some_backoff in
      let left : c1.stream
          ≡ record c.stream { pending = p ++ (waiting (suc i) (length es) ++ tail) } =
        acked ∙ xack-waiting i c.stream p _ h e in
      let (c', same, ends) =
        process_all-decodable es rest (suc i) (n + 1) p tail c1
          (λ e0. some_backoff (sym backoff ∙ e0)) (IsBefore-suc i p h) (ap (λ s. s.pending) left) in
      (
        c',
        process_all-step i n x _ c some_backoff
            ∙ same
            ∙ rw (add_suc i (length es), add_one n (length es)) refl,
        ends ∙ ap (emptied (p ++ tail)) left,
      )

  -- What a poll reads.
  xreadgroup-batch :
      (count : ℕ) (c : Consumer W)
      → IsBefore c.stream.cursor c.stream.pending
      → poll_once handle count c
        ≡ process_all handle (numbered c.stream.cursor (batch count c)) 0 (record c {
          stream = record c.stream {
            pending = c.stream.pending ++ waiting c.stream.cursor (length (batch count c));
            cursor = c.stream.cursor + length (batch count c);
          };
        })
  unfolding poll_once xreadgroup
  xreadgroup-batch count c h =
      rw
        (
          length-numbered (batch count c) c.stream.cursor,
          deliver-waiting (batch count c) c.stream.cursor c.stream.pending h,
        )
        refl

  -- A poll, after the entries at its head that can be decoded.
  poll_from :
      (count : ℕ) (es : List Envelope) (rest : List Fields) (c : Consumer W)
      → c.backoff_seconds ≢ []
      → IsBefore c.stream.cursor c.stream.pending
      → batch count c ≡ decodable es ++ rest
      → (c' : Consumer W) × (poll_once handle count c
          ≡ process_all handle (numbered (c.stream.cursor + length es) rest) (0 + length es) c')
        × (c'.stream ≡ record c.stream {
          pending = c.stream.pending ++ waiting (c.stream.cursor + length es) (length rest);
          cursor = c.stream.cursor + (length es + length rest);
        })
  poll_from count es rest c some_backoff h e =
      let i = c.stream.cursor in
      let p = c.stream.pending in
      let read : Consumer W = record c {
        stream = record c.stream {
          pending = p ++ (waiting i (length es) ++ waiting (i + length es) (length rest));
          cursor = i + (length es + length rest);
        };
      } in
      let polled : poll_once handle count c
          ≡ process_all handle (numbered i (decodable es ++ rest)) 0 read =
        xreadgroup-batch count c h
        ∙ (rw (e, length-decodable es rest, waiting-add (length es) (length rest) i) refl) in
      let (c', same, ends) =
        process_all-decodable es rest i 0 p (waiting (i + length es) (length rest)) read
          some_backoff h refl in
      (c', polled ∙ same, ends)

  process_all-nil :
      (i n : ℕ) (c : Consumer W) → process_all handle (numbered i []) (0 + n) c ≡ (ok n, c)
  unfolding process_all numbered
  process_all-nil i n c = rw zero-add refl

  process_all-none :
      (i n : ℕ) (after : List Fields) (c : Consumer W)
      → process_all handle (numbered i (none ∷ after)) (0 + n) c ≡ (err value_error, c)
  unfolding process_all numbered process_entry
  process_all-none i n after c = refl

  -- With at least one time of backoff, and pending entries that were all delivered before: a poll
  -- whose entries can all be decoded processes all of them, and leaves pending what was.
  pub poll_settles :
      (count : ℕ) (es : List Envelope) (c : Consumer W)
      → c.backoff_seconds ≢ []
      → IsBefore c.stream.cursor c.stream.pending
      → batch count c ≡ decodable es
      → ((poll_once handle count c).0 ≡ ok (length es))
        × ((poll_once handle count c).1.stream
            ≡ record c.stream { cursor = c.stream.cursor + length es })
  poll_settles count es c some_backoff h e =
      let (c', same, ends) =
        poll_from count es [] c some_backoff h (e ∙ sym (append-nil (decodable es))) in
      let done : poll_once handle count c ≡ (ok (length es), c') =
        same ∙ process_all-nil (c.stream.cursor + length es) (length es) c' in
      (ap (λ r. r.0) done, ap (λ r. r.1.stream) done ∙ ends ∙ rw (append-nil, add-zero) refl)

  -- With at least one time of backoff, and pending entries that were all delivered before: a poll
  -- with an entry that cannot be decoded raises there. That entry and all after it in the poll stay
  -- pending, and the next poll begins behind them.
  pub poison_blocks :
      (count : ℕ) (before : List Envelope) (after : List Fields) (c : Consumer W)
      → c.backoff_seconds ≢ []
      → IsBefore c.stream.cursor c.stream.pending
      → batch count c ≡ decodable before ++ (none ∷ after)
      → ((poll_once handle count c).0 ≡ err value_error)
        × ((poll_once handle count c).1.stream ≡ record c.stream {
          pending =
              c.stream.pending ++ waiting (c.stream.cursor + length before) (suc (length after));
          cursor = c.stream.cursor + (length before + suc (length after));
        })
  poison_blocks count before after c some_backoff h e =
      let (c', same, ends) = poll_from count before (none ∷ after) c some_backoff h e in
      let stopped : poll_once handle count c ≡ (err value_error, c') =
        same ∙ process_all-none (c.stream.cursor + length before) (length before) after c' in
      (ap (λ r. r.0) stopped, ap (λ r. r.1.stream) stopped ∙ ends)
