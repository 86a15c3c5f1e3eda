-- ===== src/Billing/Invoices/Once.antt =====
-- The usage that is on an invoice (invoice.py and repositories/billing.py).
use voice_os.Prelude.{
  ℕ, ◌+◌, ◌≡◌, refl, Key, Bool, true, false, none, some, List, [], ◌∷◌, ◌==◌, if◌then◌else◌,
  contains, arith, List-cases, All, inl, inr,
}
use voice_os.Prelude.Dict.{lookup, insert, keys, IsKeyed, insert-IsKeyed}
use voice_os.Billing.{
  UsageEvent, UsageTable, is_due, find_uninvoiced, mark_invoiced, record_usage, hour_bucket,
  BillingSubscription, Invoice,
}
use voice_os.Billing.Invoices.{Books, generate_invoice}
use voice_os.Billing.Invoices.Totals.{cost, invoice_adds_up}

All-both {ℓ κ μ ν} :
    {A : Type ℓ} (P : A → Type κ) (Q : A → Type μ) (R : A → Type ν) (xs : List A)
    → ((x : A) → P x → Q x → R x)
    → All P xs
    → All Q xs
    → All R xs
All-both P Q R [] f h k = tt
All-both P Q R (x ∷ xs) f h k = (f x h.0 k.0, All-both P Q R xs f h.1 k.1)

-- Is the event on an invoice.
abbrev pub is_billed : UsageEvent → Bool
is_billed e = elim e.invoice_id [ none ↦ false | some _ ↦ true ]

-- The cost of the events that are on an invoice.
abbrev pub billed : UsageTable → ℕ
billed [] = 0
billed (e ∷ t) = let rest = billed t in if is_billed e.1 then e.1.total_cost_minor + rest else rest

-- The keys of what is due are keys of the table.
lookup-due :
    (k tenant since until : ℕ) (t : UsageTable)
    → lookup k t ≡ none
    → contains k (keys (find_uninvoiced tenant since until t)) ≡ false
unfolding find_uninvoiced
lookup-due k tenant since until [] h = refl
lookup-due k tenant since until (e ∷ t) h = ground (arith, lookup-due k tenant since until t)

-- What is marked costs what was due: in a table without a key twice.
mark-billed :
    (tenant since until invoice : ℕ) (ids : List Key) (t : UsageTable)
    → IsKeyed t
    → All (λ e. contains e.0 ids ≡ is_due tenant since until e.1) t
    → billed (mark_invoiced tenant ids invoice t)
      ≡ billed t + cost (find_uninvoiced tenant since until t)
unfolding mark_invoiced find_uninvoiced
mark-billed tenant since until invoice ids [] h m = refl
mark-billed tenant since until invoice ids (e ∷ t) h m =
    ground (arith, mark-billed tenant since until invoice ids t h.1 m.1)

others : (k : Key) (t : UsageTable) → lookup k t ≡ none → All (λ e. (e.0 == k) ≡ false) t
others k [] h = tt
others k (e ∷ t) h = (ground arith, others k t (ground arith))

-- A key is among those due exactly if its event is due.
contains-due :
    (tenant since until : ℕ) (t : UsageTable)
    → IsKeyed t
    → All
        (λ e.
          contains e.0 (keys (find_uninvoiced tenant since until t))
          ≡ is_due tenant since until e.1)
        t
unfolding find_uninvoiced
contains-due tenant since until [] h = tt
contains-due tenant since until (e ∷ t) h =
    let fresh = lookup-due e.0 tenant since until t h.0 in
    (
      ground arith,
      All-both (λ f. (f.0 == e.0) ≡ false) _ _ t (λ f apart due. ground arith) (others e.0 t h.0)
          (contains-due tenant since until t h.1),
    )

generate-billed :
    (i tenant from to : ℕ) (s : BillingSubscription) (b : Books)
    → IsKeyed b.usage
    → billed (generate_invoice i tenant s from to b).1.usage
      ≡ billed b.usage + cost (find_uninvoiced tenant (hour_bucket from) (hour_bucket to) b.usage)
unfolding generate_invoice
generate-billed i tenant from to s b h =
    let since = hour_bucket from in
    let until = hour_bucket to in
    let events = find_uninvoiced tenant since until b.usage in
    let marked =
      mark-billed tenant since until i (keys events) b.usage h
        (contains-due tenant since until b.usage h) in
    elim (List-cases events) [
      | inl e ↦ rw (generate_invoice, e) (omega arith)
      | inr (x, rest, e) ↦ rw (generate_invoice, e) (rw e at marked)
    ]

lookup-mark_invoiced :
    (k tenant i : ℕ) (ids : List Key) (t : UsageTable)
    → lookup k t ≡ none
    → lookup k (mark_invoiced tenant ids i t) ≡ none
unfolding mark_invoiced
lookup-mark_invoiced k tenant i ids [] h = refl
lookup-mark_invoiced k tenant i ids (e ∷ t) h =
    ground (arith, lookup-mark_invoiced k tenant i ids t)

mark_invoiced-IsKeyed :
    (tenant i : ℕ) (ids : List Key) (t : UsageTable)
    → IsKeyed t
    → IsKeyed (mark_invoiced tenant ids i t)
unfolding mark_invoiced
mark_invoiced-IsKeyed tenant i ids [] h = tt
mark_invoiced-IsKeyed tenant i ids (e ∷ t) h =
    ground
      (arith, mark_invoiced-IsKeyed tenant i ids t h.1, lookup-mark_invoiced e.0 tenant i ids t h.0)

generate-IsKeyed :
    (i tenant from to : ℕ) (s : BillingSubscription) (b : Books)
    → IsKeyed b.usage
    → IsKeyed (generate_invoice i tenant s from to b).1.usage
unfolding generate_invoice
generate-IsKeyed i tenant from to s b h =
    let events = find_uninvoiced tenant (hour_bucket from) (hour_bucket to) b.usage in
    elim (List-cases events) [
      | inl e ↦ rw (IsKeyed, generate_invoice, e) h
      | inr (x, rest, e) ↦
          rw (IsKeyed, generate_invoice, e)
            (mark_invoiced-IsKeyed tenant i (x.0 ∷ keys rest) b.usage h)
    ]

abbrev pub totals : List Invoice → ℕ
totals [] = 0
totals (i ∷ is) = i.total_minor + totals is

-- The books after any events that were recorded, uninvoiced, and any invoices that were generated,
-- of any tenants and periods; and the base fees of those invoices.
pub data Bills : ℕ → Books → Type 0 where
  opened : Bills 0 (record { usage = []; invoices = [] })
  recorded :
      {fees : ℕ} {b : Books} (event_id : Key) (event : UsageEvent)
      → Bills fees b
      → event.invoice_id ≡ none
      → Bills fees (record b { usage = record_usage event_id event b.usage })
  invoiced :
      {fees : ℕ} {b : Books} (i tenant from to : ℕ) (s : BillingSubscription)
      → Bills fees b
      → Bills (s.base_fee_minor + fees) (generate_invoice i tenant s from to b).1

billed-insert :
    (k : Key) (e : UsageEvent) (t : UsageTable)
    → lookup k t ≡ none
    → e.invoice_id ≡ none
    → billed (insert k e t) ≡ billed t
billed-insert k e [] h n = ground arith
billed-insert k e (f ∷ t) h n = ground (arith, billed-insert k e t)

record_usage-billed :
    (k : Key) (e : UsageEvent) (t : UsageTable)
    → e.invoice_id ≡ none
    → IsKeyed t
    → (billed (record_usage k e t) ≡ billed t) × IsKeyed (record_usage k e t)
unfolding record_usage
record_usage-billed k e t n h = ground (arith, billed-insert k e t, insert-IsKeyed k e t h)

Bills-IsKeyed : {fees : ℕ} {b : Books} → Bills fees b → IsKeyed b.usage
Bills-IsKeyed opened = tt
Bills-IsKeyed (recorded k e bills n) = (record_usage-billed k e _ n (Bills-IsKeyed bills)).1
Bills-IsKeyed (invoiced i t from to s bills) =
    generate-IsKeyed i t from to s _ (Bills-IsKeyed bills)

totals-generate :
    (i tenant from to : ℕ) (s : BillingSubscription) (b : Books)
    → totals (generate_invoice i tenant s from to b).1.invoices
      ≡ (generate_invoice i tenant s from to b).0.total_minor + totals b.invoices
unfolding generate_invoice
totals-generate i tenant from to s b = refl

-- From empty books, whatever is recorded and invoiced, with one invoice at a time: the invoices
-- add up to their base fees and the cost of the events that are marked as invoiced, each counted
-- once.
pub billed_once : {fees : ℕ} {b : Books} → Bills fees b → totals b.invoices ≡ fees + billed b.usage
billed_once opened = refl
billed_once (recorded k e bills n) =
    omega (arith, billed_once bills, (record_usage-billed k e _ n (Bills-IsKeyed bills)).0)
billed_once (invoiced {b = b} i t from to s bills) =
    let grown = totals-generate i t from to s b in
    let (total, _) = invoice_adds_up i t s from to b in
    let marked = generate-billed i t from to s b (Bills-IsKeyed bills) in
    omega (arith, billed_once bills, grown, total, marked)
