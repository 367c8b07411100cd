-- ===== src/Billings/Sync.antt =====
-- What `syncBillings` leaves unbilled, and what a second run does.

use v_backend.Base.{
  ℕ, ◌≡◌, ◌∙◌, refl, sym, ap, Bool, true, false, not, ◌&&◌, ◌||◌, ◌⊎◌, inl, inr, List, [], ◌∷◌,
  ◌++◌, Option, none, some, Result, ok, err, HttpError, >>=-eq-ok, ok-injective, arith, All, ◌==◌,
  ==-refl, if◌then◌else◌, Bool-cases, Result-cases, find_row, where_rows, any_row, text_eq, ◌>>=◌,
}
use v_backend.Calendar.{LocalDate}
use v_backend.Db.{Db}
use v_backend.Db.Rows.{Order, Billing}
use v_backend.Db.Tenant.{TenantContext, tenant_filter}
use v_backend.Billings.Records
use v_backend.Billings.Records.{
  CreateBillingData, new_billing, is_billed, is_unbilled, find_unbilled_per_sale_orders,
}
use v_backend.Billings.Service.{keep_going, sync_data, sync_number, sync_orders, sync_billings}

-- Some charge bears the number that the sync would give to the order.
abbrev pub is_taken : (ℕ → List ℕ) → List Billing → Order → Bool
is_taken decimal billings o =
    any_row (λ (x : Billing). text_eq x.billing_number (sync_number decimal o)) billings

-- What a table has stays in a later one; the orders and the customers are the same.
record IsLater (a b : Db) : Type 0 where
  keeps : (c : Billing → Bool) → any_row c a.billings ≡ true → any_row c b.billings ≡ true
  orders_eq : b.orders ≡ a.orders
  customers_eq : b.customers ≡ a.customers

any_row-append :
    (c : Billing → Bool) (xs ys : List Billing)
    → any_row c (xs ++ ys) ≡ (any_row c xs || any_row c ys)
unfolding any_row
any_row-append c [] ys = refl
any_row-append c (x ∷ xs) ys = ground (arith, any_row-append c xs ys)

All-imp :
    (P : Order → Type 0) (c : Order → Bool) (xs : List Order)
    → All P (where_rows c xs)
    → All (λ x. c x ≡ true → P x) xs
unfolding where_rows
All-imp P c [] h = tt
All-imp P c (x ∷ xs) h = elim (Bool-cases (c x)) [
  | inl hit ↦
      let kept : All P (x ∷ where_rows c xs) = rw hit at h in (λ _. kept.0, All-imp P c xs kept.1)
  | inr miss ↦ (λ e. cc (e, miss), All-imp P c xs (rw miss at h))
]

module _ (decimal : ℕ → List ℕ) (local_date : ℕ → LocalDate) (now : LocalDate) where
  -- The order has a charge, or its number is taken.
  abbrev IsSettled : Db → Order → Type 0
  IsSettled db o = (is_billed db.billings o.id ≡ true) ⊎ (is_taken decimal db.billings o ≡ true)

  created_facts :
      (o : Order) (db : Db) {r : Db × Billing}
      → Records.create now (sync_data decimal local_date o) db ≡ ok r
      → ((r.0).billings
          ≡ db.billings ++ new_billing db.next_billing (sync_data decimal local_date o) ∷ [])
        × ((r.0).orders ≡ db.orders)
        × ((r.0).customers ≡ db.customers)
  unfolding Records.create
  created_facts o db e = ground arith

  refused_taken :
      (o : Order) (db : Db) {x : HttpError}
      → Records.create now (sync_data decimal local_date o) db ≡ err x
      → is_taken decimal db.billings o ≡ true
  unfolding Records.create sync_data
  refused_taken o db e = ground arith

  taken_refused :
      (o : Order) (db : Db)
      → is_taken decimal db.billings o ≡ true
      → (x : HttpError) × (Records.create now (sync_data decimal local_date o) db ≡ err x)
  unfolding Records.create sync_data
  taken_refused o db taken = (v_backend.Base.unique_violation, ground arith)

  new_row_billed :
      (o : Order) (n : ℕ) (xs : List Billing)
      → is_billed (xs ++ new_billing n (sync_data decimal local_date o) ∷ []) o.id ≡ true
  unfolding is_billed any_row new_billing sync_data
  new_row_billed o n [] = ground (arith, ==-refl o.id)
  new_row_billed o n (x ∷ xs) = ground (arith, new_row_billed o n xs)

  IsLater-refl : (db : Db) → IsLater db db
  IsLater-refl db = record { keeps = λ c h. h; orders_eq = refl; customers_eq = refl }

  IsLater-trans : {a b c : Db} → IsLater a b → IsLater b c → IsLater a c
  IsLater-trans h k = record {
    keeps = λ c e. k.keeps c (h.keeps c e);
    orders_eq = k.orders_eq ∙ h.orders_eq;
    customers_eq = k.customers_eq ∙ h.customers_eq;
  }

  kept_row :
      (c : Billing → Bool) (xs : List Billing) (b : Billing)
      → any_row c xs ≡ true
      → any_row c (xs ++ b ∷ []) ≡ true
  kept_row c xs b h = ground (arith, any_row-append c xs (b ∷ []))

  one_settles :
      (o : Order) (db : Db) (res : Result (Db × Billing))
      → Records.create now (sync_data decimal local_date o) db ≡ res
      → IsLater db (keep_going db res).0 × IsSettled (keep_going db res).0 o
  unfolding keep_going
  one_settles o db (ok r) e =
      let (billings_eq, orders_eq, customers_eq) = created_facts o db e in
      (
        record {
          keeps = λ c h. ap (any_row c) billings_eq ∙ kept_row c db.billings _ h;
          orders_eq = orders_eq;
          customers_eq = customers_eq;
        },
        inl (
            ap (λ xs. is_billed xs o.id) billings_eq
            ∙ new_row_billed o db.next_billing db.billings),
      )
  one_settles o db (err x) e = (IsLater-refl db, inr (refused_taken o db e))

  IsSettled-later : {a b : Db} → IsLater a b → (o : Order) → IsSettled a o → IsSettled b o
  unfolding is_billed
  IsSettled-later h o (inl billed) = inl (h.keeps (λ (b : Billing). b.order_id == o.id) billed)
  IsSettled-later h o (inr taken) =
      inr (h.keeps (λ (x : Billing). text_eq x.billing_number (sync_number decimal o)) taken)

  sync_orders-settles :
      (os : List Order) (db : Db)
      → IsLater db (sync_orders decimal local_date now os db).0
        × All (IsSettled (sync_orders decimal local_date now os db).0) os
  unfolding sync_orders
  sync_orders-settles [] db = (IsLater-refl db, tt)
  sync_orders-settles (o ∷ os) db =
      let (first, settled) = one_settles o db _ refl in
      let (later, others) =
        sync_orders-settles os
          (keep_going db (Records.create now (sync_data decimal local_date o) db)).0 in
      (IsLater-trans first later, (IsSettled-later later o settled, others))

  -- A run over orders whose numbers are all taken.
  sync_orders-taken :
      (os : List Order) (db : Db)
      → All (λ o. is_taken decimal db.billings o ≡ true) os
      → sync_orders decimal local_date now os db ≡ (db, [])
  unfolding sync_orders keep_going
  sync_orders-taken [] db h = refl
  sync_orders-taken (o ∷ os) db h =
      let (x, refused) = taken_refused o db h.0 in rw (refused, sync_orders-taken os db h.1) refl

unbilled_earlier :
    (filter : Option ℕ) {a b : Db} (o : Order)
    → IsLater a b
    → is_unbilled filter b o ≡ true
    → (is_unbilled filter a o ≡ true) × (is_billed b.billings o.id ≡ false)
unfolding is_unbilled is_billed
unbilled_earlier filter {a} {b} o h e =
    ground (arith, h.customers_eq, h.keeps (λ (x : Billing). x.order_id == o.id))

settled_taken :
    (decimal : ℕ → List ℕ) (b : Db) (o : Order)
    → is_billed b.billings o.id ≡ false
    → (is_billed b.billings o.id ≡ true) ⊎ (is_taken decimal b.billings o ≡ true)
    → is_taken decimal b.billings o ≡ true
settled_taken decimal b o unbilled (inl billed) = cc
settled_taken decimal b o unbilled (inr taken) = taken

-- What is still unbilled after a run has a number that is taken.
All-still_unbilled :
    (decimal : ℕ → List ℕ) (local_date : ℕ → LocalDate) (now : LocalDate) (filter : Option ℕ)
    (a b : Db)
    → IsLater a b
    → (os : List Order)
    → All (λ o. is_unbilled filter a o ≡ true → IsSettled decimal local_date now b o) os
    → All (λ o. is_taken decimal b.billings o ≡ true) (where_rows (is_unbilled filter b) os)
unfolding where_rows
All-still_unbilled decimal local_date now filter a b h [] settled = tt
All-still_unbilled decimal local_date now filter a b h (o ∷ os) settled =
    let rest = All-still_unbilled decimal local_date now filter a b h os settled.1 in
    elim (Bool-cases (is_unbilled filter b o)) [
      | inl still ↦
          let (before, unbilled) = unbilled_earlier filter o h still in
          rw still (settled_taken decimal b o unbilled (settled.0 before), rest)
      | inr closed ↦ rw closed rest
    ]

-- A second run of the sync, in the same request context and right after the first, creates
-- nothing and reports nothing.
pub sync_billings_twice :
    (decimal : ℕ → List ℕ) (local_date : ℕ → LocalDate) (ctx : TenantContext)
    (now later : LocalDate) (db : Db) {r : Db × List (List ℕ)}
    → sync_billings decimal local_date ctx now db ≡ ok r
    → sync_billings decimal local_date ctx later r.0 ≡ ok (r.0, [])
unfolding sync_billings find_unbilled_per_sale_orders
sync_billings_twice decimal local_date ctx now later db {r} e =
    let orders = >>=-eq-ok (find_unbilled_per_sale_orders ctx db) _ e in
    let filter = >>=-eq-ok (tenant_filter ctx) _ orders.1 in
    let same = ok-injective orders.2 in
    let listed = ok-injective filter.2 in
    let settles = sync_orders-settles decimal local_date now orders.0 db in
    let grows : IsLater db r.0 = rw same at settles.0 in
    let settled : All (IsSettled decimal local_date now r.0)
        (where_rows (is_unbilled filter.0 db) db.orders) =
      rw (same, sym listed) at settles.1 in
    let each =
      All-imp (IsSettled decimal local_date now r.0) (is_unbilled filter.0 db) db.orders settled in
    let taken = All-still_unbilled decimal local_date now filter.0 db r.0 grows db.orders each in
    let taken' : All (λ o. is_taken decimal (r.0).billings o ≡ true)
        (where_rows (is_unbilled filter.0 r.0) (r.0).orders) =
      rw grows.orders_eq taken in
    rw filter.1 (
      ap ok (
        sync_orders-taken decimal local_date later
          (where_rows (is_unbilled filter.0 r.0) (r.0).orders) r.0 taken'))
