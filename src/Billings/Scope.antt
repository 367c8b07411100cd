-- ===== src/Billings/Scope.antt =====
-- Charges of other sellers: what a seller is shown, and what happens to the calls on them.
use mathlib.Core.List.{Memᴰ}
use mathlib.Core.List.Memᴰ
use v_backend.Base.Members.{All-members, Memᴰ-where_rows}
use v_backend.Base.Keys.{All-map, All-where_rows, where_rows-meets}
use v_backend.Base.{
  ℕ, ◌≡◌, refl, ◌⊎◌, Option-cases, Bool, ==_iff, true, false, ◌&&◌, List, [], ◌∷◌, Option, none,
  some, map, ok, err, not_found, arith, All, ◌==◌, Bool-cases, inl, inr, find_row, where_rows,
}
use v_backend.Calendar.{LocalDate, to_ms, midnight}
use v_backend.Db.{Db}
use v_backend.Db.Rows.{Order, Billing, BillingStatus}
use v_backend.Db.Tenant.{tenant_filter, in_filter}
use v_backend.Orders.Change.{find_order}
use v_backend.Billings.Records.{
  apply_overdue, find_all, find_by_id, in_tenant, has_status, stored_by_id, order_in_filter,
  may_be_overdue, is_before,
}
use v_backend.Billings.Service
use v_backend.Billings.Service.{UpdateBillingDto, find_all_by_status, query_status, keep_status}
use v_backend.Orders.Tenancy.{seller}

stored_by_id-foreign :
    (s id : ℕ) (db : Db) (xs : List Billing)
    → All (λ (b : Billing). (b.id == id && in_tenant (some s) db.orders b) ≡ false) xs
    → find_row (λ (b : Billing). b.id == id && in_tenant (some s) db.orders b) xs ≡ none
unfolding find_row
stored_by_id-foreign s id db [] h = refl
stored_by_id-foreign s id db (x ∷ xs) h = ground (arith, stored_by_id-foreign s id db xs h.1)

-- To a seller a charge that is missing and a charge of another seller look alike: updating,
-- canceling or deleting it answers that it is not found.
pub foreign_billing :
    (s id : ℕ) (now : LocalDate) (dto : UpdateBillingDto) (db : Db)
    → All (λ (b : Billing). (b.id == id && in_tenant (some s) db.orders b) ≡ false) db.billings
    → (Service.update (seller s) now id dto db ≡ err not_found)
      × (Service.cancel (seller s) now id db ≡ err not_found)
      × (Service.delete (seller s) now id db ≡ err not_found)
unfolding Service.update Service.cancel Service.delete find_by_id stored_by_id tenant_filter
foreign_billing s id now dto db foreign =
    let missing = stored_by_id-foreign s id db db.billings foreign in
    (rw missing refl, rw missing refl, rw missing refl)

-- The charge is for an order of the seller.
abbrev pub IsOwn : ℕ → Db → Billing → Type 0
IsOwn s db b = (o : Order) × (find_order b.order_id db.orders ≡ some o) × (o.seller_id ≡ s)

-- The charge is shown in the state, or is overdue.
abbrev pub IsAsked : Option BillingStatus → Billing → Type 0
IsAsked status b = (has_status status b ≡ true) ⊎ (b.status ≡ BillingStatus.overdue)

in_tenant-IsOwn :
    (s : ℕ) (db : Db) (b : Billing) → in_tenant (some s) db.orders b ≡ true → IsOwn s db b
unfolding in_tenant order_in_filter in_filter
in_tenant-IsOwn s db b own = elim (Option-cases (find_order b.order_id db.orders)) [
  | inl missing ↦ let impossible = rw missing at own in cc
  | inr (o, found) ↦ (o, found, (==_iff o.seller_id s).0 (rw found at own))
]

not-IsOwn :
    (s : ℕ) (db : Db) (b : Billing) → in_tenant (some s) db.orders b ≡ false → ¬ (IsOwn s db b)
unfolding in_tenant order_in_filter in_filter
not-IsOwn s db b other (o, found, same) =
    let ours : (o.seller_id == s) ≡ true = (==_iff o.seller_id s).1 same in
    let theirs : (o.seller_id == s) ≡ false = rw found at other in cc

IsOwn-overdue :
    (s : ℕ) (now : LocalDate) (db : Db) (b : Billing)
    → IsOwn s db b
    → IsOwn s db (apply_overdue now b)
unfolding apply_overdue
IsOwn-overdue s now db b (o, found, same) = (o, ground (arith, found), same)

asked :
    (now : LocalDate) (status : Option BillingStatus) (b : Billing)
    → has_status status b ≡ true
    → IsAsked status (apply_overdue now b)
unfolding apply_overdue
asked now status b h =
    elim (Bool-cases (may_be_overdue b.status && is_before b.due_date (to_ms (midnight now)))) [
      | inl late ↦ rw late (inr refl)
      | inr usual ↦ rw usual (inl h)
    ]

All-shown :
    (P : Billing → Type 0) (f : Billing → Billing) (c : Billing → Bool) (xs : List Billing)
    → ((b : Billing) → c b ≡ true → P (f b))
    → All P (map f (where_rows c xs))
unfolding where_rows
All-shown P f c [] new = tt
All-shown P f c (x ∷ xs) new = elim (Bool-cases (c x)) [
  | inl hit ↦ rw hit (new x hit, All-shown P f c xs new)
  | inr miss ↦ rw miss (All-shown P f c xs new)
]

-- The service asks the repository for a state that the stored row has.
queried :
    (now : LocalDate) (status : Option BillingStatus) (b : Billing)
    → has_status status (apply_overdue now b) ≡ true
    → has_status (query_status status) b ≡ true
unfolding has_status query_status apply_overdue
queried now none b h = refl
queried now (some BillingStatus.overdue) b h = refl
queried now (some BillingStatus.pending) b h = ground arith
queried now (some BillingStatus.partial) b h = ground arith
queried now (some BillingStatus.paid) b h = ground arith
queried now (some BillingStatus.canceled) b h = ground arith

keep-All :
    (P : Billing → Type 0) (status : Option BillingStatus) (bs : List Billing)
    → All (λ b. P b × IsAsked (query_status status) b) bs
    → All (λ b. P b × IsAsked status b) (keep_status status bs)
unfolding keep_status query_status
keep-All P none bs h = h
keep-All P (some BillingStatus.pending) bs h = h
keep-All P (some BillingStatus.partial) bs h = h
keep-All P (some BillingStatus.paid) bs h = h
keep-All P (some BillingStatus.canceled) bs h = h
keep-All P (some BillingStatus.overdue) bs h =
    let is_late = has_status (some BillingStatus.overdue) in
    All-map (λ b. P b × IsAsked none b) (λ b. is_late b ≡ true) _ (λ b h late. (h.0, inl late)) _
      (All-where_rows (λ b. P b × IsAsked none b) is_late bs h) (where_rows-meets is_late bs)

keep-Memᴰ :
    (status : Option BillingStatus) (b : Billing) (bs : List Billing)
    → has_status status b ≡ true
    → Memᴰ b bs
    → Memᴰ b (keep_status status bs)
unfolding keep_status
keep-Memᴰ none b bs h m = m
keep-Memᴰ (some BillingStatus.pending) b bs h m = m
keep-Memᴰ (some BillingStatus.partial) b bs h m = m
keep-Memᴰ (some BillingStatus.paid) b bs h m = m
keep-Memᴰ (some BillingStatus.canceled) b bs h m = m
keep-Memᴰ (some BillingStatus.overdue) b bs h m = Memᴰ-where_rows _ b bs h m

-- Whatever state a seller asks for, the answer of the service is right and complete. Every charge in
-- it is for an order of that seller, and is shown in the state that was asked for or as overdue.
-- Every stored charge is in it, as it is shown, unless it is for no order of that seller or is
-- shown in another state.
pub find_all_by_status-IsOwn :
    (s : ℕ) (now : LocalDate) (status : Option BillingStatus) (db : Db)
    → (bs : List Billing) × (find_all_by_status (seller s) now status db ≡ ok bs)
      × All (λ b. IsOwn s db b × IsAsked status b) bs
      × All
          (λ b.
            Memᴰ (apply_overdue now b) bs
            ⊎ ((¬ (IsOwn s db b)) ⊎ (has_status status (apply_overdue now b) ≡ false)))
          db.billings
unfolding find_all_by_status find_all tenant_filter
find_all_by_status-IsOwn s now status db =
    let c = λ (b : Billing). in_tenant (some s) db.orders b && has_status (query_status status) b in
    (
      _,
      refl,
      keep-All (IsOwn s db) status _ (
          All-shown _ (apply_overdue now) c db.billings λ b hit. (
            IsOwn-overdue s now db b (in_tenant-IsOwn s db b (ground (arith, hit))),
            asked now (query_status status) b (ground (arith, hit)),
          )),
      All-members _ db.billings λ b m. elim (Bool-cases (in_tenant (some s) db.orders b)) [
        | inr other ↦ inr (inl (not-IsOwn s db b other))
        | inl own ↦ elim (Bool-cases (has_status status (apply_overdue now b))) [
          | inr hidden ↦ inr (inr hidden)
          | inl shown ↦ inl (
              keep-Memᴰ status (apply_overdue now b) _ shown (
                Memᴰ.map (apply_overdue now)
                  (Memᴰ-where_rows c b db.billings (rw (own, queried now status b shown) refl) m)))
        ]
      ],
    )
