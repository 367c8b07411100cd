-- ===== src/Subscriptions/Deliveries.antt =====
-- Deliveries of webhook events: `process` of Webhooks for any handler that leaves the events alone.
use v_backend.Base.{
  ℕ, ◌==◌, ==_iff, ==-refl, true, false, List, none, some, Result, ok, err, HttpError, ◌≡◌, refl,
  sym, ◌∙◌, ap, inl, inr, ◌⊎◌, Bool-cases, Option-cases, if◌then◌else◌, update_rows,
  find_row-update_rows, find_row-append, find_row-meets, [], ◌∷◌, ◌++◌, suc, ok-injective,
}
use mathlib.Core.Option
use v_backend.Subscriptions.Store.{Store, Effect, WebhookEvent, Provider}
use v_backend.Subscriptions.Repository.{
  find_webhook_event, upsert_webhook_event, mark_webhook_processed, mark_webhook_error, new_event,
  retried,
}
use v_backend.Subscriptions.Webhooks.{
  Reply, done, already_processed, process, run_event, settle, was_processed,
}
use v_backend.Subscriptions.Events.{KeepsEvents}

-- The row of an event that is open, after the upsert.
abbrev pub IsOpened : Provider → ℕ → Store → Store → WebhookEvent → Type 0
IsOpened provider id s opened row =
    (upsert_webhook_event provider id s ≡ (opened, ok row))
    × (find_webhook_event id opened.events ≡ some row)
    × (row.processed ≡ false)
    × (opened.accounts ≡ s.accounts)

new-IsOpened :
    (provider : Provider) (id : ℕ) (s : Store)
    → find_webhook_event id s.events ≡ none
    → (t : Store) × (row : WebhookEvent) × IsOpened provider id s t row
unfolding upsert_webhook_event find_webhook_event new_event
new-IsOpened provider id s missing = (
  record s {
    next_event = suc s.next_event;
    events = s.events ++ new_event s.next_event provider id ∷ [];
  },
  new_event s.next_event provider id,
  (
    rw (missing, upsert_webhook_event) refl,
    find_row-append (λ e. e.event_id == id) s.events (new_event s.next_event provider id) missing
        (==-refl id),
    refl,
    refl,
  ),
)

retried-IsOpened :
    (provider : Provider) (id : ℕ) (s : Store) (e : WebhookEvent)
    → find_webhook_event id s.events ≡ some e
    → e.processed ≡ false
    → (t : Store) × (row : WebhookEvent) × IsOpened provider id s t row
unfolding upsert_webhook_event find_webhook_event retried
retried-IsOpened provider id s e found waiting = (
  record s { events = update_rows (λ x. x.event_id == id) retried s.events },
  retried e,
  (
    rw (found, upsert_webhook_event) refl,
    find_row-update_rows (λ x. x.event_id == id) (λ x. x.event_id == id) retried s.events
          (λ x. refl)
        ∙ ap (Option.map (λ (x : WebhookEvent). if x.event_id == id then retried x else x)) found
        ∙ rw (find_row-meets (λ (x : WebhookEvent). x.event_id == id) s.events found) refl,
    waiting,
    refl,
  ),
)

pub upsert-IsOpened :
    (provider : Provider) (id : ℕ) (s : Store)
    → was_processed (find_webhook_event id s.events) ≡ false
    → (t : Store) × (row : WebhookEvent) × IsOpened provider id s t row
unfolding was_processed
upsert-IsOpened provider id s waiting = elim (Option-cases (find_webhook_event id s.events)) [
  | inl missing ↦ new-IsOpened provider id s missing
  | inr (e, found) ↦ retried-IsOpened provider id s e found (ap was_processed (sym found) ∙ waiting)
]

mark-find :
    (k id : ℕ) (f : WebhookEvent → WebhookEvent) (events : List WebhookEvent) {row : WebhookEvent}
    → ((e : WebhookEvent) → (f e).event_id ≡ e.event_id)
    → find_webhook_event id events ≡ some row
    → (row.id ≡ k)
    → find_webhook_event id (update_rows (λ e. e.id == k) f events) ≡ some (f row)
unfolding find_webhook_event
mark-find k id f events {row} keeps found own =
    find_row-update_rows (λ e. e.event_id == id) (λ e. e.id == k) f events (λ e. rw (keeps e) refl)
    ∙ ap (Option.map (λ (e : WebhookEvent). if e.id == k then f e else e)) found
    ∙ rw ((==_iff row.id k).1 own) refl

-- What a delivery of an event that is open comes to.
pub process-open :
    (now : ℕ) (provider : Provider) (id : ℕ) (handler : Effect (Unit {0})) (s t : Store)
    (row : WebhookEvent)
    → was_processed (find_webhook_event id s.events) ≡ false
    → upsert_webhook_event provider id s ≡ (t, ok row)
    → process now provider id handler s ≡ settle now row.id (handler t)
unfolding process run_event
process-open now provider id handler s t row waiting opened = rw (waiting, opened) refl

pub settle-done :
    (now id : ℕ) (end : Store × Result (Unit {0})) (row : WebhookEvent) {t : Store}
    → find_webhook_event id end.0.events ≡ some row
    → settle now row.id end ≡ (t, ok done)
    → was_processed (find_webhook_event id t.events) ≡ true
unfolding settle mark_webhook_processed was_processed
settle-done now id (u, ok v) row {t} found e =
    ap (λ (x : Store × Result Reply). was_processed (find_webhook_event id x.0.events)) (sym e)
    ∙ ap was_processed (
        mark-find row.id id (λ x. record x { processed = true; processed_at = some now }) u.events
          (λ x. refl) found refl)
settle-done now id (u, err thrown) row {t} found e = cc

pub settle-thrown :
    (now id : ℕ) (u : Store) (row : WebhookEvent) (thrown : HttpError)
    → find_webhook_event id u.events ≡ some row
    → (t : Store) × (settle now row.id (u, err thrown) ≡ (t, err thrown))
      × (find_webhook_event id t.events ≡ some (record row { error = some thrown }))
      × (t.accounts ≡ u.accounts)
      × (t.subscriptions ≡ u.subscriptions)
unfolding settle mark_webhook_error
settle-thrown now id u row thrown found = (
  (mark_webhook_error row.id thrown u).0,
  refl,
  mark-find row.id id (λ x. record x { error = some thrown }) u.events (λ x. refl) found refl,
  refl,
  refl,
)

settle-reply :
    (now id : ℕ) (end : Store × Result (Unit {0})) {t : Store} {r : Reply}
    → settle now id end ≡ (t, ok r)
    → r ≡ done
unfolding settle
settle-reply now id (u, ok v) {t} {r} e = cc
settle-reply now id (u, err thrown) {t} {r} e = cc

-- The cases of a delivery: the event was done, or it is opened and settled.
pub process-cases :
    (now : ℕ) (provider : Provider) (id : ℕ) (handler : Effect (Unit {0})) (s : Store)
    → KeepsEvents handler
    → ((was_processed (find_webhook_event id s.events) ≡ true)
        × (process now provider id handler s ≡ (s, ok already_processed)))
      ⊎ ((opened : Store) × (row : WebhookEvent) × (find_webhook_event id (handler opened).0.events
            ≡ some row)
          × (row.processed ≡ false)
          × (opened.accounts ≡ s.accounts)
          × (process now provider id handler s ≡ settle now row.id (handler opened)))
unfolding process
process-cases now provider id handler s keeps =
    elim (Bool-cases (was_processed (find_webhook_event id s.events))) [
      | inl before ↦ inl (before, rw before refl)
      | inr waiting ↦
          let (opened, row, facts) = upsert-IsOpened provider id s waiting in
          inr (
            opened,
            row,
            ap (find_webhook_event id) (keeps opened) ∙ facts.1,
            facts.2,
            facts.3,
            process-open now provider id handler s opened row waiting facts.0,
          )
    ]

pub process-twice :
    (now later : ℕ) (provider another : Provider) (id : ℕ) (handler other : Effect (Unit {0}))
    (s t : Store) {r : Reply}
    → KeepsEvents handler
    → process now provider id handler s ≡ (t, ok r)
    → process later another id other t ≡ (t, ok already_processed)
unfolding process
process-twice now later provider another id handler other s t {r} keeps e =
    elim (process-cases now provider id handler s keeps) [
      | inl (before, skipped) ↦ let same : s ≡ t = cc in rw (sym same) (rw before refl)
      | inr (opened, row, found, waiting, accounts, settled) ↦
          let answer : r ≡ done = settle-reply now row.id (handler opened) (sym settled ∙ e) in
          rw
            (settle-done now id (handler opened) row {t = t} found
              (sym settled ∙ rw (sym answer) e))
            refl
    ]

pub process-throws :
    (now : ℕ) (provider : Provider) (id : ℕ) (handler : Effect (Unit {0})) (s opened u : Store)
    (row : WebhookEvent) (thrown : HttpError)
    → KeepsEvents handler
    → was_processed (find_webhook_event id s.events) ≡ false
    → upsert_webhook_event provider id s ≡ (opened, ok row)
    → handler opened ≡ (u, err thrown)
    → (t : Store) × (process now provider id handler s ≡ (t, err thrown))
      × (find_webhook_event id t.events ≡ some (record row { error = some thrown }))
      × (row.processed ≡ false)
      × (t.accounts ≡ u.accounts)
      × (t.subscriptions ≡ u.subscriptions)
process-throws now provider id handler s opened u row thrown keeps waiting begun fails =
    let (other, same_row, (again, present, unprocessed, _)) =
      upsert-IsOpened provider id s waiting in
    let same : other ≡ opened = ap (λ (x : Store × Result WebhookEvent). x.0) (sym again ∙ begun) in
    let rows : same_row ≡ row =
      ok-injective (ap (λ (x : Store × Result WebhookEvent). x.1) (sym again ∙ begun)) in
    let kept : u.events ≡ opened.events =
      ap (λ (x : Store × Result (Unit {0})). x.0.events) (sym fails) ∙ keeps opened in
    let (t, ended, found, accounts, subscriptions) = settle-thrown now id u row thrown (
      ap (find_webhook_event id) kept
      ∙ ap (λ (x : Store). find_webhook_event id x.events) (sym same)
      ∙ present
      ∙ ap some rows) in
    (
      t,
      process-open now provider id handler s opened row waiting begun
          ∙ ap (settle now row.id) fails
          ∙ ended,
      found,
      ap (λ (x : WebhookEvent). x.processed) (sym rows) ∙ unprocessed,
      accounts,
      subscriptions,
    )
