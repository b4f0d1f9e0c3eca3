-- ===== src/Dashboard/Counts.antt =====
-- The numbers of app/services/dashboard_service.py against the rows.
use ticketflow.Base.{◌+◌, ◌≡◌, refl, List, [], ◌∷◌, arith, length, ◌==◌, string_eq}
use ticketflow.Base.Dict
use ticketflow.Base.Dict.{Dict, get-put}
use ticketflow.Models.{
  Ticket, Db, TicketStatus, TicketPriority, TicketCategory, opened, in_progress, resolved, closed,
  low, medium, high, billing, technical, general, status_value, priority_value, category_value,
  status_eq, priority_eq, category_eq,
}
use ticketflow.Dashboard.{
  field_of, zeros, status_counts, priority_counts, category_counts, calculate_dashboard_stats,
}
use ticketflow.Dashboard.Groups.{count_of, field_of-counts}

status_value-apart : (a b : TicketStatus) → (status_value a == status_value b) ≡ (a == b)
unfolding status_value
status_value-apart opened opened = refl
status_value-apart opened in_progress = refl
status_value-apart opened resolved = refl
status_value-apart opened closed = refl
status_value-apart in_progress opened = refl
status_value-apart in_progress in_progress = refl
status_value-apart in_progress resolved = refl
status_value-apart in_progress closed = refl
status_value-apart resolved opened = refl
status_value-apart resolved in_progress = refl
status_value-apart resolved resolved = refl
status_value-apart resolved closed = refl
status_value-apart closed opened = refl
status_value-apart closed in_progress = refl
status_value-apart closed resolved = refl
status_value-apart closed closed = refl

priority_value-apart : (a b : TicketPriority) → (priority_value a == priority_value b) ≡ (a == b)
unfolding priority_value
priority_value-apart low low = refl
priority_value-apart low medium = refl
priority_value-apart low high = refl
priority_value-apart medium low = refl
priority_value-apart medium medium = refl
priority_value-apart medium high = refl
priority_value-apart high low = refl
priority_value-apart high medium = refl
priority_value-apart high high = refl

category_value-apart : (a b : TicketCategory) → (category_value a == category_value b) ≡ (a == b)
unfolding category_value
category_value-apart billing billing = refl
category_value-apart billing technical = refl
category_value-apart billing general = refl
category_value-apart technical billing = refl
category_value-apart technical technical = refl
category_value-apart technical general = refl
category_value-apart general billing = refl
category_value-apart general technical = refl
category_value-apart general general = refl

status_total :
    (ts : List Ticket)
    → count_of (λ t. t.status) opened ts
        + count_of (λ t. t.status) in_progress ts
        + count_of (λ t. t.status) resolved ts
        + count_of (λ t. t.status) closed ts
      ≡ length ts
status_total [] = refl
status_total (t ∷ ts) = ground (arith, status_total ts)

priority_total :
    (ts : List Ticket)
    → count_of (λ t. t.priority) low ts
        + count_of (λ t. t.priority) medium ts
        + count_of (λ t. t.priority) high ts
      ≡ length ts
priority_total [] = refl
priority_total (t ∷ ts) = ground (arith, priority_total ts)

category_total :
    (ts : List Ticket)
    → count_of (λ t. t.category) billing ts
        + count_of (λ t. t.category) technical ts
        + count_of (λ t. t.category) general ts
      ≡ length ts
category_total [] = refl
category_total (t ∷ ts) = ground (arith, category_total ts)

-- The numbers of the dashboard: `total` is the number of tickets, and each field is the number of
-- tickets with that status, priority or category, 0 where there are none.
pub calculate_dashboard_stats_exact :
    (db : Db)
    → let stats = calculate_dashboard_stats db in
      let ts = db.tickets in
      (stats.total ≡ length ts)
      × ((stats.by_status.opened_count ≡ count_of (λ t. t.status) opened ts)
          × (stats.by_status.in_progress_count ≡ count_of (λ t. t.status) in_progress ts)
          × (stats.by_status.resolved_count ≡ count_of (λ t. t.status) resolved ts)
          × (stats.by_status.closed_count ≡ count_of (λ t. t.status) closed ts))
      × ((stats.by_priority.low_count ≡ count_of (λ t. t.priority) low ts)
          × (stats.by_priority.medium_count ≡ count_of (λ t. t.priority) medium ts)
          × (stats.by_priority.high_count ≡ count_of (λ t. t.priority) high ts))
      × ((stats.by_category.billing_count ≡ count_of (λ t. t.category) billing ts)
          × (stats.by_category.technical_count ≡ count_of (λ t. t.category) technical ts)
          × (stats.by_category.general_count ≡ count_of (λ t. t.category) general ts))
unfolding calculate_dashboard_stats status_counts priority_counts category_counts zeros field_of
    Dict.get Dict.put status_value priority_value category_value
calculate_dashboard_stats_exact db =
    let by_status = λ (s : TicketStatus).
      field_of-counts status_value status_value-apart (λ t. t.status) s db.tickets
        (zeros status_value (opened ∷ in_progress ∷ resolved ∷ closed ∷ [])) in
    let by_priority = λ (p : TicketPriority).
      field_of-counts priority_value priority_value-apart (λ t. t.priority) p db.tickets
        (zeros priority_value (low ∷ medium ∷ high ∷ [])) in
    let by_category = λ (c : TicketCategory).
      field_of-counts category_value category_value-apart (λ t. t.category) c db.tickets
        (zeros category_value (billing ∷ technical ∷ general ∷ [])) in
    (
      refl,
      (
        by_status opened refl,
        by_status in_progress refl,
        by_status resolved refl,
        by_status closed refl,
      ),
      (by_priority low refl, by_priority medium refl, by_priority high refl),
      (by_category billing refl, by_category technical refl, by_category general refl),
    )

-- The counts of the statuses, those of the priorities and those of the categories each add up to the
-- total.
pub groups_add_up :
    (db : Db)
    → let stats = calculate_dashboard_stats db in
      (stats.by_status.opened_count + stats.by_status.in_progress_count
          + stats.by_status.resolved_count + stats.by_status.closed_count
        ≡ stats.total)
      × (stats.by_priority.low_count + stats.by_priority.medium_count + stats.by_priority.high_count
          ≡ stats.total)
      × (stats.by_category.billing_count + stats.by_category.technical_count
            + stats.by_category.general_count
          ≡ stats.total)
groups_add_up db =
    let (t, (o, i, r, c), (l, m, h), (b, e, g)) = calculate_dashboard_stats_exact db in
    (
      rw (o, i, r, c, t) (status_total db.tickets),
      rw (l, m, h, t) (priority_total db.tickets),
      rw (b, e, g, t) (category_total db.tickets),
    )
