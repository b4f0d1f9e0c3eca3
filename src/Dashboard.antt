-- ===== src/Dashboard.antt =====
-- app/services/dashboard_service.py: the counts of the agents' dashboard. The rows of a GROUP BY are
-- written over dictionaries that hold 0 for every member of the enumeration.
pub mod Groups
pub mod Counts
mod Tests
use Prim.Native.String.{String}
use ticketflow.Base.{
  ℕ, Bool, not, Option, none, some, List, [], ◌∷◌, filter, length, ◌==◌, string_eq, Equality,
  if◌then◌else◌, map,
}
use ticketflow.Base.Dict
use ticketflow.Base.Dict.{Dict}
use ticketflow.Models.{
  Ticket, Db, TicketStatus, TicketPriority, TicketCategory, opened, in_progress, resolved, closed,
  low, medium, high, billing, technical, general, status_value, priority_value, category_value,
  status_eq, priority_eq, category_eq,
}

pub record TicketStatusCounts : Type 0 where
  pub opened_count : ℕ
  pub in_progress_count : ℕ
  pub resolved_count : ℕ
  pub closed_count : ℕ

pub record TicketPriorityCounts : Type 0 where
  pub low_count : ℕ
  pub medium_count : ℕ
  pub high_count : ℕ

pub record TicketCategoryCounts : Type 0 where
  pub billing_count : ℕ
  pub technical_count : ℕ
  pub general_count : ℕ

pub record DashboardStats : Type 0 where
  pub total : ℕ
  pub by_status : TicketStatusCounts
  pub by_priority : TicketPriorityCounts
  pub by_category : TicketCategoryCounts

module _ {A : Type 0} ⦃equality : Equality A⦄ where
  unfoldable pub distinct : List A → List A
  distinct [] = []
  distinct (a ∷ rest) = a ∷ filter (λ b. not (b == a)) (distinct rest)

  -- `SELECT field, count(id) … GROUP BY field`: one row for each value that occurs.
  unfoldable pub group_by : (Ticket → A) → List Ticket → List (A × ℕ)
  unfolding distinct
  group_by field ts =
      map {B = A × ℕ} (λ a. (a, length (filter (λ t. field t == a) ts))) (distinct (map field ts))

-- `counts[member.value] = int(count)` for each row.
unfoldable pub assign : {A : Type 0} → (A → String) → List (A × ℕ) → Dict ℕ → Dict ℕ
assign value [] counts = counts
assign value (row ∷ rows) counts = assign value rows (Dict.put (value row.0) row.1 counts)

-- `Counts(**counts)` reads a field; its default is 0.
unfoldable pub field_of : String → Dict ℕ → ℕ
field_of name counts = elim (Dict.get name counts) [ none ↦ 0 | some n ↦ n ]

-- `{member.value: 0 for member in …}`
unfoldable pub zeros : {A : Type 0} → (A → String) → List A → Dict ℕ
zeros value [] = []
zeros value (a ∷ members) = Dict.put (value a) 0 (zeros value members)

unfoldable pub status_counts : List Ticket → Dict ℕ
status_counts ts =
    assign status_value (group_by (λ t. t.status) ts)
      (zeros status_value (opened ∷ in_progress ∷ resolved ∷ closed ∷ []))

unfoldable pub priority_counts : List Ticket → Dict ℕ
priority_counts ts =
    assign priority_value (group_by (λ t. t.priority) ts)
      (zeros priority_value (low ∷ medium ∷ high ∷ []))

unfoldable pub category_counts : List Ticket → Dict ℕ
category_counts ts =
    assign category_value (group_by (λ t. t.category) ts)
      (zeros category_value (billing ∷ technical ∷ general ∷ []))

unfoldable pub calculate_dashboard_stats : Db → DashboardStats
calculate_dashboard_stats db =
    let s = status_counts db.tickets in
    let p = priority_counts db.tickets in
    let c = category_counts db.tickets in
    record {
      total = length db.tickets;
      by_status = record {
        opened_count = field_of "OPEN" s;
        in_progress_count = field_of "IN_PROGRESS" s;
        resolved_count = field_of "RESOLVED" s;
        closed_count = field_of "CLOSED" s;
      };
      by_priority = record {
        low_count = field_of "LOW" p;
        medium_count = field_of "MEDIUM" p;
        high_count = field_of "HIGH" p;
      };
      by_category = record {
        billing_count = field_of "BILLING" c;
        technical_count = field_of "TECHNICAL" c;
        general_count = field_of "GENERAL" c;
      };
    }
