-- ===== src/Dashboard/Tests.antt =====
-- The dashboard at the sample rows.
use ticketflow.Base.{◌≡◌}
use ticketflow.Models.Samples.{desk}
use ticketflow.Dashboard.{calculate_dashboard_stats, DashboardStats}
use ticketflow.Dashboard.Counts.{calculate_dashboard_stats_exact}

abbrev desk_stats : DashboardStats
desk_stats = calculate_dashboard_stats desk

calculate_dashboard_stats_exact_example :
    (desk_stats.total ≡ 3)
    × ((desk_stats.by_status.opened_count ≡ 2)
        × (desk_stats.by_status.in_progress_count ≡ 1)
        × (desk_stats.by_status.resolved_count ≡ 0)
        × (desk_stats.by_status.closed_count ≡ 0))
    × ((desk_stats.by_priority.low_count ≡ 3)
        × (desk_stats.by_priority.medium_count ≡ 0)
        × (desk_stats.by_priority.high_count ≡ 0))
    × ((desk_stats.by_category.billing_count ≡ 3)
        × (desk_stats.by_category.technical_count ≡ 0)
        × (desk_stats.by_category.general_count ≡ 0))
calculate_dashboard_stats_exact_example = calculate_dashboard_stats_exact desk
