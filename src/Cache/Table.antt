-- ===== src/Cache/Table.antt =====
-- A Redis that is a function from keys to what is stored, which shows that what is assumed can be met.
use ticketflow.Base.{Option, none, some, ◌⊎◌, refl, ◌==◌, if◌then◌else◌}
use ticketflow.Base.Text.{Text, text_eq}
use ticketflow.Tickets.Query.{TicketPage}
use ticketflow.Dashboard.{DashboardStats}
use ticketflow.Cache.Libraries.{Redis, Stored, kept_or, bump}

abbrev pub Document : Type 0
Document = TicketPage ⊎ DashboardStats

abbrev pub State : Type 0
State = Text → Option (Stored Document)

abbrev pub redis : Redis
redis = record {
  Document = Document;
  State = State;
  get = λ k s. s k;
  set = λ k v s j. if j == k then some v else s j;
  set_nx = λ k v s j. if j == k then kept_or v (s j) else s j;
  incr = λ k s j. if j == k then bump (s j) else s j;
  delete = λ k s j. if j == k then none else s j;
  get-set = λ j k v s. refl;
  get-set_nx = λ j k v s. refl;
  get-incr = λ j k s. refl;
  get-delete = λ j k s. refl;
}
