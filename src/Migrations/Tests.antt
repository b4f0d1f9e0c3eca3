-- ===== src/Migrations/Tests.antt =====
-- The migration beside a table of another program.
use ticketflow.Base.{arith, ◌≡◌, some, [], ◌∷◌, All}
use ticketflow.Migrations.Objects.{Catalog, uuid, primary_key}
use ticketflow.Migrations.Initial.{
  upgrade, downgrade, upgrade_operations, downgrade_operations, column, index,
}
use ticketflow.Migrations.Frame.{IsApart}
use ticketflow.Migrations.RoundTrip.{Declares, downgrade-upgrade, upgrade-Declares}

abbrev foreign : Catalog
foreign = record {
  enums = record { name = "colour"; labels = "RED" ∷ [] } ∷ [];
  tables =
      record {
        name = "alembic_version";
        columns = column "version_num" uuid ∷ [];
        constraints = primary_key "alembic_version_pkc" "version_num" ∷ [];
      }
      ∷ [];
  indexes = index "ix_version" "alembic_version" "version_num" ∷ [];
}

free_names : All (IsApart foreign) upgrade_operations
free_names = ground arith

unused_names : All (IsApart foreign) downgrade_operations
unused_names = ground arith

downgrade-upgrade_example :
    (c' : Catalog) × (upgrade foreign ≡ some c') × (downgrade c' ≡ some foreign)
downgrade-upgrade_example = downgrade-upgrade foreign free_names unused_names

upgrade-Declares_example : (c' : Catalog) × (upgrade foreign ≡ some c') × Declares foreign c'
upgrade-Declares_example = upgrade-Declares foreign free_names
