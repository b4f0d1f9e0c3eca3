-- ===== src/Migrations/RoundTrip.antt =====
-- The initial migration up and down, and against the declared tables.
use Prim.Native.Nat.{◌+◌}
use mathlib.Core.List.{Perm}
use mathlib.Core.List.Perm
use ticketflow.Base.{
  ◌≡◌, refl, ap, ◌∙◌, Option, none, some, List, [], ◌∷◌, ◌++◌, All, find, length, length-append,
  ◌==◌, string_eq, Option_map,
}
use ticketflow.Models.{status_value}
use ticketflow.Migrations.Objects.{EnumType, Table, Index, Catalog, run, execute}
use ticketflow.Migrations.Initial.{upgrade, downgrade, upgrade_operations, downgrade_operations}
use ticketflow.Migrations.Metadata.{
  declared_enums, user_table, ticket_table, comment_table, registration_table, delivery_log_table,
  user_indexes, ticket_indexes, comment_indexes, registration_indexes, delivery_log_indexes,
}
use ticketflow.Migrations.Frame.{◌⊕◌, IsApart, run-frame}

abbrev empty : Catalog
empty = record { enums = []; tables = []; indexes = [] }

abbrev some_or_empty : Option Catalog → Catalog
some_or_empty none = empty
some_or_empty (some c) = c

-- What the migration makes of an empty database.
full : Catalog
full = some_or_empty (upgrade empty)

upgrade-empty : upgrade empty ≡ some full
unfolding full upgrade run execute
upgrade-empty = refl

downgrade-full : downgrade full ≡ some empty
unfolding full upgrade downgrade run execute
downgrade-full = refl

module _ (c : Catalog) (apart : All (IsApart c) upgrade_operations) where
  upgraded : upgrade c ≡ some (full ⊕ c)
  unfolding upgrade
  upgraded = run-frame upgrade_operations empty c apart ∙ ap (Option_map (λ d. d ⊕ c)) upgrade-empty

  -- In a database that has nothing of the names that the migration mentions, and nothing that depends on
  -- them, the upgrade succeeds, every table before what refers to it, and the downgrade that follows
  -- succeeds too, in an order that never drops what is still in use, and restores the database as it was.
  pub downgrade-upgrade :
      All (IsApart c) downgrade_operations
      → (c' : Catalog) × (upgrade c ≡ some c') × (downgrade c' ≡ some c)
  unfolding downgrade
  downgrade-upgrade unused_names = (
    full ⊕ c,
    upgraded,
    run-frame downgrade_operations full c unused_names
        ∙ ap (Option_map (λ d. d ⊕ c)) downgrade-full,
  )

abbrev pub declared_tables : List Table
declared_tables =
    user_table ∷ ticket_table ∷ comment_table ∷ registration_table ∷ delivery_log_table ∷ []

abbrev pub declared_indexes : List Index
declared_indexes =
    user_indexes ++ ticket_indexes ++ comment_indexes ++ registration_indexes
    ++ delivery_log_indexes

-- The table is there with its columns in their order and its constraints.
abbrev pub HasTable : Catalog → Table → Type 0
HasTable c t =
    (found : Table) × (find (λ (x : Table). x.name == t.name) c.tables ≡ some found)
    × (found.columns ≡ t.columns)
    × Perm found.constraints t.constraints

-- What the models declare is there, and nothing else beside what was there before.
pub record Declares (before after : Catalog) : Type 0 where
  pub enums :
      All
        (λ (e : EnumType). find (λ (x : EnumType). x.name == e.name) after.enums ≡ some e)
        declared_enums
  pub tables : All (HasTable after) declared_tables
  pub indexes :
      All
        (λ (i : Index). find (λ (x : Index). x.name == i.name) after.indexes ≡ some i)
        declared_indexes
  pub no_more :
      (length after.enums ≡ length declared_enums + length before.enums)
      × (length after.tables ≡ length declared_tables + length before.tables)
      × (length after.indexes ≡ length declared_indexes + length before.indexes)

swapped : {A : Type 0} (x y : A) → Perm (x ∷ y ∷ []) (y ∷ x ∷ [])
swapped x y = Perm.swap y x []

reversed : {A : Type 0} (x y z : A) → Perm (x ∷ y ∷ z ∷ []) (z ∷ y ∷ x ∷ [])
reversed x y z =
    Perm.trans (Perm.swap y x (z ∷ []))
      (Perm.trans (Perm.cons y (Perm.swap z x [])) (Perm.swap z y (x ∷ [])))

module _ (c : Catalog) where
  tables_there : All (HasTable (full ⊕ c)) declared_tables
  unfolding full upgrade run execute ticket_table status_value
  tables_there = (
    (_, refl, refl, Perm.refl _),
    (
      (_, refl, refl, swapped _ _),
      (
        (_, refl, refl, reversed _ _ _),
        ((_, refl, refl, swapped _ _), ((_, refl, refl, Perm.cons _ (swapped _ _)), tt)),
      ),
    ),
  )

  all_there : Declares c (full ⊕ c)
  unfolding full upgrade run execute
  all_there = record {
    enums = (refl, (refl, (refl, (refl, (refl, tt)))));
    tables = tables_there;
    indexes = (
      refl,
      (
        refl,
        (
          refl,
          (
            refl,
            (
              refl,
              (refl, (refl, (refl, (refl, (refl, (refl, (refl, (refl, (refl, (refl, tt)))))))))),
            ),
          ),
        ),
      ),
    );
    no_more = (
      length-append full.enums c.enums,
      length-append full.tables c.tables,
      length-append full.indexes c.indexes,
    );
  }

-- In a database that has nothing of the names that the migration mentions, the upgrade makes exactly what
-- the models declare, under the names of the convention: their enumerations, labelled by the names of the
-- members, their tables with the same columns and constraints, and their indexes.
pub upgrade-Declares :
    (c : Catalog)
    → All (IsApart c) upgrade_operations
    → (c' : Catalog) × (upgrade c ≡ some c') × Declares c c'
upgrade-Declares c apart = (full ⊕ c, upgraded c apart, all_there c)
