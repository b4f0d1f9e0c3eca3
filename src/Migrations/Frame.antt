-- ===== src/Migrations/Frame.antt =====
-- The statements of a migration do not see what they do not name.
use ticketflow.Base.{
  String, ◌≡◌, refl, ap, ◌∙◌, Bool, true, false, not, ◌&&◌, ◌||◌, List, [], ◌∷◌, ◌++◌, any, all,
  inl, inr, filter, filter-append, All, ◌==◌, string_eq, arith, Bool-cases, Option-cases,
  Option_map,
}
use ticketflow.Migrations.Objects.{
  EnumType, ColumnType, enum_type, uuid, text, boolean, integer, jsonb, timestamp_with_time_zone,
  varchar, Column, Constraint, primary_key, foreign_key, check, Table, Index, Catalog, Operation,
  create_enum, drop_enum, create_table, drop_table, create_index, execute, run, enum_exists,
  table_exists, relation_exists, type_exists, names_index, free_index, is_referred_to, is_used,
  refers_to, has_enum_type, known_table, known_type,
}

-- Two catalogs side by side.
infixl 60 ◌⊕◌
abbrev pub ◌⊕◌ : Catalog → Catalog → Catalog
d ⊕ c = record {
  enums = d.enums ++ c.enums;
  tables = d.tables ++ c.tables;
  indexes = d.indexes ++ c.indexes;
}

abbrev ApartConstraint : Catalog → Constraint → Type 0
ApartConstraint c (foreign_key _ _ table _ _) = table_exists table c ≡ false
ApartConstraint c (primary_key name _) = relation_exists name c ≡ false
ApartConstraint c (check _ _) = Unit

abbrev ApartType : Catalog → ColumnType → Type 0
ApartType c (enum_type name) = enum_exists name c ≡ false
ApartType c uuid = Unit
ApartType c text = Unit
ApartType c boolean = Unit
ApartType c integer = Unit
ApartType c jsonb = Unit
ApartType c timestamp_with_time_zone = Unit
ApartType c (varchar _) = Unit

-- The catalog has nothing of the names that the statement mentions, and nothing that depends on them.
abbrev pub IsApart : Catalog → Operation → Type 0
IsApart c (create_enum e) = type_exists e.name c ≡ false
IsApart c (drop_enum name) =
    (enum_exists name c ≡ false) × (is_used name c ≡ false) × (table_exists name c ≡ false)
IsApart c (create_table t) =
    (relation_exists t.name c ≡ false)
    × (type_exists t.name c ≡ false)
    × All (ApartConstraint c) t.constraints
    × All (λ col. ApartType c col.type) t.columns
IsApart c (drop_table name) =
    (table_exists name c ≡ false)
    × (is_referred_to name c ≡ false)
    × (any (λ i. i.table == name) c.indexes ≡ false)
IsApart c (create_index i) = (table_exists i.table c ≡ false) × (relation_exists i.name c ≡ false)

any-append : {A : Type 0} (p : A → Bool) (xs ys : List A) → any p (xs ++ ys) ≡ any p xs || any p ys
any-append p [] ys = refl
any-append p (x ∷ xs) ys = ground (arith, any-append p xs ys)

or_false : (b : Bool) → b || false ≡ b
or_false true = refl
or_false false = refl

any_front :
    {A : Type 0} (p : A → Bool) (xs ys : List A) → any p ys ≡ false → any p (xs ++ ys) ≡ any p xs
any_front p xs ys h = any-append p xs ys ∙ ap (λ b. any p xs || b) h ∙ or_false (any p xs)

filter_none :
    {A : Type 0} (p : A → Bool) (xs : List A) → any p xs ≡ false → filter (λ x. not (p x)) xs ≡ xs
filter_none p [] h = refl
filter_none p (x ∷ xs) h = elim (Bool-cases (p x)) [
  | inl e ↦ let c : true ≡ false = rw e at h in cc
  | inr e ↦ rw (e, filter_none p xs (rw e at h)) refl
]

filter_front :
    {A : Type 0} (p : A → Bool) (xs ys : List A)
    → any p ys ≡ false
    → filter (λ x. not (p x)) (xs ++ ys) ≡ filter (λ x. not (p x)) xs ++ ys
filter_front p xs ys h =
    filter-append (λ x. not (p x)) xs ys
    ∙ ap (λ zs. filter (λ x. not (p x)) xs ++ zs) (filter_none p ys h)

or-false : (a b : Bool) → a || b ≡ false → (a ≡ false) × (b ≡ false)
or-false true b h = cc
or-false false b h = (refl, h)

module _ (d c : Catalog) where
  relation-frame :
      (name : String)
      → relation_exists name c ≡ false
      → relation_exists name (d ⊕ c) ≡ relation_exists name d
  relation-frame name h =
      let owns : Table → Bool = λ t. t.name == name || any (names_index name) t.constraints in
      let bears : Index → Bool = λ i. i.name == name in
      let (ts, is) = or-false (any owns c.tables) (any bears c.indexes) h in
      rw (any_front owns d.tables c.tables ts, any_front bears d.indexes c.indexes is) refl

  type-frame :
      (name : String) → type_exists name c ≡ false → type_exists name (d ⊕ c) ≡ type_exists name d
  type-frame name h =
      let labelled : EnumType → Bool = λ e. e.name == name in
      let bears : Table → Bool = λ t. t.name == name in
      let (es, ts) = or-false (any labelled c.enums) (any bears c.tables) h in
      rw (any_front labelled d.enums c.enums es, any_front bears d.tables c.tables ts) refl

  free_indexes-frame :
      (table : String) (ks : List Constraint)
      → All (ApartConstraint c) ks
      → all (free_index table (d ⊕ c)) ks ≡ all (free_index table d) ks
  free_indexes-frame table [] h = refl
  free_indexes-frame table (k ∷ ks) h = rw (one k h.0, free_indexes-frame table ks h.1) refl
    where
      one :
          (k : Constraint) → ApartConstraint c k → free_index table (d ⊕ c) k ≡ free_index table d k
      one (primary_key name _) a = rw (relation-frame name a) refl
      one (foreign_key _ _ _ _ _) a = refl
      one (check _ _) a = refl

  known_tables-frame :
      (ks : List Constraint)
      → All (ApartConstraint c) ks
      → all (known_table (d ⊕ c)) ks ≡ all (known_table d) ks
  known_tables-frame [] h = refl
  known_tables-frame (k ∷ ks) h = rw (one k h.0, known_tables-frame ks h.1) refl
    where
      one : (k : Constraint) → ApartConstraint c k → known_table (d ⊕ c) k ≡ known_table d k
      one (foreign_key _ _ table _ _) a = any_front (λ t. t.name == table) d.tables c.tables a
      one (primary_key _ _) a = refl
      one (check _ _) a = refl

  known_types-frame :
      (cols : List Column)
      → All (λ col. ApartType c col.type) cols
      → all (λ col. known_type (d ⊕ c) col.type) cols ≡ all (λ col. known_type d col.type) cols
  known_types-frame [] h = refl
  known_types-frame (col ∷ cols) h = rw (one col.type h.0, known_types-frame cols h.1) refl
    where
      one : (type : ColumnType) → ApartType c type → known_type (d ⊕ c) type ≡ known_type d type
      one (enum_type name) a = any_front (λ e. e.name == name) d.enums c.enums a
      one uuid a = refl
      one text a = refl
      one boolean a = refl
      one integer a = refl
      one jsonb a = refl
      one timestamp_with_time_zone a = refl
      one (varchar _) a = refl

  -- A statement does to two catalogs side by side what it does to the one that it is about.
  execute-frame :
      (o : Operation) → IsApart c o → execute o (d ⊕ c) ≡ Option_map (λ d'. d' ⊕ c) (execute o d)
  unfolding execute
  execute-frame (create_enum e) a =
      rw (type-frame e.name a)
        (elim (Bool-cases (type_exists e.name d)) [ inl h ↦ rw h refl | inr h ↦ rw h refl ])
  execute-frame (drop_enum name) (a, b, k) =
      rw
        (
          any_front (λ t. any (λ (col : Column). has_enum_type name col.type) t.columns) d.tables
              c.tables b,
          any_front (λ (x : Table). x.name == name) d.tables c.tables k,
          filter_front (λ (x : EnumType). x.name == name) d.enums c.enums a,
        )
        (elim (Bool-cases (is_used name d || table_exists name d)) [
          | inl h ↦ rw h refl
          | inr h ↦ rw h refl
        ])
  execute-frame (create_table t) (a, ty, b, k) =
      rw
        (
          relation-frame t.name a,
          type-frame t.name ty,
          free_indexes-frame t.name t.constraints b,
          known_tables-frame t.constraints b,
          known_types-frame t.columns k,
        )
        (elim (Bool-cases (
          not (relation_exists t.name d)
          && not (type_exists t.name d)
          && all (free_index t.name d) t.constraints
          && (all (known_table d) t.constraints && all (λ col. known_type d col.type) t.columns))) [
            | inl h ↦ rw h refl
            | inr h ↦ rw h refl
          ])
  execute-frame (drop_table name) (a, b, k) =
      rw
        (
          any_front (λ (x : Table). x.name == name) d.tables c.tables a,
          any_front (λ (x : Table). not (x.name == name) && any (refers_to name) x.constraints)
              d.tables c.tables b,
          filter_front (λ (x : Table). x.name == name) d.tables c.tables a,
          filter_front (λ (i : Index). i.table == name) d.indexes c.indexes k,
        )
        (elim (Bool-cases (table_exists name d && not (is_referred_to name d))) [
          | inl h ↦ rw h refl
          | inr h ↦ rw h refl
        ])
  execute-frame (create_index i) (a, b) =
      rw (any_front (λ (x : Table). x.name == i.table) d.tables c.tables a, relation-frame i.name b)
        (elim (Bool-cases (table_exists i.table d && not (relation_exists i.name d))) [
          | inl h ↦ rw h refl
          | inr h ↦ rw h refl
        ])

pub run-frame :
    (os : List Operation) (d c : Catalog)
    → All (IsApart c) os
    → run os (d ⊕ c) ≡ Option_map (λ d'. d' ⊕ c) (run os d)
unfolding run
run-frame [] d c h = refl
run-frame (o ∷ os) d c h = elim (Option-cases (execute o d)) [
  | inl e ↦ rw (execute-frame d c o h.0, run, e) refl
  | inr (d', e) ↦ rw (execute-frame d c o h.0, run, e) (run-frame os d' c h.1)
]
