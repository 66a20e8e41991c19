-- ===== src/Guard/Hallucinations/Grounded.antt =====
-- What it means for the names of a query to be grounded in a schema, without the sets of the code.
use nl2sql_agent.Common.{
  String, Bool, true, false, ◌&&◌, ◌||◌, ◌≡◌, ◌≤◌, refl, sym, ◌∙◌, ◌⊎◌, inl, inr, ◌↔◌, List, [],
  ◌∷◌, ◌++◌, ◌==◌, All, eq_iff, truthy, concat, codes, length, leb, all, map, Bool-cases,
}
use nl2sql_agent.Common.Strings.{lower, mem_text}
use nl2sql_agent.Common.Members.{mem-nothing, mem-cons, mem-append}
use nl2sql_agent.Retrieval.Schema.{TableInfo, Column, column_names}
use nl2sql_agent.Guard.Sqlglot.{Tree, TableRef, ColumnRef}
use nl2sql_agent.Guard.Hallucinations.{
  sql_keywords, schema_tables, schema_cols, qualified, qualified_cols, lowered, table_aliases,
}

-- Some element of a list satisfies a predicate.
abbrev pub Any : {A : Type 0} → (A → Type 0) → List A → Type 0
Any P [] = ⊥
Any P (x ∷ xs) = P x ⊎ Any P xs

pub or_iff :
    {P Q : Type 0} (a b : Bool) → (a ≡ true) ↔ P → (b ≡ true) ↔ Q → ((a || b) ≡ true) ↔ (P ⊎ Q)
or_iff true b f g = (λ _. inl (f.0 refl), λ _. refl)
or_iff false b f g =
    (λ h. inr (g.0 h), λ h. elim h [ inl p ↦ absurd (let e = f.1 p in cc) | inr q ↦ g.1 q ])

or_assoc : (a b c : Bool) → ((a || b) || c) ≡ (a || (b || c))
or_assoc true b c = refl
or_assoc false b c = refl

pub or3_iff :
    {P Q R : Type 0} (a b c : Bool)
    → (a ≡ true) ↔ P
    → (b ≡ true) ↔ Q
    → (c ≡ true) ↔ R
    → (((a || b) || c) ≡ true) ↔ (P ⊎ Q ⊎ R)
or3_iff a b c f g h = rw (or_assoc a b c) (or_iff a (b || c) f (or_iff b c g h))

pub or4_iff :
    {P Q R S : Type 0} (a b c d : Bool)
    → (a ≡ true) ↔ P
    → (b ≡ true) ↔ Q
    → (c ≡ true) ↔ R
    → (d ≡ true) ↔ S
    → ((((a || b) || c) || d) ≡ true) ↔ (P ⊎ Q ⊎ R ⊎ S)
or4_iff a b c d f g h i =
    rw (or_assoc (a || b) c d, or_assoc a b (c || d))
      (or_iff a (b || (c || d)) f (or_iff b (c || d) g (or_iff c d h i)))

-- A text is a table of the schema, in lower case.
abbrev pub IsTable : List TableInfo → String → Type 0
IsTable schema x = Any (λ (i : TableInfo). x ≡ lower i.key) schema

-- A text is a column of some table.
abbrev pub IsColumn : List TableInfo → String → Type 0
IsColumn schema x = Any (λ (i : TableInfo). Any (λ (c : Column). x ≡ lower c.name) i.columns) schema

-- A text is a table and a column of it, with a dot between them.
abbrev pub IsQualified : List TableInfo → String → Type 0
IsQualified schema x =
    Any
      (λ (i : TableInfo).
        Any (λ (c : Column). x ≡ concat (lower i.key ∷ "." ∷ lower c.name ∷ [])) i.columns)
      schema

-- A text is one of some names that are not empty, in lower case.
abbrev pub IsName : List String → String → Type 0
IsName names x = Any (λ (a : String). (truthy a ≡ true) × (x ≡ lower a)) names

abbrev pub IsAlias : List TableRef → String → Type 0
IsAlias tables x = Any (λ (t : TableRef). (truthy t.alias ≡ true) × (x ≡ lower t.alias)) tables

abbrev pub IsDigits : String → Type 0
IsDigits x = (truthy x && all (λ c. leb 48 c && leb c 57) (codes x)) ≡ true

-- The names of a query are those of the schema, or the query itself introduces them: each table
-- reference that is not a CTE is a table; the qualifier of each qualified column is a CTE or an
-- alias, or the column is one of the table that it names; and each bare column is a keyword, digits,
-- at most one character, "*", a column of some table, a CTE, an alias or a name that is selected.
pub record IsGrounded (schema : List TableInfo) (tree : Tree) : Type 0 where
  pub tables :
      All
        (λ (t : TableRef).
          truthy (lower t.name) ≡ true
          → IsName tree.cte_aliases (lower t.name) ⊎ IsTable schema (lower t.name))
        tree.tables
  pub qualified_columns :
      All
        (λ (c : ColumnRef).
          truthy c.table ≡ true
          → IsName tree.cte_aliases (lower c.table)
            ⊎ IsAlias tree.tables (lower c.table)
            ⊎ IsQualified schema (concat (lower c.table ∷ "." ∷ lower c.name ∷ [])))
        tree.columns
  pub bare_columns :
      All
        (λ (c : ColumnRef).
          truthy c.table ≡ false
          → ((mem_text (lower c.name) sql_keywords ≡ true)
              ⊎ IsDigits (lower c.name)
              ⊎ (length (codes (lower c.name)) ≤ 1))
            ⊎ (IsColumn schema (lower c.name)
                ⊎ IsName tree.cte_aliases (lower c.name)
                ⊎ IsAlias tree.tables (lower c.name))
            ⊎ (lower c.name ≡ "*")
            ⊎ IsName tree.select_aliases (lower c.name))
        tree.columns

mem-cons_iff :
    {P Q : Type 0} (x y : String) (ys : List String)
    → (x ≡ y) ↔ P
    → (mem_text x ys ≡ true) ↔ Q
    → (mem_text x (y ∷ ys) ≡ true) ↔ (P ⊎ Q)
mem-cons_iff x y ys f g =
    let same = eq_iff x y in
    let both = or_iff (x == y) (mem_text x ys) (λ h. f.0 (same.0 h), λ p. same.1 (f.1 p)) g in
    (λ h. both.0 (sym (mem-cons x y ys) ∙ h), λ h. mem-cons x y ys ∙ both.1 h)

mem-nil_iff : (x : String) → (mem_text x [] ≡ true) ↔ ⊥
mem-nil_iff x = (λ h. let e = mem-nothing x in cc, λ h. absurd h)

mem-map_iff :
    (f : String → String) (x : String) (cs : List Column)
    → (mem_text x (map f (column_names cs)) ≡ true) ↔ Any (λ (c : Column). x ≡ f c.name) cs
mem-map_iff f x [] = mem-nil_iff x
mem-map_iff f x (c ∷ cs) =
    mem-cons_iff x (f c.name) (map f (column_names cs)) (λ h. h, λ h. h) (mem-map_iff f x cs)

mem-append_iff :
    {P Q : Type 0} (x : String) (xs ys : List String)
    → (mem_text x xs ≡ true) ↔ P
    → (mem_text x ys ≡ true) ↔ Q
    → (mem_text x (xs ++ ys) ≡ true) ↔ (P ⊎ Q)
mem-append_iff x xs ys f g =
    let both = or_iff (mem_text x xs) (mem_text x ys) f g in
    (λ h. both.0 (sym (mem-append x xs ys) ∙ h), λ h. mem-append x xs ys ∙ both.1 h)

pub schema_tables_iff :
    (x : String) (schema : List TableInfo)
    → (mem_text x (schema_tables schema) ≡ true) ↔ IsTable schema x
unfolding schema_tables
schema_tables_iff x [] = mem-nil_iff x
schema_tables_iff x (i ∷ is) =
    mem-cons_iff x (lower i.key) (schema_tables is) (λ h. h, λ h. h) (schema_tables_iff x is)

pub schema_cols_iff :
    (x : String) (schema : List TableInfo)
    → (mem_text x (schema_cols schema) ≡ true) ↔ IsColumn schema x
unfolding schema_cols
schema_cols_iff x [] = mem-nil_iff x
schema_cols_iff x (i ∷ is) =
    mem-append_iff x (map lower (column_names i.columns)) (schema_cols is)
      (mem-map_iff lower x i.columns) (schema_cols_iff x is)

pub qualified_cols_iff :
    (x : String) (schema : List TableInfo)
    → (mem_text x (qualified_cols schema) ≡ true) ↔ IsQualified schema x
unfolding qualified_cols
qualified_cols_iff x [] = mem-nil_iff x
qualified_cols_iff x (i ∷ is) =
    mem-append_iff x (map (qualified i.key) (column_names i.columns)) (qualified_cols is)
      (mem-map_iff (qualified i.key) x i.columns) (qualified_cols_iff x is)

pub lowered_iff :
    (x : String) (names : List String) → (mem_text x (lowered names) ≡ true) ↔ IsName names x
unfolding lowered
lowered_iff x [] = mem-nil_iff x
lowered_iff x (a ∷ rest) = elim (Bool-cases (truthy a)) [
  | inl filled ↦
      rw filled
        (mem-cons_iff x (lower a) (lowered rest) (λ h. (refl, h), λ h. h.1) (lowered_iff x rest))
  | inr blank ↦ rw blank (
    λ h. inr ((lowered_iff x rest).0 h),
    λ h. elim h [
      | inl here ↦ absurd (let e = here.0 in cc)
      | inr there ↦ (lowered_iff x rest).1 there
    ],
  )
]

pub table_aliases_iff :
    (x : String) (tables : List TableRef)
    → (mem_text x (table_aliases tables) ≡ true) ↔ IsAlias tables x
unfolding table_aliases
table_aliases_iff x [] = mem-nil_iff x
table_aliases_iff x (t ∷ ts) = elim (Bool-cases (truthy t.alias)) [
  | inl filled ↦ rw filled (
      mem-cons_iff x (lower t.alias) (table_aliases ts) (λ h. (refl, h), λ h. h.1)
        (table_aliases_iff x ts))
  | inr blank ↦ rw blank (
    λ h. inr ((table_aliases_iff x ts).0 h),
    λ h. elim h [
      | inl here ↦ absurd (let e = here.0 in cc)
      | inr there ↦ (table_aliases_iff x ts).1 there
    ],
  )
]
