-- ===== src/Guard/Hallucinations/Sound.antt =====
-- What it means that `check_hallucinations` accepts a query.
use nl2sql_agent.Common.{
  String, ◌≡◌, refl, sym, ◌↔◌, true, false, not, ◌&&◌, List, [], ◌∷◌, ◌++◌, arith, eq_iff, All,
  All-append, All-left, All-right, append-eq-nil, is_nil_iff, truthy, Bool-cases, inl, inr, ◌⊎◌,
  ◌≤◌, concat, codes, length, ℕ, leb,
}
use nl2sql_agent.Common.Strings.{lower, mem_text}
use nl2sql_agent.Common.Sets.{add}
use mathlib.Core.Path.{subst}
use nl2sql_agent.Common.Result.{Result, ok, raised, ok-injective}
use nl2sql_agent.Retrieval.Schema.{TableInfo}
use nl2sql_agent.Guard.Sqlglot.{Sqlglot, Tree, TableRef, ColumnRef}
use nl2sql_agent.Guard.Hallucinations.Grounded.{
  IsGrounded, IsTable, IsColumn, IsQualified, IsName, IsAlias, IsDigits, schema_tables_iff,
  schema_cols_iff, qualified_cols_iff, lowered_iff, table_aliases_iff, or3_iff, or4_iff,
}
use nl2sql_agent.Guard.Hallucinations.{
  sql_keywords, lowered, Names, distinct, table_issues, table_refs, qualified_known,
  qualified_issues, bare_known, bare_issues, names_of, tree_issues, parsed_result,
  check_hallucinations,
}

-- The tests of the code pass on every name of the tree.
record Passes (n : Names) (tree : Tree) : Type 0 where
  pub tables :
      All
        (λ (t : TableRef).
          truthy (lower t.name) && not (mem_text (lower t.name) n.ctes) ≡ true
          → mem_text (lower t.name) n.tables ≡ true)
        tree.tables
  pub qualified_columns :
      All (λ (c : ColumnRef). truthy c.table ≡ true → qualified_known n c ≡ true) tree.columns
  pub bare_columns :
      All
        (λ (c : ColumnRef). truthy c.table ≡ false → bare_known n (lower c.name) ≡ true)
        tree.columns

abbrev AllIn : List String → List String → Type 0
AllIn known xs = All (λ x. mem_text x known ≡ true) xs

table_issues-eq-nil : (known ts : List String) → (table_issues known ts ≡ []) ↔ AllIn known ts
unfolding table_issues
table_issues-eq-nil known [] = (λ _. tt, λ _. refl)
table_issues-eq-nil known (t ∷ ts) = ground (arith, table_issues-eq-nil known ts)

AllIn-mem :
    (known xs : List String) (x : String)
    → AllIn known xs
    → mem_text x xs ≡ true
    → mem_text x known ≡ true
unfolding mem_text
AllIn-mem known [] x h m = absurd (cc)
AllIn-mem known (y ∷ ys) x h m = ground (arith, AllIn-mem known ys x, eq_iff x y)

AllIn-add :
    (known seen : List String) (x : String)
    → (AllIn known seen × (mem_text x known ≡ true)) ↔ AllIn known (add x seen)
AllIn-add known seen x = elim (Bool-cases (mem_text x seen)) [
  | inl old ↦ rw old (λ h. h.0, λ h. (h, AllIn-mem known seen x h old))
  | inr new ↦ rw new (
    λ h. All-append _ seen (x ∷ []) h.0 (h.1, tt),
    λ h. (All-left _ seen (x ∷ []) h, (All-right _ seen (x ∷ []) h).0),
  )
]

distinct-AllIn :
    (known seen xs : List String)
    → AllIn known (distinct seen xs) ↔ (AllIn known seen × AllIn known xs)
unfolding distinct
distinct-AllIn known seen [] = (λ h. (h, tt), λ h. h.0)
distinct-AllIn known seen (x ∷ xs) =
    ground (arith, distinct-AllIn known (add x seen) xs, AllIn-add known seen x)

qualified_issues-eq-nil :
    (n : Names) (cs : List ColumnRef)
    → (qualified_issues n cs ≡ [])
      ↔ All (λ (c : ColumnRef). truthy c.table ≡ true → qualified_known n c ≡ true) cs
unfolding qualified_issues
qualified_issues-eq-nil n [] = (λ _. tt, λ _. refl)
qualified_issues-eq-nil n (c ∷ cs) = ground (arith, qualified_issues-eq-nil n cs)

bare_issues-eq-nil :
    (n : Names) (cs : List ColumnRef)
    → (bare_issues n cs ≡ [])
      ↔ All (λ (c : ColumnRef). truthy c.table ≡ false → bare_known n (lower c.name) ≡ true) cs
unfolding bare_issues
bare_issues-eq-nil n [] = (λ _. tt, λ _. refl)
bare_issues-eq-nil n (c ∷ cs) = ground (arith, bare_issues-eq-nil n cs)

table_refs-AllIn :
    (n : Names) (ts : List TableRef)
    → AllIn n.tables (table_refs n.ctes ts)
      ↔ All
          (λ (t : TableRef).
            truthy (lower t.name) && not (mem_text (lower t.name) n.ctes) ≡ true
            → mem_text (lower t.name) n.tables ≡ true)
          ts
unfolding table_refs
table_refs-AllIn n [] = (λ _. tt, λ _. tt)
table_refs-AllIn n (t ∷ ts) = ground (arith, table_refs-AllIn n ts)

tree_issues-eq-nil : (n : Names) (tree : Tree) → (tree_issues n tree ≡ []) ↔ Passes n tree
unfolding tree_issues
tree_issues-eq-nil n tree =
    let refs = table_refs n.ctes tree.tables in
    let bare = bare_issues n tree.columns in
    ground (
      arith,
      append-eq-nil (table_issues n.tables (distinct [] refs))
          (qualified_issues n tree.columns ++ bare),
      append-eq-nil (qualified_issues n tree.columns) bare,
      table_issues-eq-nil n.tables (distinct [] refs),
      distinct-AllIn n.tables [] refs,
      table_refs-AllIn n tree.tables,
      qualified_issues-eq-nil n tree.columns,
      bare_issues-eq-nil n tree.columns,
    )

All-each :
    {A : Type 0} {P Q : A → Type 0} (xs : List A) → ((x : A) → P x → Q x) → All P xs → All Q xs
All-each [] f h = tt
All-each (x ∷ xs) f h = (f x h.0, All-each xs f h.1)

short_iff : (n : ℕ) → (leb n 1 ≡ true) ↔ (n ≤ 1)
short_iff n = ground arith

module _ (schema : List TableInfo) (tree : Tree) where
  abbrev n : Names
  n = names_of schema tree

  IsTable-iff :
      (x : String)
      → (truthy x && not (mem_text x n.ctes) ≡ true → mem_text x n.tables ≡ true)
        ↔ (truthy x ≡ true → IsName tree.cte_aliases x ⊎ IsTable schema x)
  unfolding names_of
  IsTable-iff x =
      let cte = lowered_iff x tree.cte_aliases in
      let table = schema_tables_iff x schema in
      elim (Bool-cases (mem_text x (lowered tree.cte_aliases))) [
        | inl known ↦ rw known (λ _ _. inl (cte.0 known), λ _ h. absurd (ground (arith, h)))
        | inr other ↦ rw other (
          λ f filled. inr (table.0 (f (rw filled refl))),
          λ f h. elim (f (ground (arith, h))) [
            | inl is_cte ↦ absurd (let e = cte.1 is_cte in cc)
            | inr is_table ↦ table.1 is_table
          ],
        )
      ]

  IsQualified-iff :
      (c : ColumnRef)
      → (qualified_known n c ≡ true) ↔ (
          IsName tree.cte_aliases (lower c.table)
          ⊎ IsAlias tree.tables (lower c.table)
          ⊎ IsQualified schema (concat (lower c.table ∷ "." ∷ lower c.name ∷ [])))
  unfolding names_of qualified_known
  IsQualified-iff c =
      or3_iff _ _ _ (lowered_iff (lower c.table) tree.cte_aliases)
        (table_aliases_iff (lower c.table) tree.tables)
        (qualified_cols_iff (concat (lower c.table ∷ "." ∷ lower c.name ∷ [])) schema)

  bare_iff :
      (x : String)
      → (bare_known n x ≡ true) ↔ (
          ((mem_text x sql_keywords ≡ true) ⊎ IsDigits x ⊎ (length (codes x) ≤ 1))
          ⊎ (IsColumn schema x ⊎ IsName tree.cte_aliases x ⊎ IsAlias tree.tables x)
          ⊎ (x ≡ "*")
          ⊎ IsName tree.select_aliases x)
  unfolding names_of bare_known
  bare_iff x =
      or4_iff _ _ _ _
        (or3_iff _ _ _ (λ h. h, λ h. h) (λ h. h, λ h. h) (short_iff (length (codes x))))
        (or3_iff _ _ _ (schema_cols_iff x schema) (lowered_iff x tree.cte_aliases)
          (table_aliases_iff x tree.tables))
        (eq_iff x "*") (lowered_iff x tree.select_aliases)

  Passes-IsGrounded : Passes n tree ↔ IsGrounded schema tree
  Passes-IsGrounded = (
    λ p. record {
      tables = All-each tree.tables (λ t. (IsTable-iff (lower t.name)).0) p.tables;
      qualified_columns =
          All-each tree.columns (λ c f filled. (IsQualified-iff c).0 (f filled))
            p.qualified_columns;
      bare_columns =
          All-each tree.columns (λ c f blank. (bare_iff (lower c.name)).0 (f blank)) p.bare_columns;
    },
    λ g. record {
      tables = All-each tree.tables (λ t. (IsTable-iff (lower t.name)).1) g.tables;
      qualified_columns =
          All-each tree.columns (λ c f filled. (IsQualified-iff c).1 (f filled))
            g.qualified_columns;
      bare_columns =
          All-each tree.columns (λ c f blank. (bare_iff (lower c.name)).1 (f blank)) g.bare_columns;
    },
  )

parsed_result-valid :
    (schema : List TableInfo) (r : Result Tree)
    → ((parsed_result schema r).valid ≡ true)
      ↔ ((tree : Tree) × (r ≡ ok tree) × IsGrounded schema tree)
unfolding parsed_result
parsed_result-valid schema (raised e) = (λ h. absurd (cc), λ h. absurd (cc (h.1)))
parsed_result-valid schema (ok tree) =
    let issues = tree_issues (names_of schema tree) tree in
    let passes = tree_issues-eq-nil (names_of schema tree) tree in
    let grounded = Passes-IsGrounded schema tree in
    (
      λ h. (tree, refl, grounded.0 (passes.0 ((is_nil_iff issues).0 h))),
      λ (tree', same, g).
          (is_nil_iff issues).1
            (passes.1 (grounded.1 (subst (λ t. IsGrounded schema t) (sym (ok-injective same)) g))),
    )

-- `check_hallucinations` accepts a query exactly when the parser reads it and in its tree every
-- table that is no CTE is a table of the schema, every qualified column has a CTE or an alias for
-- its qualifier or is a column of the table that it names, and every bare column is a keyword,
-- digits, at most one character, "*", a column of some table of the schema, a CTE, an alias or a name
-- that the query selects, all up to case.
pub valid_iff_IsGrounded :
    (sqlglot : Sqlglot) (sql : String) (schema : List TableInfo)
    → ((check_hallucinations sqlglot sql schema).valid ≡ true)
      ↔ ((tree : Tree) × (sqlglot.parse_one sql "" ≡ ok tree) × IsGrounded schema tree)
unfolding check_hallucinations
valid_iff_IsGrounded sqlglot sql schema = parsed_result-valid schema (sqlglot.parse_one sql "")
