-- ===== src/Retrieval/ColumnPrune/Ddl.antt =====
-- The DDL of the pruned tables: every column that the pruning names is a column of its table.
use mathlib.Core.Path.{subst}
use Prim.Native.String.{compare}
use Prim.Native.Nat.{Ordering}
use nl2sql_agent.Common.{
  ℕ, zero, suc, ◌-◌, ◌≡◌, refl, sym, ap, String, true, some, List, [], ◌∷◌, ◌++◌, ◌==◌, arith, All,
  All-append, length, take, map, leb, Bool-cases, Option-cases, inl, inr, eq_iff, if_cases,
  if◌then◌else◌, eq_refl, concat, join,
}
use nl2sql_agent.Common.Strings.{lower, mem_text}
use nl2sql_agent.Common.Sets.{add, sorted, insert_sorted}
use nl2sql_agent.Common.Members.{mem-nothing, mem-cons}
use nl2sql_agent.Common.Result.{ok}
use nl2sql_agent.Agent.Dialect.{get_dialect_from_url}
use nl2sql_agent.Retrieval.Schema.{TableInfo, Column, column_names, column_line}
use nl2sql_agent.Retrieval.ColumnPrune.{
  Scored, names_of, insert_scored, sort_scored, scored_columns, mandatory, add_all, top_columns,
  find_table, prune_table, prune_columns, tokenize, lookup_or, find_column, kept_lines, kept_keys,
  compact_table, compact_tables, build_compact_ddl,
}

-- A column of a list of columns.
abbrev pub IsColumn : List Column → String → Type 0
IsColumn cols name = mem_text name (column_names cols) ≡ true

-- The keys of a table are columns of it.
abbrev pub HasKeys : TableInfo → Type 0
HasKeys i = All (IsColumn i.columns) i.pk_cols × All (IsColumn i.columns) i.fk_cols

module _ (P : String → Type 0) where
  add-All : (x : String) (xs : List String) → P x → All P xs → All P (add x xs)
  add-All x xs h all =
      if_cases (All P) (mem_text x xs) _ _ (λ _. all) (λ _. All-append P xs _ all (h, tt))

  add_all-All : (xs set : List String) → All P xs → All P set → All P (add_all xs set)
  unfolding add_all
  add_all-All [] set h all = all
  add_all-All (x ∷ xs) set h all = add_all-All xs (add x set) h.1 (add-All x set h.0 all)

  insert_sorted-All : (x : String) (ys : List String) → P x → All P ys → All P (insert_sorted x ys)
  unfolding insert_sorted
  insert_sorted-All x [] h all = (h, tt)
  insert_sorted-All x (y ∷ ys) h all =
      elim (compare x y)
        as (λ o. All P (elim o [ Ordering.gt ↦ y ∷ insert_sorted x ys | _ ↦ x ∷ y ∷ ys ])) [
          | Ordering.lt ↦ (h, all)
          | Ordering.eq ↦ (h, all)
          | Ordering.gt ↦ (all.0, insert_sorted-All x ys h all.1)
        ]

  sorted-All : (xs : List String) → All P xs → All P (sorted xs)
  unfolding sorted
  sorted-All [] all = tt
  sorted-All (x ∷ xs) all = insert_sorted-All x (sorted xs) all.0 (sorted-All xs all.1)

  insert_scored-All :
      (x : Scored) (ys : List Scored)
      → P x.name
      → All P (names_of ys)
      → All P (names_of (insert_scored x ys))
  unfolding insert_scored
  insert_scored-All x [] h all = (h, tt)
  insert_scored-All x (y ∷ ys) h all =
      if_cases (λ zs. All P (names_of zs)) (leb y.score x.score) _ _ (λ _. (h, all))
        (λ _. (all.0, insert_scored-All x ys h all.1))

  sort_scored-All : (ys : List Scored) → All P (names_of ys) → All P (names_of (sort_scored ys))
  unfolding sort_scored
  sort_scored-All [] all = tt
  sort_scored-All (y ∷ ys) all =
      insert_scored-All y (sort_scored ys) all.0 (sort_scored-All ys all.1)

  take-All : (n : ℕ) (ys : List Scored) → All P (names_of ys) → All P (names_of (take n ys))
  take-All zero ys all = tt
  take-All (suc n) [] all = tt
  take-All (suc n) (y ∷ ys) all = (all.0, take-All n ys all.1)

  scored-All :
      (t : String) (tokens keys : List String) (cols : List Column)
      → All P (column_names cols)
      → All P (names_of (scored_columns t tokens keys cols))
  unfolding scored_columns
  scored-All t tokens keys [] all = tt
  scored-All t tokens keys (c ∷ cs) all =
      if_cases (λ zs. All P (names_of zs)) (mem_text c.name keys) _ _
        (λ _. scored-All t tokens keys cs all.1) (λ _. (all.0, scored-All t tokens keys cs all.1))

All-wider :
    (x : String) (xs ys : List String)
    → All (λ n. mem_text n xs ≡ true) ys
    → All (λ n. mem_text n (x ∷ xs) ≡ true) ys
All-wider x xs [] all = tt
All-wider x xs (y ∷ ys) all =
    (rw (mem-cons y x xs) (rw all.0 (ground arith)), All-wider x xs ys all.1)

All-self : (xs : List String) → All (λ n. mem_text n xs ≡ true) xs
All-self [] = tt
All-self (x ∷ xs) = (rw (mem-cons x x xs) (rw (eq_refl x) refl), All-wider x xs xs (All-self xs))

top_columns-All :
    (t : String) (tokens : List String) (max_cols : ℕ) (i : TableInfo)
    → HasKeys i
    → All (IsColumn i.columns) (top_columns t tokens max_cols i)
unfolding top_columns mandatory
top_columns-All t tokens max_cols i h =
    let P = IsColumn i.columns in
    let keys =
      add_all-All P i.fk_cols (add_all i.pk_cols []) h.1 (add_all-All P i.pk_cols [] h.0 tt) in
    All-append P (sorted (mandatory i)) _ (sorted-All P (mandatory i) keys) (
      take-All P (max_cols - length (mandatory i))
        (sort_scored (scored_columns t tokens (mandatory i) i.columns))
        (sort_scored-All P (scored_columns t tokens (mandatory i) i.columns)
          (scored-All P t tokens (mandatory i) i.columns (All-self (column_names i.columns)))))

prune_table-All :
    (schema : List TableInfo) (tokens : List String) (max_cols threshold : ℕ) (t : String)
    (i : TableInfo)
    → find_table schema (lower t) ≡ some i
    → HasKeys i
    → All (IsColumn i.columns) (prune_table schema tokens max_cols threshold t)
unfolding prune_table
prune_table-All schema tokens max_cols threshold t i found h =
    let P = IsColumn i.columns in
    let small = leb (length i.columns) threshold in
    let top = top_columns t tokens max_cols i in
    let step : prune_table schema tokens max_cols threshold t
        ≡ (if small then column_names i.columns else top) =
      rw (found, prune_table) refl in
    subst (All P) (sym step) (
      if_cases (All P) small _ _ (λ _. All-self (column_names i.columns))
        (λ _. top_columns-All t tokens max_cols i h))

find_column-some :
    (name : String) (cols : List Column)
    → IsColumn cols name
    → (c : Column) × (find_column name cols ≡ some c)
unfolding find_column
find_column-some name [] h = absurd (cc (h, mem-nothing name))
find_column-some name (c ∷ cs) h = elim (Option-cases (find_column name cs)) [
  | inr (d, later) ↦ (d, rw later refl)
  | inl no_later ↦ elim (Bool-cases (name == c.name)) [
    | inl here ↦ (c, rw (no_later, here) refl)
    | inr other ↦
        let later = rw (mem-cons name c.name (column_names cs), other) at h in
        let (d, found) = find_column-some name cs later in absurd (cc)
  ]
]

kept_lines-ok :
    (i : TableInfo) (names : List String)
    → All (IsColumn i.columns) names
    → (lines : List String) × (kept_lines i names ≡ ok lines)
unfolding kept_lines
kept_lines-ok i [] all = ([], refl)
kept_lines-ok i (n ∷ names) all =
    let (c, found) = find_column-some n i.columns all.0 in
    let (lines, rest) = kept_lines-ok i names all.1 in
    (column_line i.pk_cols c ∷ lines, rw (found, rest, kept_lines) refl)

find_table-HasKeys :
    (schema : List TableInfo) (key : String) (i : TableInfo)
    → All HasKeys schema
    → find_table schema key ≡ some i
    → HasKeys i
unfolding find_table
find_table-HasKeys [] key i all found = absurd (cc)
find_table-HasKeys (j ∷ schema) key i all found = elim (Bool-cases (key == j.key)) [
  | inl here ↦
      let e : some j ≡ some i = rw here at found in
      let same : j ≡ i = cc in subst HasKeys same all.0
  | inr other ↦ find_table-HasKeys schema key i all.1 (rw other at found)
]

lookup_or-mapped :
    (d : List String) (f : String → List String) (t : String) (names : List String)
    → mem_text t names ≡ true
    → lookup_or d t (map (λ (n : String). (n, f n)) names) ≡ f t
lookup_or-mapped d f t [] h = absurd (cc (h, mem-nothing t))
lookup_or-mapped d f t (n ∷ names) h = elim (Bool-cases (n == t)) [
  | inl here ↦ rw here (ap f ((eq_iff n t).0 here))
  | inr other ↦
      rw other (
        lookup_or-mapped d f t names
          (ground (arith, mem-cons t n names, h, eq_iff n t, eq_iff t n)))
]

module _ (schema : List TableInfo) (keyed : All HasKeys schema) (question : String)
    (names : List String) (max_cols threshold : ℕ) where
  abbrev pub pruned : List (String × List String)
  pruned = prune_columns schema question names max_cols threshold

  compact_table-ok :
      (t : String)
      → mem_text t names ≡ true
      → (lines : List String) × (compact_table schema pruned t ≡ ok lines)
  unfolding compact_table prune_columns
  compact_table-ok t known = elim (Option-cases (find_table schema (lower t))) [
    | inl absent ↦ ([], rw (absent, compact_table) refl)
    | inr (i, found) ↦
        let entry = prune_table schema (tokenize question) max_cols threshold t in
        let kept =
          lookup_or-mapped (column_names i.columns)
            (λ n. prune_table schema (tokenize question) max_cols threshold n) t names known in
        let all =
          prune_table-All schema (tokenize question) max_cols threshold t i found
            (find_table-HasKeys schema (lower t) i keyed found) in
        let (lines, done) = kept_lines-ok i entry all in
        (
          concat ("CREATE TABLE " ∷ t ∷ " (" ∷ [])
              ∷ join ",\n" (lines ++ kept_keys entry i.fks)
              ∷ ");"
              ∷ [],
          rw (found, kept, done, compact_table) refl,
        )
  ]

  compact_tables-ok :
      (ts : List String)
      → All (λ t. mem_text t names ≡ true) ts
      → (lines : List String) × (compact_tables schema pruned ts ≡ ok lines)
  unfolding compact_tables
  compact_tables-ok [] all = ([], refl)
  compact_tables-ok (t ∷ ts) all =
      let (first, one) = compact_table-ok t all.0 in
      let (more, rest) = compact_tables-ok ts all.1 in (first ++ more, rw (one, rest) refl)

  -- Where the keys of every table are columns of it, the DDL of pruned tables is built without a
  -- KeyError, whatever the question, the tables and the bounds.
  pub build_compact_ddl-ok :
      (url : String) → (ddl : String) × (build_compact_ddl schema url names pruned ≡ ok ddl)
  unfolding build_compact_ddl
  build_compact_ddl-ok url =
      let (lines, done) = compact_tables-ok names (All-self names) in
      (
        join "\n" (concat ("-- SQL Dialect: " ∷ get_dialect_from_url url ∷ []) ∷ lines),
        rw done refl,
      )
