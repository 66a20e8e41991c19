-- ===== src/Retrieval/FkExpand/Joins.antt =====
-- Which tables `expand_tables` adds.
use nl2sql_agent.Common.{
  String, ◌≡◌, refl, ◌∙◌, Bool, ◌&&◌, ◌||◌, List, [], ◌∷◌, ◌==◌, any, arith, Bool-cases, inl, inr,
}
use nl2sql_agent.Common.Strings.{lower, mem_text}
use nl2sql_agent.Common.Sets.{add}
use nl2sql_agent.Common.Members.{mem-nothing, mem-cons, mem-nil, mem-append, mem-same, mem-add}
use nl2sql_agent.Retrieval.Schema.{TableInfo, ForeignKey}
use nl2sql_agent.Retrieval.FkExpand.{
  keys, targets, references, referenced_by, union, expand_from, expand_tables,
}

-- A foreign key of the table refers to `y`, a table of the database.
abbrev pub refers : List String → TableInfo → String → Bool
refers known i y = mem_text y known && any (λ (fk : ForeignKey). y == lower fk.referred_table) i.fks

-- A table of the database has the key `x` and refers to `y`, or the other way round.
abbrev pub joins : List TableInfo → String → String → Bool
joins schema x y =
    any (λ (i : TableInfo). x == i.key && refers (keys schema) i y) schema
    || any (λ (i : TableInfo). y == i.key && refers (keys schema) i x) schema

mem-union :
    (x : String) (ns found : List String)
    → mem_text x (union ns found) ≡ (mem_text x ns || mem_text x found)
unfolding union mem_text
mem-union x [] found = refl
mem-union x (n ∷ ns) found = ground (arith, mem-union x ns (add n found), mem-add x n found)

mem-targets :
    (y : String) (known : List String) (fks : List ForeignKey)
    → mem_text y (targets known fks)
      ≡ (mem_text y known && any (λ (fk : ForeignKey). y == lower fk.referred_table) fks)
unfolding targets
mem-targets y known [] = mem-nil y known
mem-targets y known (fk ∷ fks) =
    let r = lower fk.referred_table in
    elim (Bool-cases (y == r)) [
      | inl same ↦ ground (
        arith,
        same,
        mem-same y r known same,
        mem-targets y known fks,
        mem-cons y r (targets known fks),
      )
      | inr other ↦ ground (arith, other, mem-targets y known fks, mem-cons y r (targets known fks))
    ]

-- Whether a condition holds of some element, for a disjunction.
any-or :
    {A : Type 0} (p q : A → Bool) (xs : List A) → any (λ x. p x || q x) xs ≡ (any p xs || any q xs)
any-or p q [] = refl
any-or p q (x ∷ xs) = ground (arith, any-or p q xs)

mem-references :
    (y key : String) (known : List String) (is : List TableInfo)
    → mem_text y (references known is key)
      ≡ any (λ (i : TableInfo). key == i.key && refers known i y) is
unfolding references
mem-references y key known [] = mem-nothing y
mem-references y key known (i ∷ is) = elim (Bool-cases (key == i.key)) [
  | inl same ↦ rw same (
      mem-append y (targets known i.fks) (references known is key)
      ∙ rw (mem-targets y known i.fks, mem-references y key known is) refl)
  | inr other ↦ rw other (mem-references y key known is)
]

mem-referenced_by :
    (y key : String) (known : List String) (is : List TableInfo)
    → mem_text y (referenced_by known is key)
      ≡ any (λ (i : TableInfo). y == i.key && refers known i key) is
unfolding referenced_by
mem-referenced_by y key known [] = mem-nothing y
mem-referenced_by y key known (i ∷ is) = ground (
  arith,
  mem-targets key known i.fks,
  mem-referenced_by y key known is,
  mem-cons y i.key (referenced_by known is key),
)

mem-expand_from :
    (x : String) (schema : List TableInfo) (ts found : List String)
    → mem_text x (expand_from schema ts found)
      ≡ (mem_text x found || any (λ t. joins schema (lower t) x) ts)
unfolding expand_from
mem-expand_from x schema [] found = ground arith
mem-expand_from x schema (t ∷ ts) found =
    let known = keys schema in
    let out = references known schema (lower t) in
    let back = referenced_by known schema (lower t) in
    ground (
      arith,
      mem-expand_from x schema ts (union back (union out found)),
      mem-union x back (union out found),
      mem-union x out found,
      mem-references x (lower t) known schema,
      mem-referenced_by x (lower t) known schema,
    )

-- The tables that `expand_tables` gives are the selected ones and those that a foreign key of the
-- database joins with a selected one, in either direction: no other table, and none of them is left
-- out.
pub expand_tables-joins :
    (schema : List TableInfo) (selected : List String) (x : String)
    → mem_text x (expand_tables schema selected)
      ≡ (mem_text x selected || any (λ t. joins schema (lower t) x) selected)
unfolding expand_tables
expand_tables-joins schema selected x =
    mem-expand_from x schema selected (union selected [])
    ∙ rw (mem-union x selected []) (rw (mem-nothing x) (ground arith))
