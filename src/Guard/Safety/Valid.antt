-- ===== src/Guard/Safety/Valid.antt =====
-- When `check_safety` accepts a text, and when it raises.
use nl2sql_agent.Common.{
  String, ◌≤◌, ◌≡◌, sym, ◌∙◌, ◌≢◌, refl, ◌↔◌, ◌⊎◌, inl, inr, true, false, Option, List, [], ◌∷◌,
  ◌++◌, ◌==◌, arith, eq_iff, All, length, is_nil, Bool-cases, append-eq-nil, is_nil_iff,
}
use text.Mathlib.Text.{starts_with}
use nl2sql_agent.Common.Strings.{upper, lower, contains, strip, mem_text}
use nl2sql_agent.Common.Result.{Result, ok, raised}
use nl2sql_agent.Agent.State.{Issue}
use nl2sql_agent.Guard.Sqlglot.{Sqlglot, Tree}
use nl2sql_agent.Guard.Safety.{
  SafetyResult, AstResult, forbidden_keywords, ast_forbidden, select_issues, keyword_issues,
  statement_issues, statements, present, kind_issues, ast_statements, ast_parsed, ast_check,
  text_issues, with_text_issues, check_safety, table_references,
}

-- What the tests on the text ask for.
pub record IsPlainSelect (sql : String) : Type 0 where
  pub reads : (contains (upper sql) "SELECT" ≡ true) ⊎ (starts_with (upper sql) "WITH" ≡ true)
  pub no_keyword : All (λ kw. contains (upper sql) kw ≡ false) forbidden_keywords
  pub one_piece : length (statements sql) ≤ 1

-- What the tests on the parsed statements ask for: exactly one, of a kind that is not forbidden.
pub record IsOneQuery (sqlglot : Sqlglot) (sql dialect : String) : Type 0 where
  pub parsed : List (Option String)
  pub kind : String
  pub parses : sqlglot.parse sql dialect ≡ ok parsed
  pub single : present parsed ≡ kind ∷ []
  pub allowed : mem_text (lower (upper kind)) ast_forbidden ≡ false

select_issues-eq-nil :
    (u : String)
    → (select_issues u ≡ []) ↔ ((contains u "SELECT" ≡ true) ⊎ (starts_with u "WITH" ≡ true))
unfolding select_issues
select_issues-eq-nil u = ground arith

keyword_issues-eq-nil :
    (u : String) (kws : List String)
    → (keyword_issues u kws ≡ []) ↔ All (λ kw. contains u kw ≡ false) kws
unfolding keyword_issues
keyword_issues-eq-nil u [] = (λ _. tt, λ _. refl)
keyword_issues-eq-nil u (kw ∷ kws) = ground (arith, keyword_issues-eq-nil u kws)

statement_issues-eq-nil :
    (sql : String) → (statement_issues sql ≡ []) ↔ (length (statements sql) ≤ 1)
unfolding statement_issues
statement_issues-eq-nil sql = ground arith

text_issues-eq-nil : (sql : String) → (text_issues sql ≡ []) ↔ IsPlainSelect sql
unfolding text_issues
text_issues-eq-nil sql =
    let texts = upper sql in
    ground (
      arith,
      append-eq-nil (select_issues texts)
          (keyword_issues texts forbidden_keywords ++ statement_issues sql),
      append-eq-nil (keyword_issues texts forbidden_keywords) (statement_issues sql),
      select_issues-eq-nil texts,
      keyword_issues-eq-nil texts forbidden_keywords,
      statement_issues-eq-nil sql,
    )

-- The statements' check finds nothing on exactly one statement of an allowed kind.
ast_statements-ok :
    (kinds : List String) (tree : Result Tree) {a : AstResult}
    → ast_statements kinds tree ≡ ok a
    → a.issues ≡ []
    → (kind : String) × (kinds ≡ kind ∷ []) × (mem_text (lower (upper kind)) ast_forbidden ≡ false)
unfolding ast_statements kind_issues
ast_statements-ok [] tree h e = absurd (cc)
ast_statements-ok (k ∷ []) tree h e = (k, refl, ground arith)
ast_statements-ok (k ∷ l ∷ ks) tree h e = absurd (ground arith)

ast_statements-raised :
    (kinds : List String) (tree : Result Tree) {e : String}
    → ast_statements kinds tree ≡ raised e
    → kinds ≡ []
unfolding ast_statements
ast_statements-raised [] tree h = refl
ast_statements-raised (k ∷ []) tree h = absurd (cc)
ast_statements-raised (k ∷ l ∷ ks) tree h = absurd (cc)

ast_parsed-ok :
    (r : Result (List (Option String))) (tree : Result Tree) {a : AstResult}
    → ast_parsed r tree ≡ ok a
    → a.issues ≡ []
    → (ps : List (Option String)) × (kind : String) × (r ≡ ok ps)
      × (present ps ≡ kind ∷ [])
      × (mem_text (lower (upper kind)) ast_forbidden ≡ false)
unfolding ast_parsed
ast_parsed-ok (raised x) tree h e = absurd (ground arith)
ast_parsed-ok (ok []) tree h e = absurd (ground arith)
ast_parsed-ok (ok (p ∷ ps)) tree h e =
    let (kind, one, allowed) = ast_statements-ok (present (p ∷ ps)) tree h e in
    (p ∷ ps, kind, refl, one, allowed)

-- What `ast_parsed` makes of exactly one statement of an allowed kind.
ast_parsed-single :
    (ps : List (Option String)) (tree : Result Tree) (kind : String)
    → present ps ≡ kind ∷ []
    → mem_text (lower (upper kind)) ast_forbidden ≡ false
    → (a : AstResult) × (ast_parsed (ok ps) tree ≡ ok a)
      × (a.issues ≡ [])
      × (a.statement_type ≡ upper kind)
unfolding ast_parsed ast_statements kind_issues
ast_parsed-single [] tree kind h e = absurd (cc)
ast_parsed-single (p ∷ ps) tree kind h e = (
  record { issues = []; statement_type = upper kind; table_references = table_references tree },
  rw h (ground arith),
  refl,
  refl,
)

with_text_issues-ok :
    (issues : List Issue) (r : Result AstResult) {s : SafetyResult}
    → with_text_issues issues r ≡ ok s
    → (a : AstResult) × (r ≡ ok a)
      × (s.issues ≡ issues ++ a.issues)
      × (s.valid ≡ is_nil (issues ++ a.issues))
with_text_issues-ok issues (raised e) h = absurd (cc)
with_text_issues-ok issues (ok a) h = (a, refl, ground arith, ground arith)

ast_parsed-raised :
    (r : Result (List (Option String))) (tree : Result Tree) {e : String}
    → ast_parsed r tree ≡ raised e
    → (ps : List (Option String)) × (r ≡ ok ps) × (ps ≢ []) × (present ps ≡ [])
unfolding ast_parsed
ast_parsed-raised (raised x) tree h = absurd (cc)
ast_parsed-raised (ok []) tree h = absurd (cc)
ast_parsed-raised (ok (p ∷ ps)) tree h =
    (p ∷ ps, refl, λ e. cc, ast_statements-raised (present (p ∷ ps)) tree h)

module _ (sqlglot : Sqlglot) (sql dialect : String) where
  -- If `check_safety` returns a valid result, then the text is not blank, contains SELECT or begins
  -- with WITH in some case, contains none of the eight forbidden words in any case, has at most one
  -- piece between semicolons that is not blank, and the parser read exactly one statement, whose
  -- kind is none of the forbidden ones.
  pub valid-IsReadOnly :
      (s : SafetyResult)
      → check_safety sqlglot sql dialect ≡ ok s
      → s.valid ≡ true
      → (strip sql ≢ "") × IsPlainSelect sql × IsOneQuery sqlglot sql dialect
  unfolding check_safety ast_check
  valid-IsReadOnly s h v = elim (Bool-cases (strip sql == "")) [
    | inl blank ↦ absurd (ground arith)
    | inr filled ↦
        let (a, parsed, _, nil) =
          with_text_issues-ok (text_issues sql) (ast_check sqlglot sql dialect) (rw filled at h) in
        let (none_text, none_ast) = (append-eq-nil _ _).0 ((is_nil_iff _).0 (sym nil ∙ v)) in
        let (ps, kind, parses, single, allowed) = ast_parsed-ok _ _ parsed none_ast in
        (
          ground (arith, eq_iff (strip sql) ""),
          (text_issues-eq-nil sql).0 none_text,
          record { parsed = ps; kind = kind; parses = parses; single = single; allowed = allowed },
        )
  ]

  -- Conversely, on a text that meets those conditions `check_safety` returns a valid result with no
  -- issue, whose statement type is the kind of the one statement in upper case.
  pub IsReadOnly-valid :
      strip sql ≢ ""
      → IsPlainSelect sql
      → (q : IsOneQuery sqlglot sql dialect)
      → (s : SafetyResult) × (check_safety sqlglot sql dialect ≡ ok s)
        × (s.valid ≡ true)
        × (s.issues ≡ [])
        × (s.statement_type ≡ upper q.kind)
  unfolding check_safety ast_check
  IsReadOnly-valid filled plain q =
      let (a, parsed, clean, kind) =
        ast_parsed-single q.parsed (sqlglot.parse_one sql dialect) q.kind q.single q.allowed in
      (
        record {
          valid = true;
          issues = [];
          statement_type = a.statement_type;
          table_references = a.table_references;
        },
        ground (
          arith,
          eq_iff (strip sql) "",
          q.parses,
          parsed,
          clean,
          (text_issues-eq-nil sql).1 plain,
        ),
        refl,
        refl,
        kind,
      )

  -- The parser read at least one statement and every one of them is empty.
  abbrev pub OnlyEmpty : Type 0
  OnlyEmpty =
      (ps : List (Option String)) × (sqlglot.parse sql dialect ≡ ok ps)
      × (ps ≢ [])
      × (present ps ≡ [])

  -- On a text that is not blank of which the parser reads only empty statements, `check_safety` does
  -- not return a result but raises an IndexError.
  pub OnlyEmpty-raises :
      strip sql ≢ ""
      → OnlyEmpty
      → check_safety sqlglot sql dialect ≡ raised "IndexError: list index out of range"
  unfolding check_safety ast_check ast_parsed ast_statements
  OnlyEmpty-raises filled (ps, parses, some_read, empty) =
      rw parses (ground (arith, eq_iff (strip sql) "", empty))

  -- If `check_safety` raises, whatever the error, the parser read at least one statement and only
  -- empty ones.
  pub raises-OnlyEmpty : (e : String) → check_safety sqlglot sql dialect ≡ raised e → OnlyEmpty
  unfolding check_safety ast_check
  raises-OnlyEmpty e h =
      ast_parsed-raised (sqlglot.parse sql dialect) (sqlglot.parse_one sql dialect) {e = e}
        (ground arith)

  -- On a text that is not blank, `check_safety` raises exactly if the parser reads at least one
  -- statement and only empty ones.
  pub raises_iff_OnlyEmpty :
      strip sql ≢ "" → ((e : String) × (check_safety sqlglot sql dialect ≡ raised e)) ↔ OnlyEmpty
  raises_iff_OnlyEmpty filled = (
    λ p. raises-OnlyEmpty p.0 p.1,
    λ only. ("IndexError: list index out of range", OnlyEmpty-raises filled only),
  )
