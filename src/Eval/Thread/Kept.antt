-- ===== src/Eval/Thread/Kept.antt =====
-- What the dictionary of the results counts when a later configuration takes the place of an earlier one.
use nl2sql_agent.Common.{
  ℕ, ◌+◌, ◌≡◌, refl, sym, ap, String, Bool, true, false, List, [], ◌∷◌, arith, ◌==◌, ◌||◌, eq_iff,
  Bool-cases, inl, inr, if◌then◌else◌,
}
use nl2sql_agent.Eval.Thread.{Config, Results, set_result, sum_passed}

-- A configuration has a name.
abbrev pub has_name : String → List Config → Bool
has_name name [] = false
has_name name (cfg ∷ cfgs) = name == cfg.name || has_name name cfgs

abbrev has_result : String → Results → Bool
has_result name [] = false
has_result name ((other, k) ∷ rs) = name == other || has_result name rs

-- No two results have the same name.
abbrev pub HasOwnNames : Results → Type 0
HasOwnNames [] = Unit
HasOwnNames ((name, k) ∷ rs) = (has_result name rs ≡ false) × HasOwnNames rs

-- What the results count that no configuration to come takes the place of.
abbrev pub kept : Results → List Config → ℕ
kept [] cfgs = 0
kept ((name, k) ∷ rs) cfgs =
    let rest = kept rs cfgs in if has_name name cfgs then rest else k + rest

has_result-set :
    (x name : String) (k : ℕ) (rs : Results)
    → (x == name) ≡ false
    → has_result x rs ≡ false
    → has_result x (set_result name k rs) ≡ false
unfolding set_result
has_result-set x name k [] h g = ground (arith, h)
has_result-set x name k ((other, j) ∷ rs) h g = ground (arith, has_result-set x name k rs)

pub HasOwnNames-set :
    (name : String) (k : ℕ) (rs : Results) → HasOwnNames rs → HasOwnNames (set_result name k rs)
unfolding set_result
HasOwnNames-set name k [] own = (refl, tt)
HasOwnNames-set name k ((other, j) ∷ rs) own = elim (Bool-cases (name == other)) [
  | inl same ↦ rw same own
  | inr differ ↦
      let apart : (other == name) ≡ false = ground (arith, eq_iff name other, eq_iff other name) in
      rw differ (has_result-set other name k rs apart own.0, HasOwnNames-set name k rs own.1)
]

kept-absent :
    (cfg : Config) (cfgs : List Config) (rs : Results)
    → has_result cfg.name rs ≡ false
    → kept rs (cfg ∷ cfgs) ≡ kept rs cfgs
kept-absent cfg cfgs [] h = refl
kept-absent cfg cfgs ((other, j) ∷ rs) h =
    ground (arith, eq_iff other cfg.name, eq_iff cfg.name other, kept-absent cfg cfgs rs)

pub kept-set :
    (cfg : Config) (cfgs : List Config) (k : ℕ) (rs : Results)
    → HasOwnNames rs
    → kept (set_result cfg.name k rs) cfgs
      ≡ kept rs (cfg ∷ cfgs) + (if has_name cfg.name cfgs then 0 else k)
unfolding set_result
kept-set cfg cfgs k [] own = ground arith
kept-set cfg cfgs k ((other, j) ∷ rs) own = elim (Bool-cases (cfg.name == other)) [
  | inl same ↦
      let equal : cfg.name ≡ other = (eq_iff cfg.name other).0 same in
      let absent : has_result cfg.name rs ≡ false = rw equal own.0 in
      let again : (other == cfg.name) ≡ true = (eq_iff other cfg.name).1 (sym equal) in
      let names : has_name other cfgs ≡ has_name cfg.name cfgs =
        ap (λ x. has_name x cfgs) (sym equal) in
      ground (arith, same, again, names, kept-absent cfg cfgs rs absent)
  | inr differ ↦
      let apart : (other == cfg.name) ≡ false =
        ground (arith, eq_iff cfg.name other, eq_iff other cfg.name) in
      ground (arith, differ, apart, kept-set cfg cfgs k rs own.1)
]

pub kept-nil : (rs : Results) → sum_passed rs ≡ kept rs []
unfolding sum_passed
kept-nil [] = refl
kept-nil ((name, k) ∷ rs) = ap (λ n. k + n) (kept-nil rs)
