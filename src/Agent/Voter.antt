-- ===== src/Agent/Voter.antt =====
-- agent/nodes/voter.py. Arguments are `run_sql` on the state's database, the canonical form
-- `_normalize` of a result's rows, which raises where it cannot sort them (rows that have a number
-- and a NULL or a text in one column), and the model's reply to the vote's prompt. The results stand
-- in the order of the candidates, into which the node sorts them.
use nl2sql_agent.Common.Result.{Result, ok, ◌>>=◌}
use Prim.Native.Char.{code}
use Prim.Native.Nat.{◌+◌, ◌*◌, ◌-◌}
use nl2sql_agent.Common.{
  ℕ, zero, suc, String, Bool, true, ◌&&◌, Option, none, some, List, [], ◌∷◌, ◌==◌, if◌then◌else◌,
  leb, ltb, is_nil, any, truthy,
}
use nl2sql_agent.Common.Strings.{contains}
use nl2sql_agent.Agent.State.{AgentState, ExecResult, error_of}
use nl2sql_agent.Agent.Generator.{Reply, answer, failure}

abbrev is_digit : ℕ → Bool
is_digit c = leb 48 c && leb c 57

-- The number that a run of digits adds to what was read before it.
digits_from : ℕ → String → ℕ
digits_from n String.[] = n
digits_from n (String.◌∷◌ c s) =
    let more = digits_from (n * 10 + (code c - 48)) s in if is_digit (code c) then more else n

-- `int(re.search(r"\d+", s).group())`, on the digits of ASCII.
unfoldable pub first_number : String → Option ℕ
unfolding digits_from
first_number String.[] = none
first_number (String.◌∷◌ c s) =
    let later = first_number s in
    if is_digit (code c) then some (digits_from 0 (String.◌∷◌ c s)) else later

abbrev nth_or : String → List String → ℕ → String
nth_or d [] n = d
nth_or d (x ∷ xs) zero = x
nth_or d (x ∷ xs) (suc n) = nth_or d xs n

-- The candidate at the index that a reply names, else the first one.
unfoldable pub chosen : String → List String → Reply → String
chosen c cs (failure e) = c
chosen c cs (answer raw _) = elim (first_number raw) [ none ↦ c | some i ↦ nth_or c (c ∷ cs) i ]

-- `_llm_vote`
unfoldable pub llm_vote : (List String → Reply) → List String → Option String
llm_vote vote [] = none
llm_vote vote (c ∷ []) = some c
llm_vote vote (c ∷ c' ∷ cs) = some (chosen c (c' ∷ cs) (vote (c ∷ c' ∷ cs)))

-- An entry of `results`; the hash of a result that is no success is None, which is "" here.
pub record Ballot : Type 0 where
  pub sql : String
  pub result : ExecResult
  pub hash : String

abbrev pub count_hash : String → List Ballot → ℕ
count_hash h [] = 0
count_hash h (b ∷ bs) = if b.hash == h then suc (count_hash h bs) else count_hash h bs

-- `Counter(…).most_common()[0]`: the first ballot whose hash is shared by most, kept in `best`.
unfoldable pub most_common : List Ballot → Ballot → List Ballot → Ballot
most_common all best [] = best
most_common all best (b ∷ bs) =
    most_common all (if ltb (count_hash best.hash all) (count_hash b.hash all) then b else best) bs

-- The first successful ballot with a given SQL, else the first one.
abbrev pub ballot_of : Option String → Ballot → List Ballot → Ballot
ballot_of winner d [] = d
ballot_of none d (b ∷ bs) = d
ballot_of (some w) d (b ∷ bs) = if b.sql == w then b else ballot_of (some w) d bs

abbrev pub sqls_of : List Ballot → List String
sqls_of [] = []
sqls_of (b ∷ bs) = b.sql ∷ sqls_of bs

-- The dict of a vote without results.
abbrev pub unexecuted : String → ExecResult
unexecuted voted_by = record {
  success = true;
  error = some "";
  rows = some [];
  columns = some [];
  row_count = 0;
  voted_by = some voted_by;
  sql = none;
}

abbrev pub settled : AgentState → Ballot → AgentState
settled s b = record s { sql = b.sql; exec_result = some (record b.result { sql = some b.sql }) }

-- `winner or sql`
abbrev winner_or : Option String → String → String
winner_or none sql = sql
winner_or (some w) sql = if truthy w then w else sql

abbrev pub by_llm : AgentState → Option String → String → AgentState
by_llm s winner voted_by = record s {
  sql = winner_or winner s.sql;
  exec_result = some (unexecuted voted_by);
}

module _ (run_sql : String → ExecResult) (normalize : ExecResult → Result String)
    (vote : List String → Reply) where
  abbrev pub candidates : AgentState → List String
  candidates s = if is_nil s.candidate_sqls then s.sql ∷ [] else s.candidate_sqls

  -- The entry of one candidate; nothing catches what `_normalize` raises.
  unfoldable pub ballot : String → ExecResult → Result Ballot
  ballot c r =
      let hashed = normalize r >>= (λ h. ok (record { sql = c; result = r; hash = h })) in
      if r.success then hashed else ok (record { sql = c; result = r; hash = "" })

  unfoldable pub ballots : List String → Result (List Ballot)
  unfolding ballot
  ballots [] = ok []
  ballots (c ∷ cs) =
      ballot c (run_sql c) >>= (λ b. ballots cs >>= (λ (bs : List Ballot). ok (b ∷ bs)))

  abbrev pub successful : List Ballot → List Ballot
  successful [] = []
  successful (b ∷ bs) = if b.result.success then b ∷ successful bs else successful bs

  -- Why no candidate succeeded.
  abbrev reason : List Ballot → String
  reason bs =
      if any (λ (b : Ballot). contains (error_of (some b.result)) "timed out") bs
      then "llm_timeout"
      else "llm_exec_fail"

  -- The vote among several successful ballots.
  unfoldable pub elect : List Ballot → Ballot → List Ballot → Ballot
  elect bs b rest =
      let top = most_common bs b rest in
      if leb 2 (count_hash top.hash bs) then top else ballot_of (llm_vote vote (sqls_of bs)) b bs

  abbrev pub tally : AgentState → List Ballot → List Ballot → AgentState
  tally s all [] = by_llm s (llm_vote vote (candidates s)) (reason all)
  tally s all (b ∷ []) = settled s b
  tally s all (b ∷ b' ∷ bs) = settled s (elect (b ∷ b' ∷ bs) b (b' ∷ bs))

  unfoldable pub voter_node : AgentState → Result AgentState
  unfolding ballots
  voter_node s =
      let vote_on = λ (all : List Ballot). ok (tally s all (successful all)) in
      if truthy s.database_url
      then ballots (candidates s) >>= vote_on
      else ok (by_llm s (llm_vote vote (candidates s)) "llm_nodb")
