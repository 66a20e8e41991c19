-- ===== src/Agent/Graph/Vote.antt =====
-- Whom the voter elects, and that its result always counts as a success.
use nl2sql_agent.Common.Result.{Result, ok}
use nl2sql_agent.Agent.Graph.{route_after_voter, semantic_check}
use mathlib.Core.Path.{subst}
use mathlib.Core.List.{Memᴰ}
use nl2sql_agent.Common.{
  String, ◌≤◌, ◌≡◌, ◌≢◌, refl, sym, Bool, true, false, Option, none, some, List, [], ◌∷◌, ◌==◌,
  arith, All, Bool-cases, inl, inr, eq_refl, ltb, leb, if◌then◌else◌, truthy, if_cases, ap,
}
use nl2sql_agent.Agent.State.{AgentState, ExecResult, succeeded}
use nl2sql_agent.Agent.Generator.{Reply}
use nl2sql_agent.Agent.Voter.{
  Ballot, count_hash, most_common, ballot_of, candidates, ballots, successful, elect, settled,
  voter_node, llm_vote, sqls_of, tally, ballot, by_llm,
}

mem_of_All {ℓ κ} : {A : Type ℓ} (P : A → Type κ) {x : A} {xs : List A} → All P xs → Memᴰ x xs → P x
mem_of_All P h (Memᴰ.head e) = subst P (sym e) h.0
mem_of_All P h (Memᴰ.tail m) = mem_of_All P h.1 m

one-le-count_hash : (b : Ballot) (bs : List Ballot) → Memᴰ b bs → 1 ≤ count_hash b.hash bs
one-le-count_hash b [] m = elim m [ ]
one-le-count_hash b (c ∷ bs) (Memᴰ.head e) = rw e (rw (eq_refl c.hash) (omega arith))
one-le-count_hash b (c ∷ bs) (Memᴰ.tail m) = ground (arith, one-le-count_hash b bs m)

-- No ballot of `bs` has a hash that is more common in `all` than that of `w`.
abbrev pub IsPlurality : List Ballot → Ballot → List Ballot → Type 0
IsPlurality all w bs = All (λ (b : Ballot). count_hash b.hash all ≤ count_hash w.hash all) bs

IsPlurality-trans :
    (all bs : List Ballot) (v w : Ballot)
    → count_hash v.hash all ≤ count_hash w.hash all
    → IsPlurality all v bs
    → IsPlurality all w bs
IsPlurality-trans all [] v w h p = tt
IsPlurality-trans all (b ∷ bs) v w h p = (omega arith, IsPlurality-trans all bs v w h p.1)

-- The candidate for the winner that the loop keeps stands for both that it compares.
keep-IsPlurality :
    (all : List Ballot) (best b w : Ballot) (bs : List Ballot) (t : Bool)
    → ltb (count_hash best.hash all) (count_hash b.hash all) ≡ t
    → Memᴰ w ((if t then b else best) ∷ bs) × IsPlurality all w ((if t then b else best) ∷ bs)
    → Memᴰ w (best ∷ b ∷ bs) × IsPlurality all w (best ∷ b ∷ bs)
keep-IsPlurality all best b w bs true e (m, p) = (Memᴰ.tail m, (ground (arith, p.0), (p.0, p.1)))
keep-IsPlurality all best b w bs false e (Memᴰ.head q, p) =
    (Memᴰ.head q, (p.0, (ground (arith, p.0), p.1)))
keep-IsPlurality all best b w bs false e (Memᴰ.tail m, p) =
    (Memᴰ.tail (Memᴰ.tail m), (p.0, (ground (arith, p.0), p.1)))

most_common-IsPlurality :
    (all : List Ballot) (best : Ballot) (bs : List Ballot)
    → Memᴰ (most_common all best bs) (best ∷ bs)
      × IsPlurality all (most_common all best bs) (best ∷ bs)
unfolding most_common
most_common-IsPlurality all best [] = (Memᴰ.head refl, (omega arith, tt))
most_common-IsPlurality all best (b ∷ bs) =
    let t = ltb (count_hash best.hash all) (count_hash b.hash all) in
    let keep = if t then b else best in
    keep-IsPlurality all best b (most_common all keep bs) bs t refl
      (most_common-IsPlurality all keep bs)

ballot_of-mem :
    (winner : Option String) (d : Ballot) (all bs : List Ballot)
    → Memᴰ d all
    → ((b : Ballot) → Memᴰ b bs → Memᴰ b all)
    → Memᴰ (ballot_of winner d bs) all
ballot_of-mem winner d all [] m sub = m
ballot_of-mem none d all (b ∷ bs) m sub = m
ballot_of-mem (some w) d all (b ∷ bs) m sub = elim (Bool-cases (b.sql == w)) [
  | inl same ↦ rw same (sub b (Memᴰ.head refl))
  | inr other ↦ rw other (ballot_of-mem (some w) d all bs m (λ c k. sub c (Memᴰ.tail k)))
]

-- If no hash is shared by two ballots, each ballot is as common as any other.
IsPlurality-of_rare :
    (all : List Ballot) (w : Ballot)
    → Memᴰ w all
    → (bs : List Ballot) → All (λ (b : Ballot). count_hash b.hash all ≤ 1) bs
    → IsPlurality all w bs
IsPlurality-of_rare all w m [] h = tt
IsPlurality-of_rare all w m (b ∷ bs) h =
    (omega (arith, one-le-count_hash w all m), IsPlurality-of_rare all w m bs h.1)

rare_of_top :
    (all : List Ballot) (top : Ballot) (bs : List Ballot)
    → count_hash top.hash all ≤ 1
    → IsPlurality all top bs
    → All (λ (b : Ballot). count_hash b.hash all ≤ 1) bs
rare_of_top all top [] h p = tt
rare_of_top all top (b ∷ bs) h p = (omega (arith, p.0), rare_of_top all top bs h p.1)

module _ (run_sql : String → ExecResult) (normalize : ExecResult → Result String)
    (vote : List String → Reply) where
  elect-IsPlurality :
      (b : Ballot) (bs : List Ballot)
      → let w = elect run_sql normalize vote (b ∷ bs) b bs in
        Memᴰ w (b ∷ bs) × IsPlurality (b ∷ bs) w (b ∷ bs)
  unfolding elect
  elect-IsPlurality b bs =
      let all = b ∷ bs in
      let top = most_common all b bs in
      let (m, p) = most_common-IsPlurality all b bs in
      let w = ballot_of (llm_vote vote (sqls_of all)) b all in
      if_cases (λ v. Memᴰ v all × IsPlurality all v all) (leb 2 (count_hash top.hash all)) top w
        (λ majority. (m, p))
        (λ tie.
          let member =
            ballot_of-mem (llm_vote vote (sqls_of all)) b all all (Memᴰ.head refl) (λ _ k. k) in
          (member, IsPlurality-of_rare all w member all (rare_of_top all top all (ground arith) p)))

  -- The result of a candidate has a canonical form if it is a success.
  abbrev pub Comparable : String → Type 0
  Comparable c = (run_sql c).success ≡ true → (h : String) × (normalize (run_sql c) ≡ ok h)

  ballot-ok :
      (c : String)
      → Comparable c
      → (b : Ballot) × (ballot run_sql normalize vote c (run_sql c) ≡ ok b) × (b.result ≡ run_sql c)
  unfolding ballot
  ballot-ok c h = elim (Bool-cases (run_sql c).success) [
    | inl ran ↦
        let (hash, same) = h ran in
        (record { sql = c; result = run_sql c; hash = hash }, rw same (simp ran), refl)
    | inr not_ran ↦ (record { sql = c; result = run_sql c; hash = "" }, simp not_ran, refl)
  ]

  ballots-ok :
      (cs : List String)
      → All Comparable cs
      → (all : List Ballot) × (ballots run_sql normalize vote cs ≡ ok all)
        × ((c : String)
            → Memᴰ c cs
            → (run_sql c).success ≡ true
            → successful run_sql normalize vote all ≢ [])
  unfolding ballots
  ballots-ok [] h = ([], refl, λ c m. absurd (elim m [ ]))
  ballots-ok (c ∷ cs) h =
      let (b, same, result) = ballot-ok c h.0 in
      let (all, rest, later) = ballots-ok cs h.1 in
      (
        b ∷ all,
        rw (same, rest) refl,
        λ d m ran none_good. kept b c all later result d m ran none_good,
      )
    where
      kept :
          (b : Ballot) (c : String) (all : List Ballot)
          → ((d : String)
              → Memᴰ d cs
              → (run_sql d).success ≡ true
              → successful run_sql normalize vote all ≢ [])
          → b.result ≡ run_sql c
          → (d : String) → Memᴰ d (c ∷ cs)
          → (run_sql d).success ≡ true
          → successful run_sql normalize vote (b ∷ all) ≢ []
      kept b c all later same d (Memᴰ.head e) ran h =
          ground (arith, h, ap ExecResult.success same, ap (λ x. (run_sql x).success) e)
      kept b c all later same d (Memᴰ.tail m) ran h = ground (arith, h, later d m ran)

  -- If the database is there, the results of the candidates that run without an error have canonical
  -- forms, and some candidate runs without an error, the node returns and settles on the SQL and the
  -- result of a successful ballot whose hash no other hash among the successful ballots outnumbers.
  pub voter-IsPlurality :
      (s : AgentState) (c : String)
      → truthy s.database_url ≡ true
      → All Comparable (candidates run_sql normalize vote s)
      → Memᴰ c (candidates run_sql normalize vote s)
      → (run_sql c).success ≡ true
      → (all : List Ballot) × (ballots run_sql normalize vote (candidates run_sql normalize vote s)
          ≡ ok all)
        × (w : Ballot) × (voter_node run_sql normalize vote s ≡ ok (settled s w))
        × Memᴰ w (successful run_sql normalize vote all)
        × IsPlurality
            (successful run_sql normalize vote all)
            w
            (successful run_sql normalize vote all)
  unfolding voter_node
  voter-IsPlurality s c url forms m ran =
      let (all, there, some_good) = ballots-ok (candidates run_sql normalize vote s) forms in
      let (w, same, member, plural) =
        elected s all (successful run_sql normalize vote all) (some_good c m ran) in
      (all, there, w, rw (url, there) (ap ok same), member, plural)
    where
      elected :
          (s : AgentState) (all good : List Ballot)
          → good ≢ []
          → (w : Ballot) × (tally run_sql normalize vote s all good ≡ settled s w)
            × Memᴰ w good
            × IsPlurality good w good
      elected s all [] h = absurd (h refl)
      elected s all (b ∷ []) h = (b, refl, Memᴰ.head refl, ground arith)
      elected s all (b ∷ c ∷ bs) h =
          let (m, p) = elect-IsPlurality b (c ∷ bs) in
          (elect run_sql normalize vote (b ∷ c ∷ bs) b (c ∷ bs), refl, m, p)

  succeeded-ballots :
      (bs : List Ballot)
      → All (λ (b : Ballot). b.result.success ≡ true) (successful run_sql normalize vote bs)
  succeeded-ballots [] = tt
  succeeded-ballots (b ∷ bs) = ground (arith, succeeded-ballots bs)

  tally-succeeds :
      (s : AgentState) (all good : List Ballot)
      → All (λ (b : Ballot). b.result.success ≡ true) good
      → succeeded (tally run_sql normalize vote s all good).exec_result ≡ true
  tally-succeeds s all [] h = refl
  tally-succeeds s all (b ∷ []) h = h.0
  tally-succeeds s all (b ∷ c ∷ bs) h =
      mem_of_All (λ (v : Ballot). v.result.success ≡ true) h (elect-IsPlurality b (c ∷ bs)).0

  -- Whatever errors the candidates give when they are executed, also if every one of them fails, as
  -- long as the results without an error have canonical forms, the node returns a result that counts
  -- as a success, so that the graph goes on to the semantic check and never to the refiner.
  pub voter_never_fails :
      (s : AgentState)
      → (truthy s.database_url ≡ true → All Comparable (candidates run_sql normalize vote s))
      → (t : AgentState) × (voter_node run_sql normalize vote s ≡ ok t)
        × (route_after_voter t ≡ semantic_check)
  unfolding voter_node route_after_voter
  voter_never_fails s forms = elim (Bool-cases (truthy s.database_url)) [
    | inl url ↦
        let (all, there, _) = ballots-ok (candidates run_sql normalize vote s) (forms url) in
        let good = successful run_sql normalize vote all in
        (
          tally run_sql normalize vote s all good,
          rw (url, there) refl,
          rw (tally-succeeds s all good (succeeded-ballots all)) refl,
        )
    | inr no_url ↦ (
      by_llm s (llm_vote vote (candidates run_sql normalize vote s)) "llm_nodb",
      rw no_url refl,
      refl,
    )
  ]
