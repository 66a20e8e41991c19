-- ===== src/Agent/Router/Patterns.antt =====
-- The patterns of agent/nodes/router.py.
use nl2sql_agent.Common.{String, List, [], ◌∷◌}

abbrev pub multi_intent_patterns : List String
multi_intent_patterns =
    "同时" ∷ "并且" ∷ "分别" ∷ "以及" ∷ "也买了" ∷ "还买了" ∷ "不仅" ∷ "还要" ∷ "再加上" ∷ "respectively" ∷ "as well as"
    ∷ "in addition to" ∷ "along with" ∷ "additionally" ∷ "furthermore" ∷ "and also" ∷ "and then"
    ∷ "who have both" ∷ "that have both" ∷ "and their corresponding" ∷ "along with their" ∷ []

abbrev pub complex_structure_patterns : List String
complex_structure_patterns =
    "占比" ∷ "百分比" ∷ "增长率" ∷ "排名" ∷ "前5" ∷ "前10" ∷ "percentage" ∷ "ratio" ∷ "proportion"
    ∷ "growth rate" ∷ "rank" ∷ "ranking" ∷ []

abbrev pub implicit_complex_patterns : List String
implicit_complex_patterns =
    "最" ∷ "最高" ∷ "最低" ∷ "最大" ∷ "最小" ∷ "没有" ∷ "从未" ∷ "没买过" ∷ "比" ∷ "对比" ∷ "比较" ∷ "相比" ∷ "每个" ∷ "每种"
    ∷ "各类" ∷ "各个" ∷ "highest" ∷ "lowest" ∷ "maximum" ∷ "minimum" ∷ "most expensive"
    ∷ "least expensive" ∷ "never" ∷ "no " ∷ " versus " ∷ "compared to" ∷ "difference between"
    ∷ " than " ∷ "per " ∷ "does not have" ∷ "does not contain" ∷ "does not include" ∷ "without "
    ∷ "excluding " ∷ "same " ∷ "for each " ∷ "respective" ∷ "which of the" ∷ "oldest" ∷ "youngest"
    ∷ "most recent" ∷ "earliest" ∷ "latest" ∷ "who have " ∷ "that have " ∷ "which have "
    ∷ "two or more " ∷ "three or more " ∷ "decrease rate" ∷ "completion rate" ∷ []

-- Both texts of a pair have to occur.
abbrev pub multi_intent_pairs : List (String × String)
multi_intent_pairs =
    ("既", "又") ∷ ("both", "and") ∷ ("not only", "but also") ∷ ("first", "then") ∷ []
