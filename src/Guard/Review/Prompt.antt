-- ===== src/Guard/Review/Prompt.antt =====
-- The prompt of guard/review.py and `str.format` with the one argument `dialect`.
use Prim.Native.Char.{Char, code}
use Prim.Native.String
use nl2sql_agent.Common.{
  ℕ, String, Bool, ◌≡◌, refl, [], ◌∷◌, ◌==◌, ◌||◌, if◌then◌else◌, eqb, concat,
}
use nl2sql_agent.Common.Result.{Result, ok, raised}

-- `REVIEWER_PROMPT`
abbrev pub reviewer_prompt : String
reviewer_prompt = concat (
    "You are a SQL reviewer. Your job is to find errors in a generated SQL query. You NEVER "
    ∷ "generate SQL yourself — you only review.\n" ∷ "\n" ∷ "## Review checklist\n"
    ∷ "For each of the following categories, check the SQL and report any issues:\n" ∷ "\n"
    ∷ "1. **Schema alignment**: Does every table name and column name exist in the SCHEMA "
    ∷ "below? Flag any identifier that is not in the schema (hallucination).\n"
    ∷ "2. **Syntax completeness**: Does every JOIN have an ON condition? Does every GROUP BY "
    ∷ "include non-aggregated columns? Do subqueries have aliases?\n"
    ∷ "3. **Business rules**: Does the SQL logic match the RETRIEVED NOTES (if provided)? For "
    ∷ "example, if notes say \"valid orders exclude cancelled/refunded\", does the SQL filter "
    ∷ "accordingly?\n"
    ∷ "4. **Dialect compliance**: Are the functions and syntax valid for {dialect}?\n"
    ∷ "5. **Safety**: Does the SQL contain INSERT, UPDATE, DELETE, DROP, ALTER, CREATE, "
    ∷ "PRAGMA? If so, flag immediately.\n" ∷ "\n"
    ∷ "## Output format (strict JSON only, no markdown, no extra text)\n" ∷ "{\n"
    ∷ "  \"valid\": true,\n" ∷ "  \"issues\": [],\n" ∷ "  \"critical_count\": 0,\n"
    ∷ "  \"suggested_fix\": \"\"\n" ∷ "}\n" ∷ "\n" ∷ "or if issues found:\n" ∷ "\n" ∷ "{\n"
    ∷ "  \"valid\": false,\n" ∷ "  \"issues\": [\n"
    ∷ "    {\"type\": \"hallucination|syntax|business_rule|dialect|safety\", \"detail\": "
    ∷ "\"specific description of the issue\"}\n" ∷ "  ],\n" ∷ "  \"critical_count\": 2,\n"
    ∷ "  \"suggested_fix\": \"Brief suggestion for how to fix the SQL. Be specific — mention "
    ∷ "exact column names.\"\n" ∷ "}\n" ∷ "\n" ∷ "## Rules\n"
    ∷ "- If any hallucination is found (column/table not in schema), valid MUST be false.\n"
    ∷ "- Be concise in suggested_fix — one or two sentences.\n"
    ∷ "- Output ONLY the JSON. No markdown code fences, no explanations." ∷ [])

abbrev one : Char → String
one c = String.◌∷◌ c ""

abbrev put : String → Result String → Result String
put piece (raised e) = raised e
put piece (ok rest) = ok (String.◌++◌ piece rest)

-- Where the reading of a template stands: in plain text, after a brace, in the name of a field (with
-- the name so far), or behind a name whose value stands already.
pub data Mode : Type 0 where
  plain after_open after_close behind : Mode
  field : String → Mode

abbrev value : String → String → Result String → Result String
value dialect name rest =
    if name == "dialect"
    then put dialect rest
    else raised (concat ("KeyError: '" ∷ name ∷ "'" ∷ []))

abbrev ends_name : ℕ → Bool
ends_name c = eqb c b':' || eqb c b'!' || eqb c b'.' || eqb c b'['

-- A template whose braces are balanced. A name ends at a colon too; what follows up to the brace
-- says how to print the value, which the one template does not use.
format_from : Mode → String → String → Result String
format_from plain d String.[] = ok ""
format_from after_open d String.[] = raised "ValueError: Single '{' encountered in format string"
format_from after_close d String.[] = raised "ValueError: Single '}' encountered in format string"
format_from behind d String.[] = raised "ValueError: expected '}' before end of string"
format_from (field n) d String.[] = raised "ValueError: expected '}' before end of string"
format_from plain d (String.◌∷◌ c s) =
    let opened = format_from after_open d s in
    let closed = format_from after_close d s in
    let other = put (one c) (format_from plain d s) in
    if eqb (code c) b'{' then opened else if eqb (code c) b'}' then closed else other
format_from after_open d (String.◌∷◌ c s) =
    let escaped = put "{" (format_from plain d s) in
    let empty = value d "" (format_from plain d s) in
    let named = format_from (field (one c)) d s in
    if eqb (code c) b'{' then escaped else if eqb (code c) b'}' then empty else named
format_from after_close d (String.◌∷◌ c s) =
    let escaped = put "}" (format_from plain d s) in
    if eqb (code c) b'}'
    then escaped
    else raised "ValueError: Single '}' encountered in format string"
format_from behind d (String.◌∷◌ c s) =
    let done = format_from plain d s in
    let more = format_from behind d s in if eqb (code c) b'}' then done else more
format_from (field n) d (String.◌∷◌ c s) =
    let done = value d n (format_from plain d s) in
    let rest = value d n (format_from behind d s) in
    let more = format_from (field (String.◌++◌ n (one c))) d s in
    if eqb (code c) b'}' then done else if ends_name (code c) then rest else more

unfoldable pub format : String → String → Result String
unfolding format_from
format template dialect = format_from plain dialect template

format_example : format "a {dialect} {{b}}" "sqlite" ≡ ok "a sqlite {b}"
unfolding format
format_example = refl
