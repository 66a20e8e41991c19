-- ===== src/Retrieval/Context.antt =====
-- `build_prompt_context` of retrieval/rag_retrieve.py.
use nl2sql_agent.Common.{String, List, [], ◌∷◌, ◌==◌, if◌then◌else◌, truthy, concat, join}
use nl2sql_agent.Agent.State.{Chunk}

pub record Context : Type 0 where
  pub schema_text : String
  pub notes_text : String

unfoldable pub schema_parts : List Chunk → List String
schema_parts [] = []
schema_parts (c ∷ cs) =
    if c.chunk_type == "schema" then c.content ∷ schema_parts cs else schema_parts cs

-- A chunk of the notes, below its heading if it has one.
note : Chunk → String
note c = if truthy c.heading then concat ("## " ∷ c.heading ∷ "\n" ∷ c.content ∷ []) else c.content

unfoldable pub notes_parts : List Chunk → List String
unfolding note
notes_parts [] = []
notes_parts (c ∷ cs) = if c.chunk_type == "schema" then notes_parts cs else note c ∷ notes_parts cs

unfoldable pub build_prompt_context : List Chunk → Context
unfolding schema_parts notes_parts
build_prompt_context chunks = record {
  schema_text = join "\n\n" (schema_parts chunks);
  notes_text = join "\n\n" (notes_parts chunks);
}
