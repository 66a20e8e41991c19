-- ===== src/Lib.antt =====
-- Nl2Sql-Agent: natural language to SQL by a graph of nodes around a chat model, served as
-- asynchronous tasks. The development models the Python code of these parts, one tree of modules
-- each, in shallow embedding: a node is a function on the state, fallible code returns `Result`,
-- and what mutates a shared store takes and gives a `World`.
--
-- Agent: agent/nodes/ and agent/graphs/. `Agent.State` is `AgentState` with the records in it;
-- `Agent.Generator`, `Agent.Guard`, `Agent.Voter`, `Agent.Semantic` and `Agent.Refiner` are the
-- nodes `generator_node`, `guard_node`, `voter_node`, `semantic_check_node` and `refiner_node`;
-- `Agent.Graph` has the routes `_route_after_*`, the edges of `create_feedback_graph` and
-- `create_full_graph` (`next`, `next_full`) and the run of a graph; `Agent.Loop` puts the nodes
-- into the feedback graph. `Agent.Router` is agent/nodes/router.py, with its word lists in
-- `Router.Patterns` and `router_node` in `Router.Node`; `Agent.ExtractSql` and `Agent.GenerateSql`
-- are `extract_sql` and `generate_sql` of agent/generator_llm.py. The refiner's texts are in
-- `Refiner.Hints` (`_parse_schema_identifiers`, `_find_closest`, `_build_schema_hint`) and
-- `Refiner.Formats`, `Refiner.ExecFormat` and `Refiner.ResultFormat` (the four formatters), which
-- `Refiner.Program` gives to the node; the texts in the prompt of the semantic check are in
-- `Semantic.Prompt` and `Semantic.Shown`. A node returns the state that langgraph makes by merging
-- its update. The guard node calls the checks of Guard, the refiner those of Retrieval.
-- `_normalize` of the voter and the classification of the refiner are arguments that may raise,
-- and `null_sql` of the state says that `sql` and `last_sql` are None, which only a feedback on a
-- task without SQL makes them.
--
-- Guard: guard/safety_rules.py, `check_safety` and `check_hallucinations`; `Guard.Errors` has the
-- error types and `classify_exec_error`, `Guard.Executor` is tools/sql_executor.py, `Guard.Review`
-- is `review` of guard/review.py, and `Guard.Pipeline` is `run` of guard/error_classifier.py:
-- generation, the review loop and the execution loop on the interface `Calls`, which
-- `Guard.Pipeline.Program.program_calls` fills with the models of the functions that the program
-- calls.
--
-- Retrieval: `get_schema_summary` of retrieval/schema.py, `build_prompt_context` of
-- retrieval/rag_retrieve.py, `Retrieval.FkExpand` for retrieval/fk_expand.py,
-- `Retrieval.ColumnPrune` for retrieval/column_prune.py, and `Retrieval.Hybrid` for
-- retrieval/hybrid_search.py.
--
-- Eval: evaluation/task_manager.py. `Eval.Progress` is `TaskProgress` with its dict, `Eval.Store`
-- the documents in Redis, `Eval.Manager` the public operations on the cancel events
-- (`OneAtATime.Step` has the interleavings of starts), and `Eval.Thread` the thread
-- `_run_eval_thread`, with a cancel event that is set from one poll on.
--
-- Task: `Task.Store` is infrastructure/task_store.py on the interface `Task.Redis`; `Task.Api` is
-- api/routes/task.py, with the events of `task_stream` in `Task.Api.Stream`; `Task.Worker` is
-- worker/main.py, where `run_graph` and `run_feedback_graph` share the loop `consume`, and
-- `handle_task` and `handle_feedback` turn the end of a job into transitions and messages;
-- `Outside` is what other processes do before a step and before the end of a job: time passes, the
-- heartbeat, a request to cancel, and moves of tasks along the table, but no new tasks and no
-- feedback. `Task.State` has the documents and messages that they exchange
-- (infrastructure/broker.py, api/models.py). The API and the worker meet only in the store and in
-- the messages: a `World` holds both, with the clock. `publish` hands a message to the `Broker`,
-- whose argument `accepts` says which messages Kafka takes (none where it is not connected); one
-- that it does not take is lost, as in the code. Common has the library names and the lemmas on
-- lists, options and texts that the parts share; `Common.Regex` is the backtracking search of
-- Python's `re` for the expressions that the program uses, where what counts as a letter or a
-- digit beyond ASCII is an argument.
--
-- Arguments stand for what is not the program's own code: the chat models, the SQL parser sqlglot,
-- the execution of SQL, the reading of schemas and of the vector store, SHA-256 and random ids.
-- The laws of Redis (a key that is set is read back until it expires, a deleted key is gone, the
-- passing of time only removes keys, SCAN gives every key that is there) are fields of its
-- interface, which `Task.Tests.Memory` fills. A task id is of hexadecimal digits, so keys of two
-- kinds or of two tasks differ; JSON is read back as it was written.
--
-- The run of a graph is bounded by langgraph's recursion limit, 25 unless configured; a run that
-- would exceed it is `recursion_error`. The loop's counter of retries falls with every round,
-- which gives the bounds on the limit in the results. The loops of the pipeline are bounded by the
-- two constants of the code, and the search of a regular expression by the length of its text. All
-- other loops are structural.
--
-- Not modelled: the decomposer, the selection of examples and schemas, the vector and BM25
-- indices, the AST validator, the synchronous endpoints, the metrics and reports of the
-- evaluation, the user interface, tracing and latencies, the Java gateway, and what a job does
-- after its time is over. Only ASCII letters have upper and lower case.
pub mod Common
pub mod Agent
pub mod Retrieval
pub mod Guard
pub mod Task
pub mod Eval
