-- ===== src/Lib.antt =====
-- DriftSQL answers questions on databases whose schema drifts away from a cached query. An agent
-- calls tools in turns: it reads the schema, inspects the drift, asks, executes and submits. A state
-- policy says which tools it may call next. A service keeps the sessions in SQLite, runs an agent
-- within a budget, and streams the events of a session to its clients.
--
-- The parts, and the files that model them (paths from the repository's root):
--   Python/          what the program takes from Python and its JSON library. `Python` is a record
--                    of functions: json.loads, json.dumps, str, int, case folding. A JSON value is
--                    Python.Values.Json, and a dict is its Fields.
--   Result           exceptions as values.
--   Prelude/         the library names that all modules share, and lemmas on lists and names.
--   Policy/          driftsql/integrations/state_policy.py. Event reads the events of a trajectory;
--                    Recovery is _required_contract_recovery_action; Select is
--                    select_dynamic_tool_names; Schemas is select_dynamic_tool_schemas; Guard,
--                    Repair, Mask and Guidance are the functions that go with them.
--   Controllers/     driftsql/controllers/validated_submit.py.
--   Training/        driftsql/training/grpo_coverage.py.
--   Rewrite          driftsql/sql_rewrite.py.
--   Planning         driftsql/planning/schema_repair.py.
--   Drift/           driftsql/drift/factory.py: _quote_identifier (Identifiers), fingerprint_query
--                    (Fingerprint), and materialize_schema_diff with what it calls (Requests reads
--                    the operations, Materialize carries them out). Disk is the store of files and
--                    temporary directories that they and the executor work on; the specification of
--                    a schema diff is Drift.Materialize.Evolved.evolve.
--   Verl/            driftsql/integrations/verl_tools.py: the tools that the agent calls. Asking is
--                    AskUserTool, Schema the two schema tools, Knowledge is
--                    GetKnowledgeDefinitionTool, Executor, Contract and Execution are
--                    VersionedSqlExecutorTool, SubmitSolutionTool is in Execution, Inspecting
--                    is InspectSchemaDiffTool, and Box is all of them as an instance of the
--                    interface Service.Toolbox.
--   Service/Types    driftsql/service/schemas.
--   Service/Repository   driftsql/service/repository/sqlite.py: the three tables as lists of rows,
--                    and each method as one transaction. Stream is event_stream of
--                    driftsql/service/inference/orchestrator.py, over the tables that it reads.
--   Service/Toolbox, Service/Tools   driftsql/service/inference/tools.py. The tools are an interface:
--                    Toolbox holds their operations, and IsTracked what the runtime relies on.
--   Service/Orchestrator, Create, Lifecycle, Query, Finish
--                    driftsql/service/inference/orchestrator.py: the turns of the agent, and how a
--                    session is created, started, cancelled, rewarded and ended.
--
-- The orchestrator asks the tool runtime for the tools to show and to call, and the runtime asks the
-- state policy, with the events that the orchestrator recorded. Every step is stored through the
-- repository, from which the event stream reads.
--
-- State is passed on explicitly. Where the code may raise after a change, the function gives the
-- state beside what it returns or raises; a method of the repository changes nothing when it
-- raises. The loops are structural, and the run of the turns counts down from max_turns; only two
-- loops run on fuel, and their modules show that it is enough: that of fingerprint_query, which
-- reads 1000 rows at a time, on one more than the rows, and that of rewrite_sql_identifier on one
-- more than the characters of the query. Numbers are natural numbers where the code cannot have
-- negative ones, milliseconds replace floating-point seconds, and times are texts.
--
-- Parameters, since their code is not in the repository or only does input and output: the model,
-- SQLite and the names of temporary directories, SHA-256, the clock, the file system, the SQL
-- parser, and the shuffles of the seeded generator. Code of the repository that is not modelled,
-- or not there, also enters as parameters: the parser of the tool calls (driftsql/tool_calls.py),
-- compute_score (driftsql/rewards), the catalogs; and, in Controllers.Submit and in the tool
-- runtime, materialize_schema_diff, fingerprint_query and the tools, which Drift and Verl model.
-- Concurrency is modelled where it matters to one run: at the start of each turn, and where the
-- run raises an exception, the client may have asked to cancel, and a timeout is met where the
-- model generates.
--
-- Not modelled: the HTTP routes, authentication and catalogs; observability; the command line;
-- the training glue; the data pipelines and the builders of drift examples, which rewrite syntax
-- trees of sqlglot; the projection planner, the replay reviews and the rewards of
-- driftsql/rewards; the waiting and the heartbeats of event_stream; and, in Verl, a temporary
-- directory whose removal raises, so that releasing an executor raises nothing there, though
-- Service.Toolbox has tools whose release raises.
pub mod Prelude
pub mod Result
pub mod Python
pub mod Policy
pub mod Service
pub mod Controllers
pub mod Training
pub mod Rewrite
pub mod Planning
pub mod Drift
pub mod Verl
