-- ===== src/Lib.antt =====
-- Decision Maker flow: an agent that helps to decide between options, as a LangGraph graph of
-- seven nodes (src/features/decision_maker/), behind an HTTP server (src/server/) and a Gradio
-- screen (src/ui/). Two scripts go with the server: one mints its tokens, one tests it from
-- outside.
--
-- A session has two turns. In the first the graph analyses the dilemma, searches for facts
-- while the model asks for them, asks the user what matters, and halts. In the second it
-- parses the answer into weights, drafts, lets an auditor demand a rewrite, and writes the
-- final answer. The server keeps the threads in SQLite with a table beside it of when each was
-- last used, which a sweeper reads to delete idle sessions. The screen runs the same two turns
-- from one text box and shows each event of the graph. Every reply of the model goes through
-- src/core/ first.
--
-- Prelude (Tests, Lists, Results, Texts, Int): shared names; Python's exceptions as `Outcome`;
--   Python's integers over the native numbers.
-- Json: JSON values and the builtins that the nodes apply to what the model replies.
-- Table: a table of SQLite with a text as its key.
-- Protocol: the events that a resource allows in each of its states.
-- Http: the requests and the responses that pass between the server and a client.
-- Core/Patterns: the pieces of Python's `re` that the patterns of src/core/ are made of, over
--   code points. Core/LlmUtils: sanitize_llm_response of llm_utils.py with its two patterns.
--   Core/JsonUtils: safe_json_parse of json_utils.py over Python's decoder, a record.
-- Core/LlmClient: what build_llm and build_llm_client of llm_client.py pass to ChatOpenAI.
-- Core/Texts, Blocks, Sanitizing, Braces, Parsing: the proofs about these. Core/Tests:
--   replies.
-- Agent/State: DecisionMakerState of state.py.
-- Agent/Env: what the nodes call that they do not implement, a record: the client of the
--   model, the Tavily client, the decoder of JSON. Each superstep meets an environment of its
--   own, so nothing is assumed of one reply from another.
-- Agent/Tools: tools.py (stub_search_async, the Tavily adapter, search_async).
-- Agent/Nodes: the nodes of nodes.py, each a function from the state to its partial state.
-- Agent/Routing: route_from_context and route_from_critique of nodes.py.
-- Agent/Graph: build_graph of graph.py, its nodes and edges as data, and one superstep.
-- Agent/Engine: LangGraph as a parameter. The runs of a graph are the inductive relation
--   `Leg`, one superstep at a time, which may also stop between two; an `Engine` is any
--   function whose runs are legs of the graph. Engine/Executor is one, by fuel, which stands
--   for the recursion limit.
-- Agent/Session: start_session, resume_session, stream_session and stream_resume_session of
--   graph.py over a thread's checkpoint.
-- Agent/Override: the global override of the model's client, set and cleared by sessions in
--   any order of events.
-- Agent/Replies, Critique, Supersteps, RewriteLoop, Runaway, Legs, Convergence, SessionFlow,
--   ContextRouting, Search: the proofs about these. Agent/Samples and Tests: concrete runs.
-- Server/Saver: TouchingCheckpointer of checkpoint_factory.py over LangGraph's saver, a record
--   of operations and laws; Saver/Plain is one. A deletion can fail at each of its statements,
--   and what ran before is then not rolled back.
-- Server/Checkpointers: build_checkpointer of checkpoint_factory.py by what happens to its
--   connection, the set-up of the tables, and the methods that only delegate.
-- Server/Settings: the fields of Config in config.py, read from an environment, and get_cfg.
-- Server/Metrics, Config, Sweeper: metrics.py, the validators of config.py, and a tick of
--   sweeper.py. Metrics/Registry: build_registry and make_metrics over the registry of
--   prometheus_client; Metrics/Bundled: the proofs about them.
-- Server/Idempotency: the keys of idempotency.py over cachetools.TTLCache, a record of
--   operations and laws; Idempotency/Log is one. SHA-256 is a parameter.
-- Server/Auth and Auth/Verify: verify_session_token and mint_session_token of auth.py. HMAC,
--   base64, the JSON codec, and `str` and `int` of what is no text or number are a record of
--   operations. Auth/Base64: _b64url_decode and _b64url_encode over Python's base64, a record
--   with the form of what it encodes.
-- Server/Auth/Service: require_service of auth.py, and to_http_exception of errors.py.
-- Server/TurnApi and TurnApi/Handlers: POST /turn and POST /done of turn_api.py.
-- Server/Health: GET /readyz of turn_api.py. Server/Middleware: the correlation id of
--   middleware.py.
-- Server/Lifespan: the start-up and the shutdown of app_factory.py.
-- Server/App: create_app of app_factory.py, from a request and the state to a response and the
--   state: the routes behind the middleware and the authentication, the validation of a body,
--   and the exception handlers; App/Bodies: what is read from and put into a body. SHA-256,
--   the texts of JSON and of the collectors, and FastAPI's description of a bad body are
--   parameters.
-- Server/Interleaving: the event loop. A turn is accepted and its stream begins, with a write
--   of its input; other turns, POST /done and ticks run while the first superstep of the
--   stream does; then the stream goes on to its end, with a write if a superstep completes,
--   and the turn is concluded. A list of actions says in which order.
-- Server/Deletion, Sweeping, Serving, Turns, Answers, Lifecycle, Replay, Keys, Spared, Halves,
--   Isolation, Revival, Tokens, Minting, Padding, Settled, Gate, Correlation, CorrelationIds,
--   HexIds: the proofs about these. Server/Samples, Tests, TokenTests, SettingsTests and
--   InterleavingTests: concrete runs.
-- Ui/Events and Controllers: the events of controllers.py and its two generators, over the
--   sessions of Agent/Session. Ui/Display and Presenter: _filter_state_for_display,
--   _format_status and render of presenter.py. Ui/App: on_submit and on_new_session of app.py,
--   and a click as build_ui wires it, from screen to screen.
-- Ui/Views: a submission as the user sees it, without events. Ui/Streams, Screens,
--   Conversation, Xray: the proofs about these. Ui/Tests: concrete screens.
-- Scripts/MintToken: main of scripts/mint_token.py.
-- Scripts/Smoke: scripts/smoke_brainstorm.py over a machine, which sends requests and has
--   clocks and uuid4. Smoke/Probes: checks 1 to 4. Smoke/Tokens: the tokens it makes and the
--   counters it reads. Smoke/Turns: checks 5 and 6. Smoke/Done: check 7. Smoke/Main:
--   run_all_checks and main. Smoke/Deployed: the machine whose server is Server/App.
--   Smoke/Exits, Forgery, Deployed,
--   Refusal: the proofs about these. Scripts/Samples and Tests: whole runs.
--
-- Bounds. The fuel of Engine/Executor is LangGraph's recursion limit, so a run out of fuel is
--   a run that the limit stops; `steps_left` of Agent/Convergence is the fuel that the second
--   turn needs. The first turn is as long as the model asks for searches, and only the limit
--   bounds it. Clocks, counts and sizes are natural numbers; the gauge of active sessions and
--   the settings are integers.
--
-- Not modelled: the layout of the screen; logs, what the scripts print, and the fingerprints
--   that occur only there; the texts of the prompts; files of deployment. LangGraph writes a
--   thread with its input and after each superstep that completes: a turn that nothing
--   interferes with writes the last of these alone, and between others the input and the last.
--   Others act on the server only in the first superstep of a stream, and not at the awaits on
--   the database and on locks. The chunk that LangGraph yields for an interrupt is left out,
--   since no handler reads it. A lone surrogate in a text has no counterpart.
pub mod Prelude
pub mod Json
pub mod Table
pub mod Http
pub mod Protocol
pub mod Core
pub mod Agent
pub mod Server
pub mod Ui
pub mod Scripts
