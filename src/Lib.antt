-- ===== src/Lib.antt =====
-- paper-collector-agent: a verification library of the agent's history, event log, tool
-- calls, indexing workflow and index workers.
--
-- The service runs an agent in conversations. Each run, with its messages, is kept by the history
-- store (app/history/chat_log.py); the events that a run sends to its user are appended to the
-- event log (app/history/stream_events.py), from which the broadcaster
-- (app/events/handlers/ipc_event_broadcaster.py) lets any number of followers read by a cursor.
-- A sub-agent of a run indexes the papers of a task (app/llm/graph/workflows/task_indexing),
-- waiting for a worker that claims the papers batch by batch (app/rag/processing), and the main
-- graph (app/llm/graph/main) works off the tool calls of the model.
--
-- Parts:
--   * Prelude: tests, lists, texts, tables as lists of rows, and results that may be exceptions.
--   * Json: the values of JSON columns, with `dict.get`, `update`, `pop`, truth and equality.
--   * StreamEvents: the table `agent_stream_events` and the functions of stream_events.py under
--     their names (`get` is `get_event`). Order has the invariant of the table, Reading and
--     Queries what the queries return.
--   * Broadcast: `iter_events`: `poll` is one read of up to 100 events, `follow` a sequence of
--     reads and of writes of other tasks. Cursor and Delivery have the laws.
--   * ChatLog: chat_log.py. Types has the tables of app/models/agent_history.py, Ids the checks of
--     identifiers, Store the transactions of `AgentHistoryStore` and the row queries, Turns
--     `start_turn` and the deletion of a conversation, Tools the batches of tool calls and their
--     results, Completion `complete_run`, Approval `claim_pending_action`, Interruption
--     `mark_interrupted` and `record_terminal_event_sequence`, Views the queries that only read,
--     with the pages of `list_messages` and `list_completed_turns_after`. Requests runs sequences of these,
--     Triples and Invariant have what each of them keeps, Locking and ApprovedOnce the approvals,
--     TerminalSequence what a run keeps of its last event, Tools/Arrivals and Tools/Batches the
--     results of a batch that arrive one after the other.
--   * Envelope: app/events/adapter.py and envelope.py: `event_from_envelope`, `sse_name_for` and
--     `event_data`. Names has the names that events are sent under, Payloads what their data carries.
--   * Persistence: app/events/handlers/persistence.py with app/history/transactions.py, and the dispatcher
--     of app/events/bus.py, over the history and the log. Stages says what a dispatch has done when it
--     returns or raises, Logged what a sequence of events leaves, Endings what is kept of a
--     terminal event.
--   * Indexing: the indexing of a task's papers. The file itself has the status of a task
--     (app/rag/processing/task_rag_status.py), Nodes and Workflow the graph of
--     app/llm/graph/workflows/task_indexing with its nodes under their names, Status what a status
--     says of the papers, Outcome and Success how the workflow ends.
--   * FileParser: app/rag/file_parser/file_parser.py. The file itself has the requests and their groups,
--     Batches `parse_files_result`, Blocks the source blocks of a PDF; Groups and Settled count what
--     happens to each file, Sources has the items that blocks come from.
--   * Processor: app/rag/processing/paper_rag_processor.py. The file itself has the papers and the
--     checksums of app/infrastructure/oss.py, Intake the first loop of `process_many` and Papers the rest.
--     Placing, Recording and Outcomes say what each paper gets, Sound what a result says, Parsing what the
--     processor does with the file parser.
--   * Runner: app/rag/processing/task_rag_batch_runner.py. The file itself has the active runs of
--     `TaskRagBatchRunner`, their listeners and events, Batch and Once `_run_once`, Worker `_run_task`.
--     Registry has the invariant of the runs, Events and Delivered those of the calls of their
--     listeners, Counts those of the summaries, Ends and
--     Termination how a worker ends, Reports the workflow that waits for it.
--   * Dispatch: app/llm/graph/main: the conditions and the nodes dispatch, confirm, tool and final, and
--     `work`, which runs the graph from one answer of the model to the next. Its fuel is the
--     number of nodes, and three for each call and two more are enough. InOrder has the law.
--   * Examples: concrete inputs.
--
-- How it is modelled:
--   * A column of JSON text is the value it decodes to; a query is a function on the list of the
--     rows in the order of their keys; an AUTOINCREMENT key is a counter that never falls.
--   * An operation on a session takes the tables and returns its result with the tables, or an
--     exception; `_run` rolls back, so an exception keeps no tables. Each operation is one step:
--     the row locks of the database order the operations on a conversation.
--   * Identifiers are texts; the statuses are enumerations with `other` for an unknown text; the
--     clock is a number in the store that requests may move. A user number is checked against the
--     largest BIGINT, and twenty digits, the fuel of `decimal_text`, write any such number.
--   * The paper service, the batch runner and the clock answer the indexing workflow through
--     `Replies`; the waiting loop runs over a list of observations, and one behind the deadline is
--     enough to end it. Dictionary updates are record updates; a missing key is `none`.
--   * The handler of events is a function on its text and the two databases that keeps what it wrote
--     when it raises; whether the log can be written is given with each event.
--   * `_chunked` runs on as much fuel as there are items, which is enough for chunks of at least one;
--     the MinerU client answers the parser through `Client`, and file ids are numbers.
--   * The parser, the object store and the indexes answer the processor through `Services`; the file
--     `paper-n` is known by n; the documents stand in the order in which their indexing ends.
--   * The worker's loop runs over a list of turns, the replies to one batch each; it needs no more
--     turns than papers are handed out, and one. A run object is known by a key, a listener by its own.
--     Registry has a cancellation between any two calls of listeners; in the turns of the loop it stands
--     in the acts of a turn that was cancelled, and every other event is published to the end.
--   * Assignments to a row object are a change of the row with its key.
--
-- Not modelled: the subscribers of the event bus and the contexts of events; SQL engines,
-- connections and locks; the audit columns of the event log; `list_conversations`, which only reads;
-- notifications, timeouts and the registry of followers; the percentages of the progress events,
-- logging, leases and the client of the paper service; the nodes solve, memory and subagent of the
-- agent graph, whose subagent results are a parameter; the other workflows, tools, memory, settings
-- and the transport.
pub mod Prelude
pub mod Json
pub mod StreamEvents
pub mod ChatLog
pub mod Broadcast
pub mod Indexing
pub mod FileParser
pub mod Processor
pub mod Runner
pub mod Envelope
pub mod Persistence
pub mod Dispatch
pub mod Examples
