-- ===== src/Lib.antt =====
-- MAP: the durable execution core of the platform. A request becomes a run, whose steps, effects, model invocations and
-- evidence go through the state machines of one frozen table. Work that must survive a crash is a job in a queue that
-- workers claim under leases. A job's handler acts on the outside world through the effect ledger, one row for each
-- effect key, and runs code in sandboxes under the sandbox ledger, one row for each invocation. What happens is written
-- as versioned events, which clients read from a stream of server-sent events. Changes of the configuration are written to
-- a state file under a compare-and-set and to a hash-chained table of audit events.
--
-- What models what:
--   StateMachine   map-business-backend/app/runtime/state_machine.py: the tables, the look-ups in them, the guard
--                  `validate_transition` and the cancel allow-list. Edges: the table's laws. Paths: guarded histories.
--   Jobs           map-business-backend/app/repositories/jobs.py over app/db/models/job.py: claim_next, heartbeat,
--                  complete, fail, cancel and get. Rows: tables by primary key. Claim, Fence, Retry: one call each.
--                  Evolution, History: sequences of calls by any workers. Exclusive: two claims. Runner, Commits and
--                  Heartbeat: app/workers/job_runner.py, JobRunner: one claimed job, its heartbeats and its handler.
--   Effects        map-business-backend/app/workers/job_runner.py, EffectGuard over app/db/models/effect.py: the
--                  statements. World: one caller among others, the clocks and the provider, with the guard's methods.
--                  Resolve: _resolve_dispatching. Guard: _dispatch_to_provider and run_effect_once. Fencing: one
--                  statement. Rows, History: sequences of statements. Decisions, Delivery: what run_effect_once leaves
--                  behind. Methods, Onward, Held, Quiet and Returns: how its loops come to an end. Terminal: effects
--                  whose outcome is recorded. Fresh: effects that nobody has dispatched.
--   Sandbox        map_core/map_core/service/sandbox_ledger.py: Memory is the in-memory ledger; Postgres has the statements
--                  of the ledger in the database and Operations its methods. Refinement, Takeover and Expired compare the
--                  two ledgers; History, Ownership and Leases are about sequences of statements by any callers.
--   Envelope       map-business-backend/app/runtime/event_envelope.py: the checks of a value, snapshots and thawing.
--                  Canonical: json.dumps and the size limit. Fields: the checks of one field. Events: EventEnvelope, with
--                  __post_init__, to_dict, from_dict, to_json, from_json, build and sse_frame. Mapping:
--                  app/runtime/error_mapping.py. Snapshot, Merging, Accepted, RoundTrip and Json: back and forth.
--                  Stored and StoredBack: the rows of events, app/services/run_event_stream.py.
--                  Written, Valid: what is accepted. Errors: what is raised. Printable: the characters of the JSON.
--   Sse            map-business-backend/app/services/sse.py: the frames of a text and the parser that is fed bytes. Utf8:
--                  Python's incremental decoder. Splitting, Chunks and Feeding: a stream in pieces. Lines, Frames,
--                  Fields and Envelopes: the frames of Envelope read back. Broken: line separators inside data.
--   Conversation   map-business-backend/app/services/conversation_service.py: what a frame is read as, with
--                  frame_data_json of sse.py and parse_run_event_data of run_event_stream.py. Turn: the loop over what the
--                  queue gives. Streams: the outcome and the whole stream. Completed, Sources: where a completed turn
--                  comes from. Messages: app/repositories/conversations.py, the table's unique index and
--                  app/services/message_reconciler.py; Rows, Stale, History and Replies: sequences of statements.
--   Config         map-business-backend/app/services/config_mutation.py over app/db/models/audit.py: append_audit_event.
--                  Record: the canonical text of an event.
--                  Verify: verify_chain_rows of app/api/audit_events.py. Store: prepare_update and apply_prepared of
--                  app/store.py. Applying: apply_mutation. Mutations: reconcile_config_mutations. Linked: appending and
--                  verifying. Evidence: two chains under one hash. Recovered, Audited: what reconciling and applying leave.
--   Base           the names that the others share, tests on numbers and list predicates.
--
-- Conventions: an UPDATE with its WHERE clause is one atomic function on its table and returns the rowcount; what other
-- transactions do happens between two statements. The cancel of a job is a read and a later write by its primary key, and now()
-- is the time at which the transaction began. Ids, owners and tokens are only compared, and are numbers; times are
-- microseconds. Fencing tokens, uuid4 in the code, come from a supply that never repeats one in the effect ledger.
-- A loop that polls until a deadline takes fuel: a round that goes on has either taken up a statement of another caller
-- or polled, which brings the deadline nearer, so that fuel above the number of interferences plus the budget in
-- microseconds is enough.
-- A Python value is a data type with one constructor for each kind that the code tells apart, a dict a list of its items
-- in order, a float its shortest decimal form; a text is the list of its code points where it is printed or parsed, and
-- a str with a lone surrogate, which no text of UTF-8 has, is a value of its own; the keys of dicts have none. A turn's
-- queue is the list of what it gives, with the time at which each chunk comes, and str of a value that is no string is an argument. An error is its code: the messages are not modelled.
-- uuid.UUID and datetime.fromisoformat are arguments, a test and a partial function, and json.loads is one too.
-- The loop that extracts frames has the text's length as fuel, and each round takes two characters at least.
-- The database refuses the flush of an audit event for what its table says, the unique indexes and the widths of the columns, and
-- a flag tells for each statement and commit whether it does so for a reason of its own.
-- SHA-256 is an argument, a function on texts. A state of the administration is known by its hash, and the state, its hash
-- and the JSON patch of two states are arguments. A call of apply_mutation takes the state file as it finds it at each of
-- its three reads; no other transaction commits to the audit tables during the call, and the columns of an event are read
-- back as they were written.
-- The takeover loop of the sandbox ledger has the five attempts of the code.
--
-- Not modelled: failures of the database driver in the queue and the effect ledger (a statement that raises ends the call
-- with the rows that the earlier statements left; the sandbox ledger has them), the pool of connections, logging,
-- JobRunner's endless loop, ArtifactRef, json_diff.py, redaction, the idempotency of requests, the format of the state file, the start of a turn and its pump task, the HTTP layer, the agents of map_core, the observability services and the front ends. The external provider is not part of the code, and any answers are allowed for it.
pub mod Base
pub mod StateMachine
pub mod Jobs
pub mod Effects
pub mod Sandbox
pub mod Envelope
pub mod Sse
pub mod Conversation
pub mod Config
