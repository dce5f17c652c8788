-- ===== src/Lib.antt =====
-- A model of the concord server: a collaborative editor whose projects run code on workers.
--
-- The program has a FastAPI backend (backend/app), a worker process (worker/app/worker.py) that
-- imports the backend's modules, PostgreSQL for rows and Redis for the queue, the debug keys and the
-- events. A run is inserted and queued by the API, claimed and carried out by a worker, cancelled by
-- the API and failed by a sweeper when its worker died; each of them changes the row's status with
-- one conditional write that also records an event.
--
-- Which file models what:
--   Status      backend/app/models/execution.py, the statuses and the transition table
--   Roles       backend/app/models/session.py and the rank checks of backend/app/core/deps.py
--   Database    the rows of backend/app/models and `get_member` of backend/app/core/deps.py
--   Execution   backend/app/services/execution_state.py, and `_transition` and the claim of the
--               worker; Cases, Audit and Progress hold the case analyses and the invariants
--   Queue       backend/app/realtime/execution_queue.py: the priority, the selection, the dequeue
--   Control     backend/app/debug/control.py, the debug keys in Redis
--   Runs        backend/app/api/executions.py: `start_run` up to its commit; Runs.Delivery has the
--               delivery and its compensation, Runs.Cancel `cancel_execution`
--   Worker      worker/app/worker.py: `_run_one` and the outcome of `_run_debug`
--   Sweep       backend/app/realtime/orphan_sweep.py, one sweep
--   Members     backend/app/api/projects.py and backend/app/api/invitations.py
--   Folders     backend/app/api/folders.py without the deletion: Walk has the check of a parent
--   Breakpoints backend/app/api/breakpoints.py: one file's breakpoints, and who may send a command
--   Awareness   backend/app/realtime/awareness.py: `RoomAwareness`; Wire has the wire format
--   Changes     backend/app/realtime/changes.py: the lines of an edit and their authors
--   Gateway     backend/app/realtime/gateway.py: the messages of a file's socket
--   Snapshots   backend/app/api/snapshots.py and backend/app/models/snapshot.py
--   Search      backend/app/api/search.py
--   Runtime     backend/app/runtime/registry.py
--   Agent       backend/app/agent/tools.py, with the handlers in Tools; Agent.Loop is
--               backend/app/agent/runner.py
--   Login       backend/app/core/login_limiter.py and backend/app/api/auth.py
--   Crdt        backend/app/realtime/crdt.py over `pycrdt`; Laws has what is relied on of it
--   Rooms       backend/app/realtime/manager.py: `Room`, and Rooms.Manager the class
--               `RoomManager`; Rooms.Edit and `open_room` are backend/app/realtime/rooms.py
--   Documents   backend/app/models/document_version.py and file_change.py
--   Checkpoint  backend/app/realtime/checkpoint.py: `versions_to_prune`; Save has the writing of
--               versions and changes
--   Files       backend/app/api/files.py; Versions has saving and restoring, and the function of
--               backend/app/realtime/source.py
--   Prelude     shared helpers; Tests the theorems at concrete inputs
--
-- How state is modelled. The database is one record of tables, each a list of rows; a handler takes
-- it and gives the one it commits, or the exception's HTTP status. All tables draw ids from one
-- sequence. A transaction is atomic; where a handler waits between its read and its write, `others`
-- says what other processes have committed meanwhile. In `_transition` and `_fail_undelivered_run`
-- the load of the row and the conditional write after it are one step; a copy that is stale by then
-- is a case of `change_status`. Timestamps are microseconds, and milliseconds in Login. Calls into the
-- sandbox, Docker, the debugger and Redis are arguments that say how the call went. A JSON value is
-- a parameter. The text of an exception's detail is left out, and an actor outside the three that
-- the code uses cannot be written. The scores of the queue are exact numbers over a common
-- denominator where the program uses floats, and so are the shares of a window's lines. `pycrdt`,
-- `difflib` and the JSON package are arguments; of the first two and of the round trip of the third
-- there are named hypotheses, which Tests shows to hold of small examples. The tables of stored
-- texts are a record of their own. A room's lock makes its operations atomic, so they are functions;
-- the queues of the connections are kept in one place, because a room and the manager share them.
--
-- Bounds. `cancel_execution` loops until its write wins or the run is finished; the model's loop has
-- five rounds, and each lost round moves the run on in a table with chains of four steps. The walk of
-- `_check_parent` has a round more than there are folders, and sees another folder in each. A dequeue
-- makes at most eight attempts, as the program's does. The other loops are over lists.
--
-- Not modelled: the activity list; the project socket; the debug adapter;
-- the assistant's requests and its providers; the sandbox; the frontend, scripts and deployment.
-- Pub/sub, logging and sockets are input and output.
pub mod Prelude
pub mod Status
pub mod Roles
pub mod Database
pub mod Execution
pub mod Queue
pub mod Control
pub mod Runs
pub mod Worker
pub mod Sweep
pub mod Members
pub mod Awareness
mod Tests
pub mod Folders
pub mod Breakpoints
pub mod Changes
pub mod Gateway
pub mod Search
pub mod Snapshots
pub mod Login
pub mod Runtime
pub mod Agent
pub mod Crdt
pub mod Documents
pub mod Rooms
pub mod Checkpoint
pub mod Files
