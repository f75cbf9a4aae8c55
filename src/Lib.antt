-- ===== src/Lib.antt =====
-- FleetLM's orchestrator: the control plane that hands batch work units and interactive
-- generations to a fleet of nodes, each of which holds a whole model. A node opens one socket; it
-- registers, loads a model, asks for work at its own pace and answers. Clients submit batches or
-- single chats over HTTP.
--
-- Which file models what, with paths from the repository's root:
--   Config: orchestrator/config.py, the settings, an argument of what reads them.
--   Metrics: orchestrator/metrics.py, the counters and the events that move them; Percentile and
--     Report hold what is reported, NearestRank is about the percentile and Cumulative about the
--     totals.
--   Verification: orchestrator/verification.py, canaries, trust and replays, with Report for what is
--     shown; Accounts is about its counters, Suspects about who is suspected and Overhead
--     about the number of canaries.
--   Batch: orchestrator/batch.py. Data holds WorkUnit, Batch and BatchStore; Submit, Lease, Report,
--     Requeue and Cancel hold the methods that change the store, each a function from the store
--     to the store; Status the methods that read it, Totals what those tell. Machine is the state
--     machine of a unit, Evolve shows that the methods follow it, Valid the invariant of the store
--     and that they keep it, Leasing and Planting what lease and create_batch promise, History all
--     calls in any order, Answered and Requested follow a submission to its
--     results, and Spent is about why units fail.
--   Fleet: orchestrator/fleet, with Registry, Router and Heartbeat as the files there; Ready and
--     Sweep prove what is offered and what is evicted.
--   Session: orchestrator/session.py, with Stream for the generator, Waiting for its clock, Delivery
--     and Closing for what a request receives and how it ends.
--   Server: orchestrator/main.py, orchestrator/api and orchestrator/protocol.py. App is app.state,
--     Messages the frames of a socket, Handle and Connection the handler in api/nodes.py, Batches
--     api/batches.py, Completions and Events api/completions.py with Answering, Views the routes of
--     main.py that only look, Serve whatever else can reach the server. Kept is a rule for what it
--     keeps, and Safety applies it to the batch store; Requests puts interactive requests between
--     those events. Joining, Assigning and Leaving follow a node's connection.
--   Engine: node_agent/engine.py, with Mlx, LlamaCpp, Ollama and Mock for the engines and Choice for
--     create_engine. What a generation yields is a stream: its pieces, the exception that ends it
--     and the token counts. Mlx/Groups, Mlx/Slots and Mlx/Batched follow the batched decode.
--   NodeAgent: node_agent/__main__.py. Connection is the loop over connections. Asking and Backlog
--     bound what a node holds, Reports is about the units of a batch, Delivered follows them into
--     the server's store, Generation and Answer follow a generation from the node to the client.
--   System: the server and its nodes together. What can happen next is a relation on worlds; Nodes
--     follows what a node holds, Provenance and Results what becomes of it in the store, Answers a
--     batch from its submission on.
--   CommandLine: node_agent/cli.py. Urls is to_ws_url, Requests the reading of a file with Accepted
--     for its way into a batch, Submit the batch command with Polling for its patience, Workload and
--     Bench the benchmark, Machine the doctor, the start of a local fleet and the options.
--   Base: dicts as association lists, lists, texts and tests that the parts share.
--
-- Conventions. Identifiers, of nodes too, are numbers: the program only compares them. The model
-- leaves out the empty node identifier, which the clean-up of a connection takes for none. Times
-- are whole microseconds, rates and scores whole millionths; the clock is an argument, read once
-- per call. What comes from outside is an argument: uuid4's identifiers, hashlib's digest and
-- difflib's ratio (Verification.Primitives), hmac.compare_digest, the canary file's content,
-- mlx-lm (Engine.Mlx.MlxLib), llama.cpp, Ollama's replies, str.lower, json.loads and urlparse.
-- The fields of a node's messages have their types, and token counts are at least 0, which the code
-- does not check.
-- The event loop runs one call at a time, and the methods of BatchStore hold its lock, so a history
-- is a sequence of steps. Sharing is kept where it shows: a node's object is named by its socket,
-- since a request holds it after the node has left the registry.
--
-- There is no fuel but that of Session.Waiting.clocked and that of a decimal print, one more than
-- the number, which has no more digits than that: every loop is structural, over the queue, a dict
-- or the rounds of a stream. The fuel of clocked is one more than the events and calls there are.
-- The time that a client takes between texts is left out there. A request is handed to a node
-- without a pause, so that its two ways to lower the node's load agree.
-- Not modelled: what the command line prints, argparse, the loading of models by the libraries, pages
-- and JSON, and logging.
pub mod Base
pub mod Config
pub mod Metrics
pub mod Verification
pub mod Batch
pub mod Fleet
pub mod Session
pub mod Server
pub mod Engine
pub mod NodeAgent
pub mod CommandLine
pub mod System
