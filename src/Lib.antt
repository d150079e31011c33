-- ===== src/Lib.antt =====
-- A verification library of coda-node, the self-hosted QPU node runtime (src/coda_node). A node takes
-- jobs from a Redis stream, hands each to an executor, and posts its result to the cloud.
--
-- Which file models which part (paths from the repository's root):
--
-- - Ir, Ir/Gates: src/coda_node/server/ir.py. The tables GATE_SPECS and LEGAL_GATES, the classes, their
--   validators and `from_json`. Pydantic's decoding of JSON and of field types is the parameter
--   `decode`. A float is its bit pattern. Ir/Validity describes the constraints without loops, and
--   Ir/Decoding relates them to `from_json`.
-- - Webhook/Payload, Webhook/Client: src/coda_node/server/webhook.py. `WebhookPayload.to_dict` and
--   `WebhookClient._post_with_retry`, `send_result`, `send_error`. The record `Env` is the HTTP library
--   and the signing of tokens; `close` and the headers are not modelled. Webhook/Retry and Course have
--   the proofs.
-- - Consumer/State: the fields of RedisConsumer in src/coda_node/server/consumer.py (`World`), and the
--   outside (`Env`): Redis, the executor, the clock, the event loop. At each call the outside gives any
--   answer or raises anything; every call is an entry of the trace of `World`.
-- - Consumer/Redis: `_decode_fields`, `_safe_hset`, `_safe_xack`, `_has_cancel_signal`,
--   `_get_job_status`, `_mark_job_cancelled`, `_request_runner_cancel`.
-- - Consumer/Job: `_run_job_with_cancellation` (`run_job`, with its loop `poll`) and `_process_message`.
--   Job/Calm, Posting and Reported follow a job that nothing disturbs to its webhook; the other child
--   modules allow the outside anything.
-- - Consumer/Batch: `_process_batch` and the delivery of its results; Batch/Checked,
--   Settled and Foreign are about the first, Batch/Single about one delivery.
-- - Consumer/Loop: `setup`, `recover_pending`, `consume_loop`, `stop` and `drain`. Loop/Recovery is
--   about `recover_pending`, Loop/Draining about `drain`, Loop/Backoff about rounds that lose the
--   connection, Loop/FailedDelivery about those after a failed delivery.
-- - Consumer/Trace: what the proofs read off a trace.
-- - Values: the JSON values that configuration and provisioning read and write.
-- - Config: the fields and the URLs of Settings in src/coda_node/server/config.py. Config/Persisted has
--   `load_persisted_runtime_config` and `merge_persisted_runtime_config` over a snapshot of the files,
--   Config/Device the executor factory in the device configuration and the validators of the fields.
-- - Executor: src/coda_node/server/executor.py, `NoopExecutor.run` and `load_executor` with its helpers;
--   Executor/Packages, Choice and Resolution have the proofs.
--   Imported modules, the objects in them and the list of packages are the parameter `Modules`.
-- - Qasm: `openqasm_to_ir` and `ir_to_openqasm` of src/coda_node/server/qasm.py, line by line.
--   Qasm/Scanning has the regular expressions as recursive descent over characters, Qasm/Gates the
--   conversion of one gate, both ways. Qasm/Printed, Layout, Unbroken, Instructions, Inverse and
--   Statements lead to Qasm/RoundTrip and Circuits; Qasm/Accepted says what is read and what is printed.
-- - Daemon: src/coda_node/server/daemon.py; Daemon/State has the pid file and the outside.
--   Daemon/Recorded and Register follow the pid file, Daemon/Stopping, Signals and Waiting are about
--   `stop_daemon`, Daemon/Tail about `tail_daemon_log`.
-- - Heartbeat: HeartbeatClient of src/coda_node/server/heartbeat.py, over the state of the consumer.
-- - Tokens: src/coda_node/server/auth.py, with PyJWT and cryptography as the parameter `Jwt`.
-- - Application: the lifespan of `create_app` in src/coda_node/server/app.py, over the states of the parts
--   above: `boot` up to the `yield`, `shut_down` after it, and the probe `ready`. Application/Topology is
--   src/coda_node/server/device_topology.py; Application/Startup and Shutdown have the proofs.
-- - Cli: `main` of src/coda_node/server/cli.py from the parsed arguments on, and its commands, over the
--   states of the daemon and of the VPN service. Cli/State has the arguments, the files and the outside,
--   Cli/Screen what is printed, Cli/Reset `_read_reset_paths` and `_reset`. Cli/Removal, Wiped and
--   Listed follow the files of a reset, Cli/Stopped the pid file after a stop, and Cli/Launched and
--   Started, with Daemon/Spawns, the process that a start leaves.
-- - Vpn/Interfaces: `detect_tun_interface` and its parsers in src/coda_node/vpn/guard.py. The output of
--   the commands and `json.loads` are parameters.
-- - Vpn/Guard: VPNGuard, its health check `preflight`, whose parts are `check_dns` and `check_probes`,
--   and `watch`. Vpn/Guard/Grounds, Verdicts, Readiness and Alternation have the proofs, Vpn/Guard/Permissions has
--   `validate_key_permissions`.
-- - Vpn/Profile: `_validate_vpn_profile` in src/coda_node/vpn/service.py.
-- - Vpn/Service: the rest of that file. State has the settings and the outside, Connect the connect
--   request with its retries, Daemon the files and the OpenVPN process, Bundle `apply_node_bundle`, and
--   Lifecycle `connect_settings` and `ensure_persisted_vpn`.
--
-- Stateful code is written in the monad `Action` of Effects/Actions, a function from the state to a
-- result and the next state; an exception is a `raise` that keeps the state, and `try` and `finally` are
-- those of Python. `Post` and `Keeps` of Effects/Rules state what an action does to the state, `Sound`
-- of Effects/Results what a computation without a state returns. Effects/Parts runs an action on a part
-- of a larger state. Prelude/Splitting and Prelude/Numerals have lemmas on `split`, `strip` and `int` of
-- Python.
--
-- Loops: the `while` loop of `consume_loop` and that of `watch` run for a given number of rounds, and the
-- theorems about them hold for every number. The polling loop of a job runs as often as the executor's
-- task needs waits, which the outside chooses. The retry loops have as many rounds as the client allows
-- attempts. The wait for the tunnel runs for a number of rounds that its callers pass; a RuntimeError
-- stands for a wait that goes on. So does the wait of `stop_daemon`, where Daemon/Waiting says how many
-- rounds are enough; the command line passes a number of rounds on. The loop of the heartbeat runs for a
-- given number of rounds. Everything else recurses on a list. `2.0 ** n` is exact below 2.0 ** 1024, where Python raises OverflowError.
--
-- The background delivery of a batch is a value of the field `pending_batch_delivery` that runs when it
-- is awaited, one job after the other, in the order of the batch. It really runs beside the loop, which
-- awaits it before it starts the next batch, and `asyncio.gather` runs its jobs beside each other: the
-- order of their webhooks and acknowledgements is not that of the model, and after a first failure the
-- others go on. Only single deliveries are the subject of a theorem. While `drain`
-- waits, the loop and its tasks may leave any state (`meanwhile`).
-- `stop` may be called between any two rounds of the loop. A message counts as acknowledged where XACK was
-- sent for it, whatever Redis answered.
--
-- Not modelled: the parser that src/coda_node/server/cli.py hands to argparse and its set-up of the
-- logging; the classes of src/coda_node/errors.py, which have no behaviour of their own; the packages'
-- `__init__` files, which pass names on.
pub mod Application
pub mod Cli
pub mod Tokens
pub mod Prelude
pub mod Effects
pub mod Ir
pub mod Qasm
pub mod Webhook
pub mod Consumer
pub mod Values
pub mod Config
pub mod Executor
pub mod Daemon
pub mod Heartbeat
pub mod Vpn
