-- ===== src/Lib.antt =====
-- A model of the yeetllm appliance: several vLLM engines behind one router on one host or on a
-- cluster of hosts, described by one configuration. Paths are from the repository's root.
--
-- Common: what the other modules share. `Common.Dict` is Python's dictionary in the order of
-- insertion, `Common.Text` its strings and bytes as lists of numbers, `Common.Json` the values of
-- `json.loads`, and `Result` a value or a raised exception.
-- Config (src/yeetllm/config.py): `Types` has the fields of the pydantic models, `Fields` and
-- `ExtraArgs` the validators of single fields, `Global` the check of identifiers and GPUs across
-- models, `Runtime` the check against a host (`validate_runtime`), `Remote` the fetch of a
-- configuration (`fetch_remote_config`), with the addresses that it asks, and `LocalRank` the rank of
-- a local adapter. `Ownership`, `Claims`, `ExtraArgs.Spellings`, `Runtime.Ranks`, `Remote.Accepted`,
-- `Remote.Fetched` and `LocalRank.Named` have the proofs.
-- Registry (src/yeetllm/registry.py): `build_registry`, from the configuration to the engines, their
-- ports and the identifiers that select them. The router reads the registry from the state document.
-- Router (src/yeetllm/router.py): `Affinity` is `AffinityMap`, `Headers` the two header filters
-- and the headers of a response, `Extract` finds the model of a request and the identifier of a
-- response, `Sse` is `SSEIdParser`, `Models` the model list and what is remembered of a whole
-- response, and `Proxy` decides where a request goes.
-- Cluster (src/yeetllm/cluster.py): `Detection` is `detect_cluster`, `Ports` is
-- `validate_cluster_ports`, and `Coordinator` is `ClusterCoordinator`, whose calls are steps from
-- state to state in `Coordinator.History`.
-- Commands (src/yeetllm/commands.py): the command line and the environment of an engine.
-- Adapters (src/yeetllm/adapters.py): the adapters of a model are made local.
-- Processes (src/yeetllm/processes.py): what is started, and `Processes.Logs`, which cuts output into
-- log lines.
-- Supervisor (src/yeetllm/supervisor.py, src/yeetllm/state.py): `Supervisor.State` is the document and
-- the store that publishes it, `Supervisor` the operations that the parts share, `Validation` what is
-- checked before anything starts, `Boot` the supervisor before its engines start, `Startup` the start
-- of the engines in batches and the wait for one of them, `Monitor` one round of the monitor, and
-- `Worker` the loop of a worker, whose polls `Worker.Polling` sends to the coordinator of `Cluster`.
-- Healthcheck (src/yeetllm/healthcheck.py): the verdict on the published document.
-- Ssh (src/yeetllm/ssh.py): the authorized keys and the decision to start the SSH server.
-- Cli (src/yeetllm/cli.py): the checks of the command `validate`; `Cli.Agreement` compares them with
-- the supervisor's.
-- Tests: runs on concrete data.
--
-- Python's exceptions are values; times are ticks of the clock that a call reads, and a call is given
-- them. Integers are not bounded in Python, nor here. The loop of `SSEIdParser.feed` runs on fuel, the
-- length of its buffer: each turn takes at least two bytes; the loops on a process's output run on the
-- number of bytes, of which each turn takes one or more; `chunked` on the number of values; the wait
-- for an engine on its timeout, since each round sleeps for two seconds; and the worker's loop on the
-- rounds that are looked at. All other loops go through a list. Tasks that `asyncio.gather` runs
-- together run one after the other, as each writes only what belongs to its engine.
--
-- Parameters stand for `json.loads`, `json.dumps`, `parse_qs`, UTF-8, `Path`, the environment, the
-- check of a network interface and the resolver of adapter ranks. `int` and the stripping of spaces
-- know ASCII digits and the spaces of `str.strip`. What pydantic checks of a field's type and bounds is
-- not modelled, nor the exchange with an engine, the reading and parsing of a configuration file, the
-- supervisor's shutdown and its preparation of directories, signals, the generation of SSH host keys,
-- errors of writing a file, the commands `serve` and `status` and the parsing of arguments. What a process, a probe, a poll or a
-- download gives is an argument of the operation that uses it.
pub mod Common
pub mod Config
pub mod Registry
pub mod Router
pub mod Cluster
pub mod Commands
pub mod Processes
pub mod Supervisor
pub mod Healthcheck
pub mod Ssh
pub mod Adapters
pub mod Cli
pub mod Tests
