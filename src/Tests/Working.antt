-- ===== src/Tests/Working.antt =====
-- A worker of a cluster of two nodes, the SSH server, and the log lines of a process.
use yeetllm.Common.{
  ℕ, suc, ◌≡◌, refl, arith, true, false, ◌&&◌, none, some, [], ◌∷◌, all, contains, is_subset,
  text_eq, text_beq, nat_eq, Result, ok, err, keep,
}
use yeetllm.Common.Dict.{Dict, keys, lookup}
use yeetllm.Common.Text.{Text, Bytes, codes}
use yeetllm.Common.Text.Slices.{concat}
use yeetllm.Config.Types.{ModelConfig}
use yeetllm.Cluster.Coordinator.{Coordinator, coordinator, Response, process, store}
use yeetllm.Processes.Logs.{read_chunk, read}
use yeetllm.Processes.Logs.Framing.{HasRead, read_chunk-HasRead}
use yeetllm.Processes.Logs.Framing
use yeetllm.Ssh.{Machine, prepare_ssh}
use yeetllm.Ssh.Keys.{IsSafe, prepare_ssh-IsSafe}
use yeetllm.Supervisor.State.{EngineState, Phase}
use yeetllm.Supervisor.Startup.{slots, indexed}
use yeetllm.Supervisor.Startup.Settling.{names}
use yeetllm.Supervisor.Worker.{
  Worker, WorkerLook, again, new_worker, note_exits, follow, worker_round, worker_run,
  disconnect_limit, payload,
}
use yeetllm.Supervisor.Worker.Tracking.{IsWorking}
use yeetllm.Supervisor.Worker.Following.{follow-desired}
use yeetllm.Supervisor.Worker.Rounds.{worker_round-IsWorking, note_exits-accepted}
use yeetllm.Supervisor.Worker.Disconnects.{GivesUp, worker_run-unreachable}
use yeetllm.Tests.Configs.{two_models}
use yeetllm.Tests.Supervising.{supervisor_in}

abbrev demo_worker : Worker
demo_worker = new_worker (supervisor_in EngineState.pending Phase.starting)

demo_worker-IsWorking : IsWorking demo_worker
unfolding contains lookup
demo_worker-IsWorking = record {
  distinct = tt;
  known = λ j m. absurd (cc m);
  states = λ j v h. absurd (cc h);
}

abbrev resolve_none : ModelConfig → Result Text (Dict Text Text)
resolve_none m = ok []

abbrev look_with : ℕ → Result Text Response → WorkerLook
look_with clock answer = record {
  stopping = false;
  now = 1000;
  clock = clock;
  exits = λ name. none;
  later_exits = λ name. none;
  poll = λ engines. answer;
  environ = [];
  path_of = λ s. s;
  dumps = λ fs. [];
  resolve = resolve_none;
  spawn = λ p. ok 9;
}

abbrev wants_a : Response
wants_a = record { generation = 1; desired = codes "a" ∷ []; shutdown = false }

follow-desired_example :
    contains
      (keys (follow (look_with 0 (ok wants_a)) (codes "a" ∷ []) demo_worker).engine_states)
      (codes "b")
    ≡ (contains (names (slots demo_worker.supervisor)) (codes "b")
        && contains (codes "a" ∷ []) (codes "b"))
follow-desired_example =
    follow-desired (look_with 0 (ok wants_a)) (codes "a" ∷ []) demo_worker (codes "b")
      demo_worker-IsWorking

abbrev followed : Worker
followed =
    follow (look_with 0 (ok wants_a)) (codes "a" ∷ [])
      (record demo_worker { connected_once = true })

followed_round : worker_round (look_with 0 (ok wants_a)) demo_worker ≡ again followed
unfolding worker_round note_exits
followed_round = refl

worker_round-IsWorking_example : IsWorking followed
worker_round-IsWorking_example =
    worker_round-IsWorking (look_with 0 (ok wants_a)) demo_worker followed demo_worker-IsWorking
      followed_round

abbrev demo_coordinator : Coordinator
demo_coordinator = coordinator 2 (codes "hash") (codes "a" ∷ codes "b" ∷ [])

demo_allowed :
    is_subset (names (slots demo_worker.supervisor)) demo_coordinator.allowed_engines ≡ true
unfolding names indexed all contains text_beq
demo_allowed = refl

note_exits-accepted_example :
    process 7
      (payload 1
        (codes "hash")
        (note_exits (look_with 0 (ok wants_a)) [] demo_worker).engine_states)
      demo_coordinator
    ≡ ok (
        store 7 demo_coordinator 1
          (note_exits (look_with 0 (ok wants_a)) [] demo_worker).engine_states)
note_exits-accepted_example =
    note_exits-accepted (look_with 0 (ok wants_a)) demo_worker 7 1 demo_coordinator
      demo_worker-IsWorking (omega arith) (omega arith) demo_allowed

abbrev a_runs : Dict Text Text
a_runs = (codes "a", codes "running") ∷ []

worker_run-unreachable_example : GivesUp (
    worker_run
      (suc (suc (disconnect_limit demo_worker)))
      (λ k. look_with k (err (codes "refused")))
      0
      demo_worker)
worker_run-unreachable_example =
    worker_run-unreachable (λ k. look_with k (err (codes "refused"))) demo_worker (λ k. refl)
      (λ k engines. (codes "refused", refl)) (λ j. omega arith) refl

abbrev demo_machine : Machine
demo_machine = record {
  env = (codes "SSH_PUBLIC_KEY", codes "ssh-ed25519 AAAA user") ∷ [];
  mounted_path = codes "/root/.ssh/authorized_keys";
  mounted = ok none;
  sshd_config = codes "/etc/ssh/sshd_config";
  keygen = λ content. some (record { status = 0; stdout = codes "256 SHA256:x user" });
  hosts_keys = true;
  accepts = true;
}

prepare_ssh-IsSafe_example :
    IsSafe demo_machine two_models.ssh true none (prepare_ssh demo_machine two_models.ssh true none)
prepare_ssh-IsSafe_example = prepare_ssh-IsSafe demo_machine two_models.ssh true none

abbrev partial : Bytes
partial = 97 ∷ 98 ∷ []

partial-IsPlain : Framing.IsPlain partial
unfolding keep
partial-IsPlain = refl

read_chunk-HasRead_example :
    HasRead (read_chunk partial (99 ∷ 10 ∷ 100 ∷ [])) partial (99 ∷ 10 ∷ 100 ∷ [])
read_chunk-HasRead_example = read_chunk-HasRead partial (99 ∷ 10 ∷ 100 ∷ []) partial-IsPlain

read-concat_example :
    concat (read [] ((97 ∷ 98 ∷ []) ∷ (13 ∷ 10 ∷ 99 ∷ []) ∷ []))
    ≡ Framing.text_of (concat ((97 ∷ 98 ∷ []) ∷ (13 ∷ 10 ∷ 99 ∷ []) ∷ []))
read-concat_example = Framing.read-concat ((97 ∷ 98 ∷ []) ∷ (13 ∷ 10 ∷ 99 ∷ []) ∷ [])
