-- ===== src/TcpServer/Refines.antt =====
-- tcp/TcpServer.cpp: its lifecycle is that of the server, and what runs while it runs.
use mathlib.Core.Path.{subst}
use uwpx_push_server.Common.{
  ◌≢◌, ◌&&◌, not, ◌≡◌, refl, ap, Bool, true, false, some, Bool-cases, inl, inr, arith,
}
use uwpx_push_server.PushServer.Lifecycle.{
  Caller, idle, stopping, requesting, joining, joined, returned,
}
use uwpx_push_server.PushServer.Lifecycle
use uwpx_push_server.TcpServer.{
  TcpServerState, Worker, TcpServer, started, stop, thread_run, Steps, here, stop_step, run_step,
}

-- the state as a state of the server
abbrev pub as_server_state : TcpServerState → Lifecycle.ServerState
as_server_state TcpServerState.not_running = Lifecycle.ServerState.not_running
as_server_state TcpServerState.starting = Lifecycle.ServerState.starting
as_server_state TcpServerState.running = Lifecycle.ServerState.running
as_server_state TcpServerState.stop_requested = Lifecycle.ServerState.stop_requested
as_server_state TcpServerState.waiting_for_join = Lifecycle.ServerState.waiting_for_join

-- The place in threadRun as one in the thread of the server: starting and stopping the service and
-- the server happens at the test of the loop and behind the loop.
abbrev pub as_server_worker : Worker → Lifecycle.Worker
as_server_worker Worker.asserting = Lifecycle.Worker.entered
as_server_worker Worker.comparing = Lifecycle.Worker.checked
as_server_worker Worker.accepting = Lifecycle.Worker.accepted
as_server_worker Worker.starting_service = Lifecycle.Worker.testing
as_server_worker Worker.starting_server = Lifecycle.Worker.testing
as_server_worker Worker.testing = Lifecycle.Worker.testing
as_server_worker Worker.sleeping = Lifecycle.Worker.working
as_server_worker Worker.stopping_server = Lifecycle.Worker.leaving
as_server_worker Worker.stopping_service = Lifecycle.Worker.leaving
as_server_worker Worker.leaving = Lifecycle.Worker.leaving
as_server_worker Worker.finished = Lifecycle.Worker.finished
as_server_worker Worker.aborted = Lifecycle.Worker.aborted

abbrev pub as_server : TcpServer → Lifecycle.Config
as_server c = record {
  state = as_server_state c.state;
  caller = c.caller;
  worker = as_server_worker c.worker;
}

stop_refines :
    (c d : TcpServer) → stop c ≡ some d → Lifecycle.stop (as_server c) ≡ some (as_server d)
unfolding stop Lifecycle.stop
stop_refines c d h = ground arith

-- the steps that start and stop the service and the server
abbrev is_silent : Worker → Bool
is_silent Worker.starting_service = true
is_silent Worker.starting_server = true
is_silent Worker.stopping_server = true
is_silent Worker.stopping_service = true
is_silent _ = false

silent_refines :
    (c d : TcpServer)
    → is_silent c.worker ≡ true
    → thread_run c ≡ some d
    → as_server c ≡ as_server d
unfolding thread_run
silent_refines c d s h = ground arith

run_refines :
    (c d : TcpServer)
    → is_silent c.worker ≡ false
    → thread_run c ≡ some d
    → Lifecycle.thread_run (as_server c) ≡ some (as_server d)
unfolding thread_run Lifecycle.thread_run
run_refines c d s h = ground arith

-- Each run of the TCP server is a run of the lifecycle of the server: the steps that start and stop
-- the service and the server change nothing there, and each other step is one of its steps.
pub Steps-Refines : (c d : TcpServer) → Steps c d → Lifecycle.Steps (as_server c) (as_server d)
Steps-Refines c d here = Lifecycle.Steps.here
Steps-Refines c d (stop_step {d = b} p e) =
    Lifecycle.Steps.stop_step (Steps-Refines c b p) (stop_refines b d e)
Steps-Refines c d (run_step {d = b} p e) = elim (Bool-cases (is_silent b.worker)) [
  | inl s ↦
      subst (λ x. Lifecycle.Steps (as_server c) x) (silent_refines b d s e) (Steps-Refines c b p)
  | inr s ↦ Lifecycle.Steps.run_step (Steps-Refines c b p) (run_refines b d s e)
]

-- What runs, by the place in threadRun.
abbrev serves : Worker → Bool
serves Worker.starting_server = true
serves Worker.testing = true
serves Worker.sleeping = true
serves Worker.stopping_server = true
serves Worker.stopping_service = true
serves _ = false

abbrev listens : Worker → Bool
listens Worker.testing = true
listens Worker.sleeping = true
listens Worker.stopping_server = true
listens _ = false

record Serves (c : TcpServer) : Type 0 where
  pub of_service : c.service ≡ serves c.worker
  pub of_server : c.listening ≡ listens c.worker

stop-Serves : (c d : TcpServer) → Serves c → stop c ≡ some d → Serves d
unfolding stop
stop-Serves c d s h = ground arith

run-Serves : (c d : TcpServer) → Serves c → thread_run c ≡ some d → Serves d
unfolding thread_run
run-Serves c d s h = ground arith

Steps-Serves : (c : TcpServer) → Steps started c → Serves c
Steps-Serves c here = record { of_service = refl; of_server = refl }
Steps-Serves c (stop_step {d} p e) = stop-Serves d c (Steps-Serves d p) e
Steps-Serves c (run_step {d} p e) = run-Serves d c (Steps-Serves d p) e

-- What holds of a run: by where the caller of stop is.
abbrev pub IsDown : Caller → TcpServer → Type 0
IsDown returned c =
    (c.worker ≡ Worker.finished)
    × (c.state ≡ TcpServerState.not_running)
    × (c.service ≡ false)
    × (c.listening ≡ false)
IsDown _ c = (c.worker ≢ Worker.aborted) × ((c.listening && not c.service) ≡ false)

Serves-IsDown :
    (k : Caller) (c : TcpServer)
    → Lifecycle.IsStopped k (as_server_worker c.worker) (as_server_state c.state)
    → Serves c
    → IsDown k c
Serves-IsDown returned c h s = (ground arith, ground arith, ground arith, ground arith)
Serves-IsDown idle c h s = (λ e. h (ap as_server_worker e), ground arith)
Serves-IsDown stopping c h s = (λ e. h (ap as_server_worker e), ground arith)
Serves-IsDown requesting c h s = (λ e. h (ap as_server_worker e), ground arith)
Serves-IsDown joining c h s = (λ e. h (ap as_server_worker e), ground arith)
Serves-IsDown joined c h s = (λ e. h (ap as_server_worker e), ground arith)

-- However the two threads interleave after start: the assertion of threadRun does not fail and the
-- server listens only while the service runs; and when stop has returned, threadRun is at its end,
-- the state is NOT_RUNNING, and neither the service nor the server runs.
pub Steps-IsDown : (c : TcpServer) → Steps started c → IsDown c.caller c
Steps-IsDown c p =
    Serves-IsDown c.caller c (Lifecycle.Steps-IsStopped (as_server c) (Steps-Refines started c p))
      (Steps-Serves c p)

-- A stop that is requested, in a run after start, while threadRun is between its test of STARTING
-- and its assignment of RUNNING is lost, as that of the server: whatever steps follow, stop stays
-- at join.
pub stop_lost :
    (c d : TcpServer)
    → Steps started c
    → c.caller ≡ joining
    → c.worker ≡ Worker.accepting
    → Steps c d
    → d.caller ≡ joining
stop_lost c d q j a p =
    (Lifecycle.stop_lost (as_server c) (as_server d) (Steps-Refines started c q) j
      (ap as_server_worker a) (Steps-Refines c d p)).0
