-- ===== src/IoThread/Stopping.antt =====
-- io/IoThread.cpp: what stop and the exit of the user come to.
use uwpx_push_server.Common.{
  ◌≡◌, ◌≢◌, refl, ℕ, zero, suc, Bool, true, false, ◌&&◌, ◌||◌, Option, none, some, arith,
}
use uwpx_push_server.IoThread.{
  IoThreadState, Caller, Worker, IoThread, is_starting, is_running, is_waiting, is_stop_requested,
  is_finished, started, stop, user_exit, thread_run, Steps, here, stop_step, run_step, exit_step,
}

abbrev is_not_running : IoThreadState → Bool
is_not_running IoThreadState.not_running = true
is_not_running _ = false

-- the states of the thread before main has seen WAITING_FOR_JOIN
abbrev runs_as : Worker → IoThreadState → Bool
runs_as Worker.asserting s = is_starting s
runs_as Worker.comparing s = is_starting s
runs_as Worker.accepting s = is_starting s
runs_as Worker.entering s = is_running s
runs_as Worker.looping s = is_running s || is_stop_requested s
runs_as Worker.exiting s = is_stop_requested s
runs_as Worker.leaving s = is_running s || is_stop_requested s
runs_as Worker.finished s = is_waiting s
runs_as Worker.aborted s = false

-- What holds of the caller, the worker and the state together.
abbrev consistent : Caller → Worker → IoThreadState → Bool
consistent Caller.watching w s = runs_as w s
consistent Caller.returned w s = is_finished w && is_not_running s
consistent Caller.requesting w s = false
consistent Caller.quitting w s = false
consistent _ w s = is_finished w && is_waiting s

stop_keeps :
    (c d : IoThread)
    → consistent c.caller c.worker c.state ≡ true
    → stop c ≡ some d
    → consistent d.caller d.worker d.state ≡ true
unfolding stop
stop_keeps c d h e = ground arith

exit_keeps :
    (c d : IoThread)
    → consistent c.caller c.worker c.state ≡ true
    → user_exit c ≡ some d
    → consistent d.caller d.worker d.state ≡ true
unfolding user_exit
exit_keeps c d h e = ground arith

-- What holds of a run, by where main is.
abbrev pub IsStopped : Caller → Worker → IoThreadState → Type 0
IsStopped Caller.watching w s = w ≢ Worker.aborted
IsStopped Caller.returned w s = (w ≡ Worker.finished) × (s ≡ IoThreadState.not_running)
IsStopped Caller.requesting w s = ⊥
IsStopped Caller.quitting w s = ⊥
IsStopped _ w s = (w ≡ Worker.finished) × (s ≡ IoThreadState.waiting_for_join)

IsStopped-consistent :
    (k : Caller) (w : Worker) (s : IoThreadState) → consistent k w s ≡ true → IsStopped k w s
IsStopped-consistent Caller.watching w s h = λ e. ground arith
IsStopped-consistent Caller.returned w s h = (ground arith, ground arith)
IsStopped-consistent Caller.requesting w s h = ground arith
IsStopped-consistent Caller.quitting w s h = ground arith
IsStopped-consistent Caller.idle w s h = (ground arith, ground arith)
IsStopped-consistent Caller.stopping w s h = (ground arith, ground arith)
IsStopped-consistent Caller.joining w s h = (ground arith, ground arith)
IsStopped-consistent Caller.joined w s h = (ground arith, ground arith)

abbrev moved : IoThread → Option IoThread → IoThread
moved c none = c
moved c (some d) = d

module _ (remembers : Bool) where
  run_keeps :
      (c d : IoThread)
      → consistent c.caller c.worker c.state ≡ true
      → thread_run remembers c ≡ some d
      → consistent d.caller d.worker d.state ≡ true
  unfolding thread_run
  run_keeps c d h e = ground arith

  Steps-keep :
      (c : IoThread) → Steps remembers started c → consistent c.caller c.worker c.state ≡ true
  Steps-keep c here = refl
  Steps-keep c (stop_step {d} p e) = stop_keeps d c (Steps-keep d p) e
  Steps-keep c (run_step {d} p e) = run_keeps d c (Steps-keep d p) e
  Steps-keep c (exit_step {d} p e) = exit_keeps d c (Steps-keep d p) e

  -- However threadRun, the user's exits and main interleave after start, where main calls stop once
  -- it has seen WAITING_FOR_JOIN: the assertion of threadRun does not fail; behind its loop main
  -- finds threadRun at its end, so stop neither requests anything nor stops the scheduler, and
  -- joins at once; and when it has returned the state is NOT_RUNNING.
  pub Steps-IsJoined :
      (c : IoThread) → Steps remembers started c → IsStopped c.caller c.worker c.state
  Steps-IsJoined c p = IsStopped-consistent c.caller c.worker c.state (Steps-keep c p)

  -- threadRun, for some steps on its own
  unfoldable pub run_alone : ℕ → IoThread → IoThread
  run_alone zero c = c
  run_alone (suc n) c = run_alone n (moved c (thread_run remembers c))

  -- An exit of the user is heard: within three steps of its own threadRun is at its end, and what
  -- main waits for, WAITING_FOR_JOIN, is there.
  pub exit_heard :
      (c d : IoThread)
      → user_exit c ≡ some d
      → ((run_alone 3 d).worker ≡ Worker.finished)
        × ((run_alone 3 d).state ≡ IoThreadState.waiting_for_join)
  unfolding run_alone user_exit thread_run
  exit_heard c d e = (ground arith, ground arith)
