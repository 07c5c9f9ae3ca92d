-- ===== src/Xmpp/Lifecycle/Refines.antt =====
-- xmpp/XmppClient.cpp: the lifecycle of the client is that of the server, and when its context is
-- there.
use mathlib.Core.Path.{subst}
use uwpx_push_server.Common.{
  refl, Bool-cases, inl, inr, ◌≡◌, zero, suc, Bool, true, false, some, arith,
}
use uwpx_push_server.PushServer.Lifecycle
use uwpx_push_server.Xmpp.Lifecycle.{
  started, Steps, here, stop_step, run_step, lost_step, XmppClientState, Caller, Worker, Client,
  is_running, stop, thread_run, connection_lost,
}

abbrev pub as_server_state : XmppClientState → Lifecycle.ServerState
as_server_state XmppClientState.not_running = Lifecycle.ServerState.not_running
as_server_state XmppClientState.starting = Lifecycle.ServerState.starting
as_server_state XmppClientState.running = Lifecycle.ServerState.running
as_server_state XmppClientState.stop_requested = Lifecycle.ServerState.stop_requested
as_server_state XmppClientState.waiting_for_join = Lifecycle.ServerState.waiting_for_join

-- xmpp_stop is called at the join of the server; after a fault there is no further step.
abbrev pub as_server_caller : Caller → Lifecycle.Caller
as_server_caller Caller.idle = Lifecycle.Caller.idle
as_server_caller Caller.stopping = Lifecycle.Caller.stopping
as_server_caller Caller.requesting = Lifecycle.Caller.requesting
as_server_caller Caller.quitting = Lifecycle.Caller.joining
as_server_caller Caller.joining = Lifecycle.Caller.joining
as_server_caller Caller.joined = Lifecycle.Caller.joined
as_server_caller Caller.returned = Lifecycle.Caller.returned
as_server_caller Caller.faulted = Lifecycle.Caller.joining

abbrev pub as_server_worker : Worker → Lifecycle.Worker
as_server_worker Worker.asserting = Lifecycle.Worker.entered
as_server_worker Worker.comparing = Lifecycle.Worker.checked
as_server_worker Worker.accepting = Lifecycle.Worker.accepted
as_server_worker Worker.setting_up = Lifecycle.Worker.testing
as_server_worker Worker.testing = Lifecycle.Worker.testing
as_server_worker Worker.connecting = Lifecycle.Worker.working
as_server_worker Worker.entering = Lifecycle.Worker.working
as_server_worker Worker.looping = Lifecycle.Worker.working
as_server_worker (Worker.pausing n) = Lifecycle.Worker.working
as_server_worker Worker.cleaning_up = Lifecycle.Worker.leaving
as_server_worker Worker.leaving = Lifecycle.Worker.leaving
as_server_worker Worker.finished = Lifecycle.Worker.finished
as_server_worker Worker.aborted = Lifecycle.Worker.aborted

abbrev pub as_server : Client → Lifecycle.Config
as_server c = record {
  state = as_server_state c.state;
  caller = as_server_caller c.caller;
  worker = as_server_worker c.worker;
}

-- where the context is there
abbrev pub has_context : Worker → Bool
has_context Worker.testing = true
has_context Worker.connecting = true
has_context Worker.entering = true
has_context Worker.looping = true
has_context (Worker.pausing n) = true
has_context Worker.cleaning_up = true
has_context _ = false

-- the steps that change nothing in the lifecycle of the server
abbrev stop_is_silent : Caller → Bool
stop_is_silent Caller.quitting = true
stop_is_silent _ = false

abbrev run_is_silent : XmppClientState → Worker → Bool
run_is_silent s Worker.setting_up = true
run_is_silent s Worker.connecting = true
run_is_silent s Worker.entering = true
run_is_silent s Worker.looping = true
run_is_silent s (Worker.pausing zero) = false
run_is_silent s (Worker.pausing (suc n)) = is_running s
run_is_silent s Worker.cleaning_up = true
run_is_silent s _ = false

stop_context :
    (c d : Client) → c.ctx ≡ has_context c.worker → stop c ≡ some d → d.ctx ≡ has_context d.worker
unfolding stop
stop_context c d h e = ground arith

lost_context :
    (c d : Client)
    → c.ctx ≡ has_context c.worker
    → connection_lost c ≡ some d
    → d.ctx ≡ has_context d.worker
unfolding connection_lost
lost_context c d h e = ground arith

stop_silent :
    (c d : Client) → stop_is_silent c.caller ≡ true → stop c ≡ some d → as_server c ≡ as_server d
unfolding stop
stop_silent c d s h = ground arith

stop_refines :
    (c d : Client)
    → stop_is_silent c.caller ≡ false
    → stop c ≡ some d
    → Lifecycle.stop (as_server c) ≡ some (as_server d)
unfolding stop Lifecycle.stop
stop_refines c d s h = ground arith

lost_silent : (c d : Client) → connection_lost c ≡ some d → as_server c ≡ as_server d
unfolding connection_lost
lost_silent c d h = ground arith

module _ (remembers : Bool) where
  run_context :
      (c d : Client)
      → c.ctx ≡ has_context c.worker
      → thread_run remembers c ≡ some d
      → d.ctx ≡ has_context d.worker
  unfolding thread_run
  run_context c d h e = ground arith

  run_silent :
      (c d : Client)
      → c.ctx ≡ has_context c.worker
      → run_is_silent c.state c.worker ≡ true
      → thread_run remembers c ≡ some d
      → as_server c ≡ as_server d
  unfolding thread_run
  run_silent c d x s h = ground arith

  run_refines :
      (c d : Client)
      → run_is_silent c.state c.worker ≡ false
      → thread_run remembers c ≡ some d
      → Lifecycle.thread_run (as_server c) ≡ some (as_server d)
  unfolding thread_run Lifecycle.thread_run
  run_refines c d s h = ground arith

  -- From start on the context is there from the end of setup_xmpp to the end of cleanup_xmpp.
  pub Steps-context : (c : Client) → Steps remembers started c → c.ctx ≡ has_context c.worker
  Steps-context c here = refl
  Steps-context c (stop_step {d} p e) = stop_context d c (Steps-context d p) e
  Steps-context c (run_step {d} p e) = run_context d c (Steps-context d p) e
  Steps-context c (lost_step {d} p e) = lost_context d c (Steps-context d p) e

  as_later :
      (c d : Client)
      → Lifecycle.Steps Lifecycle.started (as_server c)
      → as_server c ≡ as_server d
      → Lifecycle.Steps Lifecycle.started (as_server d)
  as_later c d p e = subst (λ x. Lifecycle.Steps Lifecycle.started x) e p

  -- Each run of the client after start, whatever the connection does and up to a fault, is a run of
  -- the lifecycle of the server: setting up, connecting, the event loop, the pause and cleaning up
  -- are parts of its loop and of what follows it, and xmpp_stop is part of its join.
  pub Steps-Refines :
      (c : Client) → Steps remembers started c → Lifecycle.Steps Lifecycle.started (as_server c)
  Steps-Refines c here = Lifecycle.Steps.here
  Steps-Refines c (stop_step {d} p e) = elim (Bool-cases (stop_is_silent d.caller)) [
    | inl s ↦ as_later d c (Steps-Refines d p) (stop_silent d c s e)
    | inr s ↦ Lifecycle.Steps.stop_step (Steps-Refines d p) (stop_refines d c s e)
  ]
  Steps-Refines c (run_step {d} p e) = elim (Bool-cases (run_is_silent d.state d.worker)) [
    | inl s ↦ as_later d c (Steps-Refines d p) (run_silent d c (Steps-context d p) s e)
    | inr s ↦ Lifecycle.Steps.run_step (Steps-Refines d p) (run_refines d c s e)
  ]
  Steps-Refines c (lost_step {d} p e) = as_later d c (Steps-Refines d p) (lost_silent d c e)
