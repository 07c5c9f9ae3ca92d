-- ===== src/Xmpp/Lifecycle/Stopping.antt =====
-- xmpp/XmppClient.cpp: what stop comes to.
use uwpx_push_server.Common.{
  ◌≡◌, ◌≢◌, ap, ℕ, zero, suc, Bool, true, false, Option, none, some, if◌then◌else◌, arith,
}
use uwpx_push_server.PushServer.Lifecycle
use uwpx_push_server.Xmpp.Lifecycle.{
  XmppClientState, Caller, Worker, Client, started, stop, thread_run, Steps,
}
use uwpx_push_server.Xmpp.Lifecycle.Refines.{
  as_server, as_server_worker, as_server_state, as_server_caller, has_context, Steps-context,
  Steps-Refines,
}

-- What holds of a run, by where the caller of stop is.
abbrev pub IsReleased : Caller → Client → Type 0
IsReleased Caller.returned c =
    (c.worker ≡ Worker.finished) × (c.state ≡ XmppClientState.not_running) × (c.ctx ≡ false)
IsReleased _ c = c.worker ≢ Worker.aborted

released :
    (k : Caller) (c : Client)
    → Lifecycle.IsStopped (as_server_caller k) (as_server_worker c.worker) (as_server_state c.state)
    → c.ctx ≡ has_context c.worker
    → IsReleased k c
released Caller.returned c h x = (ground arith, ground arith, ground arith)
released Caller.idle c h x = λ e. h (ap as_server_worker e)
released Caller.stopping c h x = λ e. h (ap as_server_worker e)
released Caller.requesting c h x = λ e. h (ap as_server_worker e)
released Caller.quitting c h x = λ e. h (ap as_server_worker e)
released Caller.joining c h x = λ e. h (ap as_server_worker e)
released Caller.joined c h x = λ e. h (ap as_server_worker e)
released Caller.faulted c h x = λ e. h (ap as_server_worker e)

abbrev moved : Client → Option Client → Client
moved c none = c
moved c (some d) = d

module _ (remembers : Bool) where
  -- However the two threads and the end of the connection interleave after start: the assertions of
  -- thread_run and of cleanup_xmpp do not fail; and when stop has returned, thread_run is at its
  -- end, the state is NOT_RUNNING and the context is released.
  pub Steps-IsReleased : (c : Client) → Steps remembers started c → IsReleased c.caller c
  Steps-IsReleased c p =
      released c.caller c (Lifecycle.Steps-IsStopped (as_server c) (Steps-Refines remembers c p))
        (Steps-context remembers c p)

  -- In a run after start, the call of xmpp_stop in stop is a fault exactly when thread_run has not
  -- ended setup_xmpp or has ended cleanup_xmpp; otherwise the event loop is told to end.
  pub stop-xmpp_stop :
      (c : Client)
      → Steps remembers started c
      → c.caller ≡ Caller.quitting
      → stop c
        ≡ some (
            if has_context c.worker
            then record c { told = true; caller = Caller.joining }
            else record c { caller = Caller.faulted })
  unfolding stop
  stop-xmpp_stop c p q = ground (arith, Steps-context remembers c p)

  -- thread_run, for some steps on its own
  unfoldable pub run_alone : ℕ → Client → Client
  run_alone zero c = c
  run_alone (suc n) c = run_alone n (moved c (thread_run remembers c))

  -- A stop whose xmpp_stop meets thread_run in the event loop is heard: within five steps of its
  -- own thread_run has left the loop and the pause, has released the context and is at its end.
  pub stop_heard :
      (c d : Client)
      → Steps remembers started c
      → c.caller ≡ Caller.quitting
      → c.state ≡ XmppClientState.stop_requested
      → c.worker ≡ Worker.looping
      → stop c ≡ some d
      → ((run_alone 5 d).worker ≡ Worker.finished) × ((run_alone 5 d).ctx ≡ false)
  unfolding run_alone stop thread_run
  stop_heard c d p q r w e =
      (ground (arith, Steps-context remembers c p), ground (arith, Steps-context remembers c p))
