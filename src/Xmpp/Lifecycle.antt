-- ===== src/Xmpp/Lifecycle.antt =====
-- xmpp/XmppClient.cpp: start, stop, thread_run, setup_xmpp and cleanup_xmpp, as two threads that
-- share the members, read and written as in PushServer/Lifecycle, and the end of the connection, at
-- which conn_handler calls xmpp_stop. The context and the connection are made and released
-- together. The event loop is libstrophe's: xmpp_run goes on until it is told to end by xmpp_stop;
-- whether it heeds an xmpp_stop from before it was entered is the parameter `remembers`. A null
-- context given to xmpp_stop is a fault.
pub mod Refines
pub mod Stopping
use uwpx_push_server.Common.{
  ◌≡◌, ℕ, zero, suc, Bool, true, false, Option, none, some, ◌||◌, ◌&&◌, if◌then◌else◌,
}

pub data XmppClientState : Type 0 where
  not_running starting running stop_requested waiting_for_join : XmppClientState

-- Where the thread that calls stop is: as in the lifecycle of the server, with the place before
-- xmpp_stop, and after a fault.
pub data Caller : Type 0 where
  idle stopping requesting quitting joining joined returned faulted : Caller

-- Where thread_run is: before each statement, in xmpp_run, in the pause with so many rounds left,
-- at its end, and after a failed assertion.
pub data Worker : Type 0 where
  asserting comparing accepting setting_up testing connecting entering looping : Worker
  pausing : ℕ → Worker
  cleaning_up leaving finished aborted : Worker

pub record Client : Type 0 where
  pub state : XmppClientState
  pub caller : Caller
  pub worker : Worker
  -- whether ctx and conn are not null
  pub ctx : Bool
  -- whether the event loop has been told to end
  pub told : Bool

abbrev pub is_starting : XmppClientState → Bool
is_starting starting = true
is_starting _ = false

abbrev pub is_running : XmppClientState → Bool
is_running running = true
is_running _ = false

abbrev is_stop_requested : XmppClientState → Bool
is_stop_requested stop_requested = true
is_stop_requested _ = false

abbrev is_waiting : XmppClientState → Bool
is_waiting waiting_for_join = true
is_waiting _ = false

abbrev pub is_finished : Worker → Bool
is_finished finished = true
is_finished _ = false

-- start, up to the creation of the thread
abbrev pub started : Client
started = record { state = starting; caller = idle; worker = asserting; ctx = false; told = false }

abbrev stop_from : Caller → Client → Option Client
stop_from idle c =
    if is_starting c.state || is_running c.state || is_waiting c.state
    then some (record c { caller = stopping })
    else some (record c { caller = returned })
stop_from stopping c =
    some (record c { caller = if is_waiting c.state then joining else requesting })
stop_from requesting c = some (record c { state = stop_requested; caller = quitting })
stop_from quitting c =
    if c.ctx
    then some (record c { told = true; caller = joining })
    else some (record c { caller = faulted })
stop_from joining c = if is_finished c.worker then some (record c { caller = joined }) else none
stop_from joined c = some (record c { state = not_running; caller = returned })
stop_from returned c = none
stop_from faulted c = none

-- a step of the thread that calls stop
unfoldable pub stop : Client → Option Client
stop c = stop_from c.caller c

abbrev paused : ℕ → XmppClientState → Worker
paused zero s = testing
paused (suc n) s = if is_running s then pausing n else testing

abbrev is_looping : Worker → Bool
is_looping looping = true
is_looping _ = false

-- The connection ends: conn_handler, in the event loop.
unfoldable pub connection_lost : Client → Option Client
connection_lost c = if is_looping c.worker then some (record c { told = true }) else none

module _ (remembers : Bool) where
  abbrev run_from : Worker → Client → Option Client
  run_from asserting c =
      if is_starting c.state || is_stop_requested c.state
      then some (record c { worker = comparing })
      else some (record c { worker = aborted })
  run_from comparing c =
      some (record c { worker = if is_starting c.state then accepting else finished })
  run_from accepting c = some (record c { state = running; worker = setting_up })
  run_from setting_up c = some (record c { ctx = true; told = false; worker = testing })
  run_from testing c =
      some (record c { worker = if is_running c.state then connecting else cleaning_up })
  run_from connecting c = some (record c { worker = entering })
  run_from entering c = some (record c { told = remembers && c.told; worker = looping })
  run_from looping c =
      if c.told then some (record c { told = false; worker = pausing 20 }) else none
  run_from (pausing n) c = some (record c { worker = paused n c.state })
  run_from cleaning_up c =
      if c.ctx
      then some (record c { ctx = false; worker = leaving })
      else some (record c { worker = aborted })
  run_from leaving c = some (record c { state = waiting_for_join; worker = finished })
  run_from finished c = none
  run_from aborted c = none

  -- a step of thread_run
  unfoldable pub thread_run : Client → Option Client
  thread_run c = run_from c.worker c

  -- The threads run, and the connection ends, in any order.
  pub data Steps (c : Client) : Client → Type 0 where
    here : Steps c c
    stop_step : {d e : Client} → Steps c d → stop d ≡ some e → Steps c e
    run_step : {d e : Client} → Steps c d → thread_run d ≡ some e → Steps c e
    lost_step : {d e : Client} → Steps c d → connection_lost d ≡ some e → Steps c e
