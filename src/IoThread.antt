-- ===== src/IoThread.antt =====
-- io/IoThread.{hpp,cpp}: start, stop and threadRun, as two threads that share the member `state`,
-- read and written as in PushServer/Lifecycle, and the exit of the user. The scheduler is that of
-- the library cli: Run goes on until it is told to end by Stop; whether it heeds a Stop from before
-- it was entered is the parameter `remembers`. The menus, whose commands only print, are not
-- modelled.
pub mod Stopping
use uwpx_push_server.Common.{◌≡◌, Bool, true, false, Option, none, some, ◌||◌, ◌&&◌, if◌then◌else◌}

pub data IoThreadState : Type 0 where
  not_running starting running stop_requested waiting_for_join : IoThreadState

-- Where the thread that calls stop is: as in the lifecycle of the server, with the place before the
-- scheduler is stopped, and before all these the loop of main, which waits for WAITING_FOR_JOIN.
pub data Caller : Type 0 where
  watching idle stopping requesting quitting joining joined returned : Caller

-- Where threadRun is: before each statement, in Run, between the two statements of the exit action,
-- at its end, and after a failed assertion.
pub data Worker : Type 0 where
  asserting comparing accepting entering looping exiting leaving finished aborted : Worker

pub record IoThread : Type 0 where
  pub state : IoThreadState
  pub caller : Caller
  pub worker : Worker
  -- whether the scheduler has been told to end
  pub told : Bool

abbrev pub is_starting : IoThreadState → Bool
is_starting starting = true
is_starting _ = false

abbrev pub is_running : IoThreadState → Bool
is_running running = true
is_running _ = false

abbrev pub is_stop_requested : IoThreadState → Bool
is_stop_requested stop_requested = true
is_stop_requested _ = false

abbrev pub is_waiting : IoThreadState → Bool
is_waiting waiting_for_join = true
is_waiting _ = false

abbrev pub is_finished : Worker → Bool
is_finished finished = true
is_finished _ = false

abbrev is_looping : Worker → Bool
is_looping looping = true
is_looping _ = false

-- start, up to the creation of the thread, called by main
abbrev pub started : IoThread
started = record { state = starting; caller = watching; worker = asserting; told = false }

abbrev stop_from : Caller → IoThread → Option IoThread
stop_from watching c = if is_waiting c.state then some (record c { caller = idle }) else none
stop_from idle c =
    if is_starting c.state || is_running c.state || is_waiting c.state
    then some (record c { caller = stopping })
    else some (record c { caller = returned })
stop_from stopping c =
    some (record c { caller = if is_waiting c.state then joining else requesting })
stop_from requesting c = some (record c { state = stop_requested; caller = quitting })
stop_from quitting c = some (record c { told = true; caller = joining })
stop_from joining c = if is_finished c.worker then some (record c { caller = joined }) else none
stop_from joined c = some (record c { state = not_running; caller = returned })
stop_from returned c = none

-- a step of main, which calls stop behind its loop
unfoldable pub stop : IoThread → Option IoThread
stop c = stop_from c.caller c

-- the user's exit, in Run: the first statement of the exit action
unfoldable pub user_exit : IoThread → Option IoThread
user_exit c =
    if is_looping c.worker
    then some (record c { state = stop_requested; worker = exiting })
    else none

module _ (remembers : Bool) where
  abbrev run_from : Worker → IoThread → Option IoThread
  run_from asserting c =
      if is_starting c.state || is_stop_requested c.state
      then some (record c { worker = comparing })
      else some (record c { worker = aborted })
  run_from comparing c =
      some (record c { worker = if is_starting c.state then accepting else finished })
  run_from accepting c = some (record c { state = running; worker = entering })
  run_from entering c = some (record c { told = remembers && c.told; worker = looping })
  run_from looping c = if c.told then some (record c { worker = leaving }) else none
  run_from exiting c = some (record c { told = true; worker = looping })
  run_from leaving c = some (record c { state = waiting_for_join; worker = finished })
  run_from finished c = none
  run_from aborted c = none

  -- a step of threadRun
  unfoldable pub thread_run : IoThread → Option IoThread
  thread_run c = run_from c.worker c

  -- The threads run, and the user exits, in any order.
  pub data Steps (c : IoThread) : IoThread → Type 0 where
    here : Steps c c
    stop_step : {d e : IoThread} → Steps c d → stop d ≡ some e → Steps c e
    run_step : {d e : IoThread} → Steps c d → thread_run d ≡ some e → Steps c e
    exit_step : {d e : IoThread} → Steps c d → user_exit d ≡ some e → Steps c e
