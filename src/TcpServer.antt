-- ===== src/TcpServer.antt =====
-- tcp/TcpServer.{hpp,cpp}: start, stop and threadRun, as two threads that share the member `state`,
-- read and written as in PushServer/Lifecycle. The service and the server that are started and
-- stopped are those of CppServer, which is not part of the repository: here each runs or does not.
pub mod Refines
use uwpx_push_server.Common.{◌≡◌, Bool, true, false, Option, none, some, ◌||◌, if◌then◌else◌}
use uwpx_push_server.PushServer.Lifecycle.{
  Caller, idle, stopping, requesting, joining, joined, returned,
}

-- TcpServerState
pub data TcpServerState : Type 0 where
  not_running starting running stop_requested waiting_for_join : TcpServerState

-- Where threadRun is: before each statement, at its end, and after a failed assertion.
pub data Worker : Type 0 where
  asserting comparing accepting starting_service starting_server testing sleeping stopping_server
        stopping_service leaving finished aborted :
      Worker

pub record TcpServer : Type 0 where
  pub state : TcpServerState
  pub caller : Caller
  pub worker : Worker
  pub service : Bool
  pub listening : Bool

abbrev pub is_starting : TcpServerState → Bool
is_starting starting = true
is_starting _ = false

abbrev pub is_running : TcpServerState → Bool
is_running running = true
is_running _ = false

abbrev is_stop_requested : TcpServerState → Bool
is_stop_requested stop_requested = true
is_stop_requested _ = false

abbrev is_waiting : TcpServerState → Bool
is_waiting waiting_for_join = true
is_waiting _ = false

abbrev is_finished : Worker → Bool
is_finished finished = true
is_finished _ = false

-- start, up to the creation of the thread
abbrev pub started : TcpServer
started = record {
  state = starting;
  caller = idle;
  worker = asserting;
  service = false;
  listening = false;
}

abbrev pub stop_from : Caller → TcpServer → Option TcpServer
stop_from idle c =
    if is_starting c.state || is_running c.state || is_waiting c.state
    then some (record c { caller = stopping })
    else some (record c { caller = returned })
stop_from stopping c =
    some (record c { caller = if is_waiting c.state then joining else requesting })
stop_from requesting c = some (record c { state = stop_requested; caller = joining })
stop_from joining c = if is_finished c.worker then some (record c { caller = joined }) else none
stop_from joined c = some (record c { state = not_running; caller = returned })
stop_from returned c = none

-- a step of the thread that calls stop
unfoldable pub stop : TcpServer → Option TcpServer
stop c = stop_from c.caller c

abbrev pub run_from : Worker → TcpServer → Option TcpServer
run_from asserting c =
    if is_starting c.state || is_stop_requested c.state
    then some (record c { worker = comparing })
    else some (record c { worker = aborted })
run_from comparing c =
    some (record c { worker = if is_starting c.state then accepting else finished })
run_from accepting c = some (record c { state = running; worker = starting_service })
run_from starting_service c = some (record c { service = true; worker = starting_server })
run_from starting_server c = some (record c { listening = true; worker = testing })
run_from testing c =
    some (record c { worker = if is_running c.state then sleeping else stopping_server })
run_from sleeping c = some (record c { worker = testing })
run_from stopping_server c = some (record c { listening = false; worker = stopping_service })
run_from stopping_service c = some (record c { service = false; worker = leaving })
run_from leaving c = some (record c { state = waiting_for_join; worker = finished })
run_from finished c = none
run_from aborted c = none

-- a step of threadRun
unfoldable pub thread_run : TcpServer → Option TcpServer
thread_run c = run_from c.worker c

-- The threads run in any order.
pub data Steps (c : TcpServer) : TcpServer → Type 0 where
  here : Steps c c
  stop_step : {d e : TcpServer} → Steps c d → stop d ≡ some e → Steps c e
  run_step : {d e : TcpServer} → Steps c d → thread_run d ≡ some e → Steps c e
