-- ===== src/PushServer/Lifecycle.antt =====
-- server/PushServer.cpp: start, stop and thread_run, as two threads that share the member `state`.
-- Each statement that reads or writes it is a step; reads and writes are taken to be atomic, which
-- the plain member does not ensure. What thread_run does between them does not touch `state`: a
-- round of the loop, and the stops of the server of sessions and of the XMPP client, which are the
-- step out of `leaving`. Such a call may hang or end the process: the thread then makes no further
-- step.
use uwpx_push_server.Common.{
  zero, suc, refl, ℕ, ◌&&◌, ◌≢◌, ◌≡◌, Bool, true, false, ◌||◌, Option, none, some, if◌then◌else◌,
  arith,
}

-- PushServerState
pub data ServerState : Type 0 where
  not_running starting running stop_requested waiting_for_join : ServerState

-- Where the thread that calls stop is: before the call, behind the first and the second test, at
-- join, behind it, and back from stop.
pub data Caller : Type 0 where
  idle stopping requesting joining joined returned : Caller

-- Where thread_run is: before the assertion, behind it, behind the test of STARTING, at the test of
-- the loop, in its body, behind the loop, at its end, and after a failed assertion.
pub data Worker : Type 0 where
  entered checked accepted testing working leaving finished aborted : Worker

pub record Config : Type 0 where
  pub state : ServerState
  pub caller : Caller
  pub worker : Worker

abbrev is_starting : ServerState → Bool
is_starting starting = true
is_starting _ = false

abbrev is_running : ServerState → Bool
is_running running = true
is_running _ = false

abbrev is_stop_requested : ServerState → Bool
is_stop_requested stop_requested = true
is_stop_requested _ = false

abbrev is_waiting : ServerState → Bool
is_waiting waiting_for_join = true
is_waiting _ = false

abbrev pub is_finished : Worker → Bool
is_finished finished = true
is_finished _ = false

abbrev is_not_running : ServerState → Bool
is_not_running not_running = true
is_not_running _ = false

abbrev is_accepted : Worker → Bool
is_accepted accepted = true
is_accepted _ = false

-- start, up to the creation of the thread
abbrev pub started : Config
started = record { state = starting; caller = idle; worker = entered }

abbrev stop_from : Caller → Config → Option Config
stop_from idle c =
    if is_starting c.state || is_running c.state || is_waiting c.state
    then some (record c { caller = stopping })
    else some (record c { caller = returned })
stop_from stopping c =
    some (record c { caller = if is_waiting c.state then joining else requesting })
stop_from requesting c = some (record c { state = stop_requested; caller = joining })
stop_from joining c = if is_finished c.worker then some (record c { caller = joined }) else none
stop_from joined c = some (record c { state = not_running; caller = returned })
stop_from returned c = none

-- a step of the thread that calls stop
unfoldable pub stop : Config → Option Config
stop c = stop_from c.caller c

abbrev run_from : Worker → Config → Option Config
run_from entered c =
    if is_starting c.state || is_stop_requested c.state
    then some (record c { worker = checked })
    else some (record c { worker = aborted })
run_from checked c = some (record c { worker = if is_starting c.state then accepted else finished })
run_from accepted c = some (record c { state = running; worker = testing })
run_from testing c = some (record c { worker = if is_running c.state then working else leaving })
run_from working c = some (record c { worker = testing })
run_from leaving c = some (record c { state = waiting_for_join; worker = finished })
run_from finished c = none
run_from aborted c = none

-- a step of thread_run
unfoldable pub thread_run : Config → Option Config
thread_run c = run_from c.worker c

-- The threads run in any order.
pub data Steps (c : Config) : Config → Type 0 where
  here : Steps c c
  stop_step : {d e : Config} → Steps c d → stop d ≡ some e → Steps c e
  run_step : {d e : Config} → Steps c d → thread_run d ≡ some e → Steps c e

abbrev is_joining : Caller → Bool
is_joining joining = true
is_joining _ = false

-- the states while stop has not joined the thread
abbrev unstarted : Caller → ServerState → Bool
unstarted k s = is_starting s || (is_joining k && is_stop_requested s)

-- What holds of the caller, the worker and the state together.
abbrev consistent : Caller → Worker → ServerState → Bool
consistent returned w s = is_finished w && is_not_running s
consistent joined w s = is_finished w
consistent k aborted s = false
consistent k entered s = unstarted k s
consistent k checked s = unstarted k s
consistent k _ s = is_running s || is_waiting s || unstarted k s

abbrev pub holds : Config → Bool
holds c = consistent c.caller c.worker c.state

stop_keeps : (c d : Config) → holds c ≡ true → stop c ≡ some d → holds d ≡ true
unfolding stop
stop_keeps c d h e = ground arith

thread_run_keeps : (c d : Config) → holds c ≡ true → thread_run c ≡ some d → holds d ≡ true
unfolding thread_run
thread_run_keeps c d h e = ground arith

Steps-keep : (c : Config) → Steps started c → holds c ≡ true
Steps-keep c here = refl
Steps-keep c (stop_step {d} p e) = stop_keeps d c (Steps-keep d p) e
Steps-keep c (run_step {d} p e) = thread_run_keeps d c (Steps-keep d p) e

-- Once stop has returned, thread_run is at its end and the state is NOT_RUNNING; before, thread_run
-- has not failed its assertion.
abbrev pub IsStopped : Caller → Worker → ServerState → Type 0
IsStopped returned w s = (w ≡ finished) × (s ≡ not_running)
IsStopped _ w s = w ≢ aborted

IsStopped-consistent :
    (k : Caller) (w : Worker) (s : ServerState) → consistent k w s ≡ true → IsStopped k w s
IsStopped-consistent returned w s h = (ground arith, ground arith)
IsStopped-consistent idle w s h = λ e. ground arith
IsStopped-consistent stopping w s h = λ e. ground arith
IsStopped-consistent requesting w s h = λ e. ground arith
IsStopped-consistent joining w s h = λ e. ground arith
IsStopped-consistent joined w s h = λ e. ground arith

-- However the two threads interleave after start: the assertion of thread_run does not fail, and
-- when stop has returned, thread_run is at its end and the state is NOT_RUNNING.
pub Steps-IsStopped : (c : Config) → Steps started c → IsStopped c.caller c.worker c.state
Steps-IsStopped c p = IsStopped-consistent c.caller c.worker c.state (Steps-keep c p)

abbrev moved : Config → Option Config → Config
moved c none = c
moved c (some d) = d

-- thread_run, for some steps on its own
unfoldable pub run_alone : ℕ → Config → Config
run_alone zero c = c
run_alone (suc n) c = run_alone n (moved c (thread_run c))

-- behind the loop, where the servers are stopped, or at the end
abbrev pub is_behind_loop : Worker → Bool
is_behind_loop leaving = true
is_behind_loop finished = true
is_behind_loop _ = false

-- A stop that has been requested is heard by the loop, when thread_run is not between its test of
-- STARTING and its assignment of RUNNING, and if the round of the loop that it may be in ends:
-- within two steps of its own thread_run is behind its loop, where it stops the server of sessions
-- and the XMPP client, or at its end.
pub stop_heard :
    (c : Config)
    → Steps started c
    → c.caller ≡ joining
    → c.state ≡ stop_requested
    → is_accepted c.worker ≡ false
    → is_behind_loop (run_alone 2 c).worker ≡ true
unfolding run_alone thread_run
stop_heard c p j r a = ground (arith, Steps-keep c p)

abbrev lost_from : Worker → ServerState → Bool
lost_from accepted s = true
lost_from testing s = is_running s
lost_from working s = is_running s
lost_from _ s = false

-- the state of a lost stop
abbrev lost : Config → Bool
lost c = is_joining c.caller && lost_from c.worker c.state

stop_loses : (c d : Config) → lost c ≡ true → stop c ≡ some d → lost d ≡ true
unfolding stop
stop_loses c d h e = ground arith

thread_run_loses : (c d : Config) → lost c ≡ true → thread_run c ≡ some d → lost d ≡ true
unfolding thread_run
thread_run_loses c d h e = ground arith

Steps-lose : (c final : Config) → lost c ≡ true → Steps c final → lost final ≡ true
Steps-lose c final h here = h
Steps-lose c final h (stop_step {d} p e) = stop_loses d final (Steps-lose c d h p) e
Steps-lose c final h (run_step {d} p e) = thread_run_loses d final (Steps-lose c d h p) e

-- A stop that is requested, in a run after start, while thread_run is between its test of STARTING
-- and its assignment of RUNNING is lost: whatever steps follow, stop stays at join and thread_run
-- does not end.
pub stop_lost :
    (c d : Config)
    → Steps started c
    → c.caller ≡ joining
    → c.worker ≡ accepted
    → Steps c d
    → (d.caller ≡ joining) × (is_finished d.worker ≡ false)
stop_lost c d q j a p =
    let h : lost d ≡ true = Steps-lose c d (ground arith) p in (ground arith, ground arith)
