-- ===== src/Tests/Lifecycle.antt =====
-- The theorems on starting and stopping the push server.
use uwpx_push_server.Common.{true, ◌≡◌, refl, false}
use uwpx_push_server.PushServer.Lifecycle.{
  Config, Steps, here, stop_step, run_step, started, stop, thread_run, run_alone, stop_requested,
  running, joining, checked, accepted, testing, IsStopped, Steps-IsStopped, stop_heard,
  is_behind_loop, stop_lost, is_finished,
}

-- the thread has passed its assertion when a stop is requested
abbrev requested : Config
requested = record { state = stop_requested; caller = joining; worker = checked }

requested_reached : Steps started requested
unfolding stop thread_run
requested_reached = stop_step (stop_step (stop_step (run_step here refl) refl) refl) refl

Steps-IsStopped_example : IsStopped joining checked stop_requested
Steps-IsStopped_example = Steps-IsStopped requested requested_reached

stop_heard_example : is_behind_loop (run_alone 2 requested).worker ≡ true
stop_heard_example = stop_heard requested requested_reached refl refl refl

-- the thread has passed its test when a stop is requested
abbrev too_early : Config
too_early = record { state = stop_requested; caller = joining; worker = accepted }

too_early_reached : Steps started too_early
unfolding stop thread_run
too_early_reached =
    stop_step (stop_step (stop_step (run_step (run_step here refl) refl) refl) refl) refl

abbrev runs_on : Config
runs_on = record { state = running; caller = joining; worker = testing }

runs_on_reached : Steps too_early runs_on
unfolding thread_run
runs_on_reached = run_step here refl

stop_lost_example : (joining ≡ joining) × (is_finished testing ≡ false)
stop_lost_example = stop_lost too_early runs_on too_early_reached refl refl runs_on_reached
