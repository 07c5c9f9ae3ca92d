-- ===== src/Main.antt =====
-- main.cpp: the arguments, and the signals of a run without input. `argv` is what follows the name
-- of the program.
pub mod Arguments
pub mod Signals
use uwpx_push_server.Common.{
  ℕ, Bool, true, false, String, List, [], ◌∷◌, ◌==◌, if◌then◌else◌, nat_eq, suc,
}

-- What main goes on to do: print the help and return, or launch with a configuration file, in no
-- input mode or not.
pub data Launch : Type 0 where
  help : Launch
  launch : String → Bool → Launch

-- the loop over the arguments
unfoldable pub parse_from : List String → String → Bool → Launch
parse_from [] config_path no_input = launch config_path no_input
parse_from (arg ∷ rest) config_path no_input =
    let silent = parse_from rest config_path true in
    let other = parse_from rest arg no_input in
    if arg == "--noInput" then silent else if arg == "--help" then help else other

unfoldable pub parse_arguments : List String → Launch
parse_arguments argv = parse_from argv "configuration.json" false

-- serverPtr, which is null or points to the server, and how often the server has been stopped
pub record Process : Type 0 where
  pub server_ptr : Bool
  pub stops : ℕ

-- SIGINT
abbrev pub sigint : ℕ
sigint = 2

unfoldable pub signal_handler : ℕ → Process → Process
signal_handler signal p =
    if nat_eq signal sigint
    then (if p.server_ptr then record p { server_ptr = false; stops = suc p.stops } else p)
    else p

abbrev pub signalled : List ℕ → Process → Process
signalled [] p = p
signalled (signal ∷ rest) p = signalled rest (signal_handler signal p)

-- A run without input: the signals that arrive before serverPtr is set, and those after it. The
-- loop of main ends when serverPtr is null.
unfoldable pub headless : List ℕ → List ℕ → Process
headless before after =
    signalled after
      (record (signalled before (record { server_ptr = false; stops = 0 })) { server_ptr = true })
