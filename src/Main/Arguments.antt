-- ===== src/Main/Arguments.antt =====
-- main.cpp: what the arguments mean.
use uwpx_push_server.Common.{
  ◌≡◌, ◌∙◌, Bool, true, false, String, List, [], ◌∷◌, ◌==◌, ◌||◌, if◌then◌else◌, Bool-cases, inl,
  inr, arith, eq_iff,
}
use uwpx_push_server.Main.{help, launch, parse_from, parse_arguments}

abbrev pub contains : String → List String → Bool
contains word [] = false
contains word (x ∷ xs) = x == word || contains word xs

abbrev pub is_flag : String → Bool
is_flag arg = arg == "--noInput" || arg == "--help"

abbrev pub paths : List String → List String
paths [] = []
paths (arg ∷ rest) = let later = paths rest in if is_flag arg then later else arg ∷ later

abbrev pub last_of : String → List String → String
last_of x [] = x
last_of x (y ∷ rest) = last_of y rest

not_help : (arg : String) → (arg == "--noInput") ≡ true → (arg == "--help") ≡ false
not_help arg h = rw ((eq_iff arg "--noInput").0 h)

parse_from_lem :
    (argv : List String) (path : String) (silent : Bool)
    → parse_from argv path silent ≡ (
        if contains "--help" argv
        then help
        else launch (last_of path (paths argv)) (silent || contains "--noInput" argv))
unfolding parse_from
parse_from_lem [] path silent = ground arith
parse_from_lem (arg ∷ rest) path silent = elim (Bool-cases (arg == "--noInput")) [
  | inl flag ↦
      let other = not_help arg flag in
      rw (flag, other) (parse_from_lem rest path true ∙ ground arith)
  | inr no_flag ↦ rw no_flag (ground (arith, parse_from_lem rest arg silent))
]

-- The loop over the arguments asks for the help where "--help" is among them, wherever it stands;
-- else main is launched with the last argument that is no flag, or "configuration.json" where there
-- is none, and without input exactly when "--noInput" is among them.
pub parse_arguments_lem :
    (argv : List String)
    → parse_arguments argv ≡ (
        if contains "--help" argv
        then help
        else launch (last_of "configuration.json" (paths argv)) (contains "--noInput" argv))
unfolding parse_arguments
parse_arguments_lem argv = parse_from_lem argv "configuration.json" false
