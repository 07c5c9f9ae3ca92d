-- ===== src/Tests/Start.antt =====
-- The theorems on the arguments and the configuration file.
use uwpx_push_server.Common.{
  ◌≡◌, refl, true, String, Option, none, some, [], ◌∷◌, if◌then◌else◌, ◌==◌,
}
use uwpx_push_server.Common.Action.{Ends}
use uwpx_push_server.Json.{JsonLib}
use uwpx_push_server.Json.Tree.{Value, tree, tree_with, tree_with_laws}
use uwpx_push_server.Configuration.{
  to_json, wns_to_json, xmpp_to_json, tls_to_json, tcp_to_json, db_to_json,
}
use uwpx_push_server.Main.{launch, parse_arguments}
use uwpx_push_server.Main.Arguments.{parse_arguments_lem}
use uwpx_push_server.Configuration.Storage.{
  Files, FileSystem, default_configuration, configuration_storage,
}
use uwpx_push_server.Configuration.Storage.Files.{Prepared, configuration_storage_first}

parse_arguments_example :
    parse_arguments ("a.json" ∷ "--noInput" ∷ "b.json" ∷ []) ≡ launch "b.json" true
parse_arguments_example = parse_arguments_lem ("a.json" ∷ "--noInput" ∷ "b.json" ∷ [])

-- a parser that knows one text, and a printer that knows one
abbrev parse_default : String → Option Value
unfolding tree tree_with
parse_default text = if text == "default" then some (to_json tree default_configuration) else none

abbrev json : JsonLib
json = tree_with parse_default

abbrev system : FileSystem json
system = record { readable = λ name. true; writable = λ name. true; printed = λ j. "default" }

abbrev no_files : Files
no_files name = none

default_parsed :
    json.parse (system.printed (to_json json default_configuration))
    ≡ some (to_json json default_configuration)
unfolding tree tree_with to_json wns_to_json xmpp_to_json tls_to_json tcp_to_json db_to_json
default_parsed = refl

configuration_storage_first_example :
    Ends (configuration_storage json system "configuration.json") no_files (λ c files.
      (c ≡ default_configuration)
      × Prepared json system
          (tree_with_laws parse_default)
          "configuration.json"
          refl
          no_files
          files)
configuration_storage_first_example =
    configuration_storage_first json system (tree_with_laws parse_default) "configuration.json" refl
      no_files refl refl default_parsed
