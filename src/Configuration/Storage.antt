-- ===== src/Configuration/Storage.antt =====
-- storage/ConfigurationStorage.cpp and the file of storage/Serializer.hpp. The files are texts by
-- their names; which can be read and which written is the file system's choice, as is how a JSON
-- value is written into a stream. What a failed read leaves in js_int is not read again.
pub mod Files
use uwpx_push_server.Common.{
  ◌≡◌, Bool, true, false, String, Option, none, some, is_some, ◌==◌, if◌then◌else◌,
}
use uwpx_push_server.Common.Action.{Action, pure, ask, done, ◌>>=◌, ◌>>◌}
use uwpx_push_server.Json.{JsonLib}
use uwpx_push_server.Configuration.{Configuration, from_json, to_json}

abbrev pub Files : Type 0
Files = String → Option String

pub record FileSystem (lib : JsonLib) : Type 0 where
  pub readable : String → Bool
  pub writable : String → Bool
  -- operator<< with the width 1
  pub printed : lib.Json → String

-- the members as they are declared
abbrev pub default_configuration : Configuration
default_configuration = record {
  wns = record {
    packet_id = "The UWP package ID starting with: 'ms-app://...'";
    client_secret = "The secret obtained from the Devcenter.";
  };
  xmpp = record {
    bare_jid = "The bare JID of the push XMPP client (e.g. 'pushServer@xmpp.example.com').";
    password = "The password for the push XMPP client.";
    port = 5222;
    host = "The hostname of the XMPP server.";
  };
  tcp = record {
    port = 1997;
    tls = record {
      server_key_path = "Path to your 'domain.key' file.";
      server_cert_path = "Path to your 'domain.cert' file.";
    };
  };
  db = record { url = "" };
}

module _ (lib : JsonLib) (system : FileSystem lib) where
  -- the text of a file that can be opened
  abbrev opened : String → Files → Option String
  opened name files = if system.readable name then files name else none

  abbrev parsed_text : Option String → Option lib.Json
  parsed_text none = none
  parsed_text (some text) = lib.parse text

  -- js_int after read_in has returned true; none where it has returned false
  unfoldable pub read_in : String → Files → Option lib.Json
  read_in name files = parsed_text (opened name files)

  unfoldable pub write_out : String → lib.Json → Action Files (Unit {0})
  write_out name j files = done (
    tt,
    if system.writable name
        then (λ other. if name == other then some (system.printed j) else files other)
        else files,
  )

  unfoldable pub write_configuration : String → Configuration → Action Files (Unit {0})
  unfolding write_out
  write_configuration name c = write_out name (to_json lib c)

  abbrev loaded : Option lib.Json → Action Files Configuration
  loaded none = pure default_configuration
  loaded (some j) = ask λ _. from_json lib j

  abbrev constructed : Bool → String → Action Files Configuration
  constructed true name = λ files. loaded (read_in name files) files
  constructed false name = do
    write_configuration name default_configuration
    pure default_configuration

  -- the constructor, which gives the member `config`
  unfoldable pub configuration_storage : String → Action Files Configuration
  configuration_storage name files = constructed (is_some (files name)) name files
