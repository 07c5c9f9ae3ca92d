-- ===== src/Configuration/Storage/Files.antt =====
-- storage/ConfigurationStorage.cpp: what happens to the file at a start.
use uwpx_push_server.Common.{
  ◌≡◌, refl, true, false, String, Option, none, some, is_some, ok, arith, eq_refl, if◌then◌else◌,
  ◌==◌, Result, err,
}
use uwpx_push_server.Common.Action.{answered, done, left, Ends}
use uwpx_push_server.Json.{JsonLib, JsonLaws}
use uwpx_push_server.Configuration.{Configuration, from_json, to_json}
use uwpx_push_server.Configuration.RoundTrip.{IsConfiguration, from_json-to_json}
use uwpx_push_server.Configuration.Storage.{
  Files, FileSystem, default_configuration, loaded, read_in, write_configuration,
  configuration_storage,
}

module _ (lib : JsonLib) (system : FileSystem lib) where
  loaded_keeps : (j : Option lib.Json) (files : Files) → left (loaded lib system j files) ≡ files
  loaded_keeps none files = refl
  loaded_keeps (some j) files = left-asked (from_json lib j) files
    where
      left-asked : (r : Result Configuration) (fs : Files) → left (answered fs r) ≡ fs
      left-asked (ok c) fs = refl
      left-asked (err e) fs = refl

  -- A file that exists is not changed at a start, whether it can be read, is JSON and has all that
  -- a configuration has, or not.
  pub configuration_storage-keeps :
      (name : String) (files : Files)
      → is_some (files name) ≡ true
      → left (configuration_storage lib system name files) ≡ files
  unfolding configuration_storage
  configuration_storage-keeps name files h =
      rw h (loaded_keeps (read_in lib system name files) files)

  module _ (laws : JsonLaws lib) (name : String) (can_read : system.readable name ≡ true) where
    -- A configuration that stands in the file is read.
    pub configuration_storage_lem :
        (c : Configuration) (files : Files)
        → IsConfiguration c
        → lib.parse (system.printed (to_json lib c)) ≡ some (to_json lib c)
        → files name ≡ some (system.printed (to_json lib c))
        → configuration_storage lib system name files ≡ done (c, files)
    unfolding configuration_storage read_in
    configuration_storage_lem c files h p e = rw (e, can_read, e, p, from_json-to_json lib laws c h)

    -- What a start without a file leaves: a file that holds the default configuration, and no other
    -- change.
    pub record Prepared (files files' : Files) : Type 0 where
      pub others : (other : String) → (name == other) ≡ false → files' other ≡ files other
      pub next : configuration_storage lib system name files' ≡ done (default_configuration, files')

    -- A start without a configuration file gives the default configuration and writes it to the
    -- file, no other file is changed, and the next start reads it from there and changes nothing.
    -- The file system lets the file be written and read, and what is printed of the default
    -- configuration is parsed as what it was printed of.
    pub configuration_storage_first :
        (files : Files)
        → files name ≡ none
        → system.writable name ≡ true
        → lib.parse (system.printed (to_json lib default_configuration))
          ≡ some (to_json lib default_configuration)
        → Ends
            (configuration_storage lib system name)
            files
            (λ c files'. (c ≡ default_configuration) × Prepared files files')
    unfolding configuration_storage write_configuration
    configuration_storage_first files h w p = record {
      result = default_configuration;
      state = λ other.
          if name == other
          then some (system.printed (to_json lib default_configuration))
          else files other;
      returns = rw (h, w);
      holds = (
        refl,
        record {
          others = λ other e. rw e;
          next =
              configuration_storage_lem default_configuration _ (omega arith) p (rw (eq_refl name));
        },
      );
    }
