-- ===== src/Wns/Sound/Loading.antt =====
-- load_token_from_db, in any database.
use uwpx_push_server.Common.{refl, ℕ, String, Option, none, some, List, or_throw, reply_error, ℤ}
use uwpx_push_server.Common.Action.{go_on, answered, put_back, pure}
use uwpx_push_server.Common.Sound.{Sound, returned, thrown, go_on-Sound}
use uwpx_push_server.Json.{JsonLib}
use uwpx_push_server.Redis.{RedisLib}
use uwpx_push_server.RedisClient.WnsToken.{
  wns_token_key, get_wns_token, get_wns_token_type, get_wns_token_expire_date,
}
use uwpx_push_server.Wns.{
  WnsClient, Response, Post, load_token_from_db, loaded, loaded_typed, loaded_with,
}
use uwpx_push_server.Configuration.{WnsConfiguration}

module _ (json : JsonLib) (lib : RedisLib) (config : WnsConfiguration)
    (answer : List Post → Response) (clock : List Post → ℕ) (I : lib.Db → Type 0) where
  abbrev Keeps : {A : Type 0} → A → WnsClient lib → Type 0
  Keeps a w = I w.db

  abbrev KeepsDb : WnsClient lib → Type 0
  KeepsDb w = I w.db

  -- what reads one list
  read-Sound :
      {A : Type 0} (r : Option (List String)) (f : List String → A) (w : WnsClient lib)
      → I w.db
      → Sound Keeps KeepsDb (
          put_back
            (λ d w. record w { db = d })
            w
            (go_on (answered w.db (or_throw reply_error r)) (λ keys. pure (f keys))))
  read-Sound none f w h = thrown refl h
  read-Sound (some keys) f w h = returned h

  loaded_with-Sound :
      (token type : String) (date : Option ℤ) (w : WnsClient lib)
      → I w.db
      → Sound Keeps KeepsDb (loaded_with json lib config answer clock token type date w)
  loaded_with-Sound token type none w h = returned h
  loaded_with-Sound token type (some expires) w h = returned h

  loaded_typed-Sound :
      (token : String) (type : Option String) (w : WnsClient lib)
      → I w.db
      → Sound Keeps KeepsDb (loaded_typed json lib config answer clock token type w)
  unfolding get_wns_token_expire_date
  loaded_typed-Sound token none w h = returned h
  loaded_typed-Sound token (some type) w h =
      go_on-Sound _ (loaded_with json lib config answer clock token type)
        (read-Sound (lib.lrange w.db wns_token_key) _ w h) (loaded_with-Sound token type)

  loaded-Sound :
      (token : Option String) (w : WnsClient lib)
      → I w.db
      → Sound Keeps KeepsDb (loaded json lib config answer clock token w)
  unfolding get_wns_token_type
  loaded-Sound none w h = returned h
  loaded-Sound (some token) w h =
      go_on-Sound _ (loaded_typed json lib config answer clock token)
        (read-Sound (lib.lrange w.db wns_token_key) _ w h) (loaded_typed-Sound token)

  -- load_token_from_db returns or throws an exception, whatever the database holds, and changes
  -- nothing of it.
  pub load_token_from_db-Sound :
      (w : WnsClient lib)
      → I w.db
      → Sound Keeps KeepsDb (load_token_from_db json lib config answer clock w)
  unfolding load_token_from_db get_wns_token
  load_token_from_db-Sound w h =
      go_on-Sound _ (loaded json lib config answer clock)
        (read-Sound (lib.lrange w.db wns_token_key) _ w h) loaded-Sound
