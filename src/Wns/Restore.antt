-- ===== src/Wns/Restore.antt =====
-- The token of the notification service, stored and loaded again.
use uwpx_push_server.Common.{◌<◌, arith, true, ltb, ℤ, ◌≡◌, ℕ, ◌≤◌, String, Option, some, List, pos}
use uwpx_push_server.Common.Action.{Ends, done}
use uwpx_push_server.Common.Decimal.{long_long_max}
use uwpx_push_server.Json.{JsonLib}
use uwpx_push_server.Redis.{RedisLib, RedisLaws}
use uwpx_push_server.RedisClient.WnsToken.{set_wns_token_lem, Told}
use uwpx_push_server.Configuration.{WnsConfiguration}
use uwpx_push_server.Wns.Token.{WnsToken}
use uwpx_push_server.Wns.{Response, Post, WnsClient, store_token_in_db, load_token_from_db}

module _ (json : JsonLib) (lib : RedisLib) (laws : RedisLaws lib) (config : WnsConfiguration)
    (answer : List Post → Response) (clock : List Post → ℕ) where
  load-Told :
      (s : WnsClient lib) (type token : String) (expires : ℤ)
      → Told lib s.db (some token) (some type) (some expires)
      → load_token_from_db json lib config answer clock s
        ≡ done (
          tt,
          record s { token = some (record { type = type; token = token; expires = expires }) },
        )
  unfolding load_token_from_db
  load-Told s type token expires t = rw (t.told_token, t.told_type, t.told_date)

  -- A token that is stored in the database while it has not expired is the token that a client on
  -- the same database loads, if its date is one after 1970 that fits in 63 bits.
  pub load_token_from_db-store_token_in_db :
      (s : WnsClient lib) (type token : String) (expires : ℕ)
      → expires ≤ long_long_max
      → lib.now s.db < expires
      → Ends
          (store_token_in_db json lib config answer clock
            (record { type = type; token = token; expires = pos expires }))
          s
          (λ _ s'.
            (forgotten : Option WnsToken)
            → load_token_from_db json lib config answer clock (record s' { token = forgotten })
              ≡ done (
                tt,
                record s' {
                  token = some (record { type = type; token = token; expires = pos expires });
                },
              ))
  unfolding store_token_in_db
  load_token_from_db-store_token_in_db s type token expires fits future =
      let later : ltb (lib.now s.db) expires ≡ true = ground arith in
      let stored = set_wns_token_lem lib laws s.db token type expires fits in
      record {
        result = stored.result;
        state = record s { db = stored.state };
        returns = rw stored.returns;
        holds = λ forgotten.
            load-Told (record s { db = stored.state; token = forgotten }) type token (pos expires)
              (rw later at stored.holds);
      }
