-- ===== src/RedisClient/WnsToken.antt =====
-- storage/redis/RedisClient.cpp: the token of the push service and its date of expiry, in whole
-- seconds since 1970.
use uwpx_push_server.Common.{
  true, false, sym, Bool, ◌≡◌, ◌∙◌, ap, ℕ, ◌≤◌, String, Option, none, some, List, [], ◌∷◌, ok,
  if◌then◌else◌, ℤ, pos, ltb,
}
use uwpx_push_server.Common.Action.{done, Action, Ends, pure, change, ◌>>=◌, ◌>>◌}
use uwpx_push_server.Common.Decimal.{to_string, strtoll, strtoll-to_string, long_long_max}
use uwpx_push_server.Redis.{RedisLib, RedisLaws, items, items_of, Pushed}
use uwpx_push_server.RedisClient.{lrange, set, del, rpush, of_three}

-- WNS_TOKEN_KEY
abbrev pub wns_token_key : String
wns_token_key = "WNS"

abbrev date_of : Option String → Option ℤ
date_of none = none
date_of (some s) = some (strtoll s)

abbrev pub kept {ℓ} : {A : Type ℓ} → Bool → A → Option A
kept b x = if b then some x else none

module _ (lib : RedisLib) where
  open lib use {Db}

  abbrev expireat : String → ℤ → Action Db (Unit {0})
  expireat k t = change λ d. ok (lib.expireat d k t)

  unfoldable pub set_wns_token : String → String → ℤ → Action Db (Unit {0})
  set_wns_token token type expires = do
    set lib wns_token_key token
    del lib wns_token_key
    rpush lib wns_token_key (token ∷ type ∷ to_string expires ∷ [])
    expireat wns_token_key expires

  unfoldable pub get_wns_token : Action Db (Option String)
  get_wns_token = do keys ← lrange lib wns_token_key; pure (of_three lib 0 keys)

  unfoldable pub get_wns_token_type : Action Db (Option String)
  get_wns_token_type = do keys ← lrange lib wns_token_key; pure (of_three lib 1 keys)

  unfoldable pub get_wns_token_expire_date : Action Db (Option ℤ)
  get_wns_token_expire_date = do
    keys ← lrange lib wns_token_key
    pure (date_of (of_three lib 2 keys))

  -- What the three getters answer.
  pub record Told (d : Db) (token type : Option String) (date : Option ℤ) : Type 0 where
    pub told_token : get_wns_token d ≡ done (token, d)
    pub told_type : get_wns_token_type d ≡ done (type, d)
    pub told_date : get_wns_token_expire_date d ≡ done (date, d)

  module _ (laws : RedisLaws lib) where
    open laws use {lrange_look, look_del, look_expireat, rpush_items, now_set, now_del, now_rpush}

    Told-nothing : (d : Db) → lib.look d wns_token_key ≡ none → Told d none none none
    unfolding get_wns_token get_wns_token_type get_wns_token_expire_date
    Told-nothing d h =
        let read : lib.lrange d wns_token_key ≡ some [] =
          lrange_look d wns_token_key ∙ ap items_of h in
        record { told_token = rw read; told_type = rw read; told_date = rw read }

    Told-three :
        (d : Db) (token type date : String)
        → lib.look d wns_token_key ≡ some (items (token ∷ type ∷ date ∷ []))
        → Told d (some token) (some type) (some (strtoll date))
    unfolding get_wns_token get_wns_token_type get_wns_token_expire_date
    Told-three d token type date h =
        let read : lib.lrange d wns_token_key ≡ some (token ∷ type ∷ date ∷ []) =
          lrange_look d wns_token_key ∙ ap items_of h in
        record { told_token = rw read; told_type = rw read; told_date = rw read }

    Told-kept :
        (d : Db) (future : Bool) (token type date : String) (expires : ℤ)
        → lib.look d wns_token_key
          ≡ (if future then some (items (token ∷ type ∷ date ∷ [])) else none)
        → strtoll date ≡ expires
        → Told d (kept future token) (kept future type) (kept future expires)
    Told-kept d true token type date expires h e = rw (sym e) (Told-three d token type date h)
    Told-kept d false token type date expires h e = Told-nothing d h

    module _ (d : Db) (token type : String) (expires : ℕ) where
      abbrev cleared : Db
      cleared = lib.del (lib.set d wns_token_key token) wns_token_key

      abbrev entry : List String
      entry = token ∷ type ∷ to_string (pos expires) ∷ []

      pushed : Pushed lib cleared wns_token_key entry []
      pushed =
          rpush_items cleared wns_token_key entry []
            (ap items_of (look_del (lib.set d wns_token_key token) wns_token_key wns_token_key))

      clock : lib.now pushed.db ≡ lib.now d
      clock =
          now_rpush cleared pushed.db wns_token_key entry pushed.accepted
          ∙ now_del (lib.set d wns_token_key token) wns_token_key
          ∙ now_set d wns_token_key token

      stored :
          lib.look (lib.expireat pushed.db wns_token_key (pos expires)) wns_token_key
          ≡ (if ltb (lib.now d) expires then some (items entry) else none)
      stored =
          look_expireat pushed.db wns_token_key wns_token_key (pos expires)
          ∙ rw (clock, pushed.look_pushed wns_token_key)

      -- set_wns_token returns, whatever the key held. The getters then answer with the token, its
      -- type and the very date if the date lies in the future, and with nothing if it does not; the
      -- date is one after 1970 that fits in 63 bits.
      pub set_wns_token_lem :
          expires ≤ long_long_max
          → Ends (set_wns_token token type (pos expires)) d (λ _ d'.
            Told d'
              (kept (ltb (lib.now d) expires) token)
              (kept (ltb (lib.now d) expires) type)
              (kept (ltb (lib.now d) expires) (pos expires)))
      unfolding set_wns_token
      set_wns_token_lem fits = record {
        result = tt;
        state = lib.expireat pushed.db wns_token_key (pos expires);
        returns = rw pushed.accepted;
        holds =
            Told-kept _ (ltb (lib.now d) expires) token type (to_string (pos expires)) (pos expires)
              stored (strtoll-to_string expires fits);
      }
