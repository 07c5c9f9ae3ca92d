-- ===== src/RedisClient/Channel.antt =====
-- set_channel_uri, and what get_channel_uri and get_version read.
use uwpx_push_server.Common.{
  ◌≡◌, refl, ◌∙◌, ap, Bool, false, String, some, List, [], ◌∷◌, if◌then◌else◌, ◌==◌, arith, drop,
  eq_refl, eq_iff,
}
use mathlib.Core.List.{head?}
use uwpx_push_server.Common.Action.{done, Ends}
use uwpx_push_server.Redis.{RedisLib, RedisLaws, items, Pushed}
use uwpx_push_server.RedisClient.{
  default_entry_timeout, set_channel_uri, get_channel_uri, get_version, replaced,
}
use uwpx_push_server.RedisClient.Typed.{IsTyped, held, holds_text, items_of-held}

module _ (lib : RedisLib) (is_key : String → Bool) where
  -- What set_channel_uri leaves: the first entry of the device's list is the channel, what followed
  -- it stays, and so does all else in the database; the list lives for the whole timeout.
  pub record Updated (device_id uri : String) (d d' : lib.Db) : Type 0 where
    pub typed : IsTyped lib is_key d'
    pub device : held (lib.look d' device_id) ≡ uri ∷ drop 1 (held (lib.look d device_id))
    pub others : (j : String) → (device_id == j) ≡ false → lib.look d' j ≡ lib.look d j
    pub lifetime : lib.ttl d' device_id ≡ some default_entry_timeout
    pub other_lifetimes : (j : String) → (device_id == j) ≡ false → lib.ttl d' j ≡ lib.ttl d j

  module _ (laws : RedisLaws lib) where
    open laws use {ttl_del, lrange_look, look_del, look_expire, ttl_expire, rpush_items}

    module _ (d : lib.Db) (typed : IsTyped lib is_key d) (device_id : String)
        (device_list : is_key device_id ≡ false) where
      device_read : lib.lrange d device_id ≡ some (held (lib.look d device_id))
      device_read =
          lrange_look d device_id
          ∙ items_of-held (lib.look d device_id) (typed.lists device_id device_list)

      pub get_channel_uri_lem :
          get_channel_uri lib device_id d ≡ done (head? (held (lib.look d device_id)), d)
      unfolding get_channel_uri
      get_channel_uri_lem = rw device_read

      pub get_version_lem :
          (uri version : String) (keys : List String)
          → held (lib.look d device_id) ≡ uri ∷ version ∷ keys
          → get_version lib device_id d ≡ done (some version, d)
      unfolding get_version
      get_version_lem uri version keys e = rw (device_read, e) (ground arith)

      module _ (uri : String) where
        -- by what the device's list was: the database before the push, and what is pushed
        abbrev before : List String → lib.Db
        before [] = d
        before (_ ∷ rest) = lib.del d device_id

        replaced-before :
            (keys : List String)
            → replaced lib device_id uri keys d ≡ done (uri ∷ drop 1 keys, before keys)
        replaced-before [] = refl
        replaced-before (k ∷ rest) = refl

        before_list :
            (keys : List String)
            → held (lib.look d device_id) ≡ keys
            → holds_text (lib.look (before keys) device_id) ≡ false
        before_list [] e = typed.lists device_id device_list
        before_list (k ∷ rest) e = rw (look_del d device_id device_id, eq_refl device_id)

        before_empty :
            (keys : List String)
            → held (lib.look d device_id) ≡ keys
            → held (lib.look (before keys) device_id) ≡ []
        before_empty [] e = e
        before_empty (k ∷ rest) e = rw (look_del d device_id device_id, eq_refl device_id)

        before_others :
            (keys : List String) (j : String)
            → (device_id == j) ≡ false
            → lib.look (before keys) j ≡ lib.look d j
        before_others [] j ne = refl
        before_others (k ∷ rest) j ne = rw (look_del d device_id j, ne)

        abbrev old : List String
        old = held (lib.look d device_id)

        pushed : Pushed lib (before old) device_id (uri ∷ drop 1 old) []
        pushed = rpush_items (before old) device_id (uri ∷ drop 1 old) [] (
            items_of-held (lib.look (before old) device_id) (before_list old refl)
            ∙ ap some (before_empty old refl))

        abbrev final : lib.Db
        final = lib.expire pushed.db device_id default_entry_timeout

        look_final :
            (j : String)
            → lib.look final j
              ≡ (if device_id == j then some (items (uri ∷ drop 1 old)) else lib.look d j)
        look_final j = ground (
          arith,
          look_expire pushed.db device_id j default_entry_timeout (omega arith),
          pushed.look_pushed j,
          before_others old j,
        )

        ttl_final : lib.ttl final device_id ≡ some default_entry_timeout
        ttl_final = rw (
          ttl_expire pushed.db device_id device_id default_entry_timeout (omega arith),
          eq_refl device_id,
          pushed.look_pushed device_id,
          eq_refl device_id,
        )

        before_ttl :
            (keys : List String) (j : String)
            → (device_id == j) ≡ false
            → lib.ttl (before keys) j ≡ lib.ttl d j
        before_ttl [] j ne = refl
        before_ttl (k ∷ rest) j ne = rw (ttl_del d device_id j, ne) refl

        other_ttl : (j : String) → (device_id == j) ≡ false → lib.ttl final j ≡ lib.ttl d j
        other_ttl j ne =
            rw
              (
                ttl_expire pushed.db device_id j default_entry_timeout (omega arith),
                ne,
                pushed.ttl_pushed j,
              )
              (before_ttl old j ne)

        -- From a database in which account keys hold strings and other keys lists, for a device
        -- whose id is no account key, set_channel_uri returns, for a new device as for a known one.
        -- The device's list then begins with the new channel and keeps what followed the old one,
        -- it lives for the whole timeout, every other key holds what it held, for as long as
        -- before, and the kinds are kept.
        pub set_channel_uri_lem :
            Ends (set_channel_uri lib device_id uri) d (λ _. Updated device_id uri d)
        unfolding set_channel_uri
        set_channel_uri_lem = record {
          result = tt;
          state = final;
          returns = rw (device_read, replaced-before old, pushed.accepted);
          holds = record {
            typed = record {
              lists = λ n h. ground (arith, look_final n, typed.lists n h);
              strings = λ k h. ground (arith, look_final k, typed.strings k h, eq_iff device_id k);
            };
            device = rw (look_final device_id, eq_refl device_id);
            others = λ j ne. rw (look_final j, ne);
            lifetime = ttl_final;
            other_lifetimes = other_ttl;
          };
        }
