-- ===== src/RedisClient/Program/Renewal.antt =====
-- A notification of the XMPP server that arrives while the device renews its channel.
use mathlib.Core.List.{head?}
use uwpx_push_server.Common.{
  ◌≡◌, refl, String, Option, some, none, List, [], ◌∷◌, arith, ◌⊎◌, inl, inr, ◌==◌, false, eq_refl,
}
use uwpx_push_server.Common.Action.{done}
use uwpx_push_server.Redis.{RedisLib, RedisLaws, Pushed, items, items_of, Entry}
use uwpx_push_server.RedisClient.{default_entry_timeout, of_three}
use uwpx_push_server.RedisClient.Program.{
  Program, return, throw, call, lrange, del, expire, rpush, execute, step-call,
}
use uwpx_push_server.RedisClient.Program.Operations.{
  set_channel_uri, find_channel, get_channel_uri, channel_of, replace, push,
}
use uwpx_push_server.RedisClient.Program.Interleaving.{
  Threads, Steps, here, first_step, second_step,
}
use uwpx_push_server.RedisClient.Program.Rely.{
  Guarantees, Relies, Guarantees-call, Steps-Guaranteed,
}

-- the old channel, none, or the new one
abbrev pub OldOrNew : String → String → Option String → Type 0
OldOrNew old uri o = (o ≡ some old) ⊎ ((o ≡ none) ⊎ (o ≡ some uri))

-- A thread that has returned has found an answer with `Q`, and it has not thrown.
abbrev pub Finds : (Option String → Type 0) → Program (Option String) → Type 0
Finds Q (return o) = Q o
Finds Q (throw e) = ⊥
Finds Q (call c next) = Unit

pub read_list :
    (lib : RedisLib) (laws : RedisLaws lib) (k : String) (e : lib.Db) (o : Option Entry)
    (xs : List String)
    → lib.look e k ≡ o
    → items_of o ≡ some xs
    → execute lib (lrange k) e ≡ done (xs, e)
read_list lib laws k e o xs h i = rw (laws.lrange_look e k, h, i) refl

abbrev pub renewal :
    (lib : RedisLib) → String → String → String → lib.Db → Threads lib (Unit {0}) (Option String)
renewal lib device_id uri node d = record {
  first = set_channel_uri device_id uri;
  second = find_channel lib node;
  db = d;
}

module _ (lib : RedisLib) (laws : RedisLaws lib) (d : lib.Db) (device_id node uri : String)
    (other : (device_id == node) ≡ false) (account secret : String)
    (subscribed : lib.look d node ≡ some (items (account ∷ device_id ∷ secret ∷ []))) (old : String)
    (rest : List String) (known : lib.look d device_id ≡ some (items (old ∷ rest))) where
  open laws use {lrange_look, look_del, look_expire, rpush_items}

  -- what the device's list is meanwhile
  abbrev Meanwhile : lib.Db → Type 0
  Meanwhile e =
      (lib.look e node ≡ some (items (account ∷ device_id ∷ secret ∷ [])))
      × ((lib.look e device_id ≡ some (items (old ∷ rest)))
          ⊎ ((lib.look e device_id ≡ none) ⊎ (lib.look e device_id ≡ some (items (uri ∷ rest)))))

  pushed : Pushed lib (lib.del d device_id) device_id (uri ∷ rest) []
  pushed =
      rpush_items (lib.del d device_id) device_id (uri ∷ rest) []
        (rw (look_del d device_id device_id, eq_refl device_id) refl)

  find_channel-Relies : Relies lib Meanwhile (OldOrNew old uri) (find_channel lib node)
  unfolding find_channel
  find_channel-Relies e m = (
    account ∷ device_id ∷ secret ∷ [],
    read_list lib laws node e _ _ m.0 refl,
    λ e' m'. elim m'.1 [
      | inl h ↦ (old ∷ rest, read_list lib laws device_id e' _ _ h refl, inl refl)
      | inr (inl h) ↦ ([], read_list lib laws device_id e' _ _ h refl, inr (inl refl))
      | inr (inr h) ↦ (uri ∷ rest, read_list lib laws device_id e' _ _ h refl, inr (inr refl))
    ],
  )

  deleted-Meanwhile : Meanwhile (lib.del d device_id)
  deleted-Meanwhile = (
    rw (look_del d device_id node, other) subscribed,
    inr (inl (rw (look_del d device_id device_id, eq_refl device_id) refl)),
  )

  pushed-Meanwhile : Meanwhile pushed.db
  pushed-Meanwhile = (
    rw (pushed.look_pushed node, other) deleted-Meanwhile.0,
    inr (inr (rw (pushed.look_pushed device_id, eq_refl device_id) refl)),
  )

  expired-Meanwhile : Meanwhile (lib.expire pushed.db device_id default_entry_timeout)
  expired-Meanwhile = (
    rw (look_expire pushed.db device_id node default_entry_timeout (omega arith))
        pushed-Meanwhile.0,
    rw (look_expire pushed.db device_id device_id default_entry_timeout (omega arith))
        pushed-Meanwhile.1,
  )

  set_channel_uri-Guarantees : Guarantees lib Meanwhile (set_channel_uri device_id uri) d
  unfolding set_channel_uri
  set_channel_uri-Guarantees =
      Guarantees-call lib Meanwhile (lrange device_id) (replace device_id uri) d d (old ∷ rest)
        (subscribed, inl known) (read_list lib laws device_id d _ _ known refl)
        (Guarantees-call lib Meanwhile (del device_id) (λ _. push device_id (uri ∷ rest)) d
          (lib.del d device_id) tt (subscribed, inl known) refl
          (Guarantees-call lib Meanwhile (rpush device_id (uri ∷ rest))
            (λ _. call (expire device_id) (λ _. return tt)) (lib.del d device_id) pushed.db tt
            deleted-Meanwhile (rw pushed.accepted refl)
            (Guarantees-call lib Meanwhile (expire device_id) (λ _. return tt) pushed.db
              (lib.expire pushed.db device_id default_entry_timeout) tt pushed-Meanwhile refl
              expired-Meanwhile)))

  Relies-Finds :
      (p : Program (Option String))
      → Relies lib Meanwhile (OldOrNew old uri) p
      → Finds (OldOrNew old uri) p
  Relies-Finds (return o) w = w
  Relies-Finds (throw e) w = w
  Relies-Finds (call c next) w = tt

  -- A notification at a node of a device, while a thread renews the channel of the device with
  -- set_channel_uri, and their commands are mixed in any way: where its lookups have ended, they
  -- have found the old channel of the device, none, or the new one. The device is known, and its
  -- list and the node's are at different keys.
  pub find_channel-OldOrNew :
      (t : Threads lib (Unit {0}) (Option String))
      → Steps lib (renewal lib device_id uri node d) t
      → Finds (OldOrNew old uri) t.second
  find_channel-OldOrNew t steps =
      Relies-Finds t.second
        (Steps-Guaranteed lib Meanwhile (OldOrNew old uri) (renewal lib device_id uri node d) t
          set_channel_uri-Guarantees find_channel-Relies steps).1

  -- A notification for a device that is known and stays known can be dropped while the device
  -- renews its channel: there is an order of the commands in which both threads go to their ends,
  -- the lookups of the notification have found no channel, set_channel_uri has returned, the list
  -- of the device is the old one with the new channel, and the list at the node is the old one.
  pub find_channel_lost :
      (t : Threads lib (Unit {0}) (Option String)) × Steps lib (renewal lib device_id uri node d) t
      × (t.second ≡ return none)
      × (t.first ≡ return tt)
      × (lib.look t.db device_id ≡ some (items (uri ∷ rest)))
      × (lib.look t.db node ≡ some (items (account ∷ device_id ∷ secret ∷ [])))
  unfolding set_channel_uri find_channel
  find_channel_lost =
      let deleted = lib.del d device_id in
      let read : Steps lib (renewal lib device_id uri node d) (record {
        first = replace device_id uri (old ∷ rest);
        second = find_channel lib node;
        db = d;
      }) =
        first_step here (
          step-call lib (lrange device_id) (replace device_id uri) d d (old ∷ rest)
            (read_list lib laws device_id d _ _ known refl)) in
      let removed : Steps lib (renewal lib device_id uri node d) (record {
        first = push device_id (uri ∷ rest);
        second = find_channel lib node;
        db = deleted;
      }) =
        first_step read
          (step-call lib (del device_id) (λ _. push device_id (uri ∷ rest)) d deleted tt refl) in
      let asked : Steps lib (renewal lib device_id uri node d) (record {
        first = push device_id (uri ∷ rest);
        second = get_channel_uri device_id;
        db = deleted;
      }) =
        second_step removed (
          step-call lib (lrange node) (λ keys. channel_of (of_three lib 1 keys)) deleted deleted
            (account ∷ device_id ∷ secret ∷ [])
            (read_list lib laws node deleted _ _ deleted-Meanwhile.0 refl)) in
      let lost : Steps lib (renewal lib device_id uri node d)
          (record { first = push device_id (uri ∷ rest); second = return none; db = deleted }) =
        second_step asked (
          step-call lib (lrange device_id) (λ keys. return (head? keys)) deleted deleted []
            (read_list lib laws device_id deleted none []
              (rw (look_del d device_id device_id, eq_refl device_id) refl) refl)) in
      let written : Steps lib (renewal lib device_id uri node d) (record {
        first = call (expire device_id) (λ _. return tt);
        second = return none;
        db = pushed.db;
      }) =
        first_step lost (
          step-call lib (rpush device_id (uri ∷ rest))
            (λ _. call (expire device_id) (λ _. return tt)) deleted pushed.db tt
            (rw pushed.accepted refl)) in
      (
        record {
          first = return tt;
          second = return none;
          db = lib.expire pushed.db device_id default_entry_timeout;
        },
        first_step written (
            step-call lib (expire device_id) (λ _. return tt) pushed.db
              (lib.expire pushed.db device_id default_entry_timeout) tt refl),
        refl,
        refl,
        rw
            (
              look_expire pushed.db device_id device_id default_entry_timeout (omega arith),
              pushed.look_pushed device_id,
              eq_refl device_id,
            )
            refl,
        expired-Meanwhile.0,
      )
