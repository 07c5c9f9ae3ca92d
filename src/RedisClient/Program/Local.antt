-- ===== src/RedisClient/Program/Local.antt =====
-- A command reads and changes one key: what it answers, and what the key holds then and for how
-- long.
use uwpx_push_server.Common.{
  Bool-cases, inl, inr, sym, eq_iff, ap, ◌≡◌, refl, ℕ, true, false, Bool, String, Option, none,
  some, List, ◌++◌, ◌==◌, if◌then◌else◌, is_some, arith, reply_error,
}
use uwpx_push_server.Common.Action.{done, threw}
use uwpx_push_server.Redis.{Entry, text, items, text_of, items_of, RedisLib, RedisLaws}
use uwpx_push_server.RedisClient.{default_entry_timeout}
use uwpx_push_server.RedisClient.Program.{
  Command, lrange, get, del, expire, set, rpush, key, Answer, execute,
}

-- what a key holds and for how long
abbrev pub View : Type 0
View = Option Entry × Option ℕ

abbrev pub view : (lib : RedisLib) → lib.Db → String → View
view lib d k = (lib.look d k, lib.ttl d k)

abbrev answered : {A : Type 0} → View → Option A → Option (A × View)
answered v none = none
answered v (some a) = some (a, v)

abbrev appended : List String → View → Option (List String) → Option (Unit {0} × View)
appended xs v none = none
appended xs v (some ys) = some (tt, (some (items (ys ++ xs)), v.1))

-- `none` is the error of a key of the other kind
abbrev pub outcome : (c : Command) → View → Option (Answer c × View)
outcome (lrange k) v = answered v (items_of v.0)
outcome (get k) v = answered v (text_of v.0)
outcome (del k) v = some (tt, (none, none))
outcome (expire k) v = some (tt, (v.0, if is_some v.0 then some default_entry_timeout else v.1))
outcome (set k x) v = some (tt, (some (text x), none))
outcome (rpush k xs) v = appended xs v (items_of v.0)

if_pair :
    (b : Bool) (x y : Option Entry) (u v : Option ℕ)
    → Path View (if b then x else y, if b then u else v) (if b then (x, u) else (y, v))
if_pair true x y u v = refl
if_pair false x y u v = refl

module _ (lib : RedisLib) where
  -- How the command `c` ends at `d`, where its key has the outcome `o`.
  abbrev pub Executed : (c : Command) (d : lib.Db) → Option (Answer c × View) → Type 0
  Executed c d none = execute lib c d ≡ threw reply_error d
  Executed c d (some r) =
      (d' : lib.Db) × (execute lib c d ≡ done (r.0, d'))
      × ((j : String) → view lib d' j ≡ (if key c == j then r.1 else view lib d j))

  if_same :
      (d : lib.Db) (k j : String) → view lib d j ≡ (if k == j then view lib d k else view lib d j)
  if_same d k j = elim (Bool-cases (k == j)) [
    | inl p ↦ rw p (ap (view lib d) (sym ((eq_iff k j).0 p)))
    | inr p ↦ rw p refl
  ]

  pushed_view :
      (d : lib.Db) (k j : String) (x : Option Entry)
      → Path View
          (if k == j then x else lib.look d j, lib.ttl d j)
          (if k == j then (x, lib.ttl d k) else view lib d j)
  pushed_view d k j x = elim (Bool-cases (k == j)) [
    | inl p ↦ rw p (ap (λ (i : String). (x, lib.ttl d i)) (sym ((eq_iff k j).0 p)))
    | inr p ↦ rw p refl
  ]

  expired_view :
      (d : lib.Db) (k j : String)
      → Path View
          (
            lib.look d j,
            if k == j
                then (if is_some (lib.look d k) then some default_entry_timeout else lib.ttl d j)
                else lib.ttl d j,
          )
          (if k == j
            then (
              lib.look d k,
              if is_some (lib.look d k) then some default_entry_timeout else lib.ttl d k,
            )
            else view lib d j)
  expired_view d k j = elim (Bool-cases (k == j)) [
    | inl p ↦ rw p (
        ap
          (λ (i : String). (
            lib.look d i,
            if is_some (lib.look d k) then some default_entry_timeout else lib.ttl d i,
          ))
          (sym ((eq_iff k j).0 p)))
    | inr p ↦ rw p refl
  ]

  module _ (laws : RedisLaws lib) where
    open laws use {
      get_look, lrange_look, look_set, ttl_set, look_del, ttl_del, look_expire, ttl_expire,
      rpush_items, rpush_text,
    }

    lrange_lem :
        (k : String) (d : lib.Db) (o : Option (List String))
        → lib.lrange d k ≡ o
        → Executed (lrange k) d (answered (view lib d k) o)
    lrange_lem k d none h = rw h refl
    lrange_lem k d (some xs) h = (d, rw h refl, λ j. if_same d k j)

    get_lem :
        (k : String) (d : lib.Db) (o : Option (Option String))
        → lib.get d k ≡ o
        → Executed (get k) d (answered (view lib d k) o)
    get_lem k d none h = rw h refl
    get_lem k d (some x) h = (d, rw h refl, λ j. if_same d k j)

    rpush_lem :
        (k : String) (xs : List String) (d : lib.Db) (o : Option (List String))
        → items_of (lib.look d k) ≡ o
        → Executed (rpush k xs) d (appended xs (view lib d k) o)
    rpush_lem k xs d none h = rw (rpush_text d k xs h) refl
    rpush_lem k xs d (some ys) h =
        let p = rpush_items d k xs ys h in
        (p.db, rw p.accepted refl, λ j. rw (p.look_pushed j, p.ttl_pushed j) (pushed_view d k j _))

    pub execute_lem : (c : Command) (d : lib.Db) → Executed c d (outcome c (view lib d (key c)))
    execute_lem (lrange k) d = lrange_lem k d _ (lrange_look d k)
    execute_lem (get k) d = get_lem k d _ (get_look d k)
    execute_lem (del k) d =
        (lib.del d k, refl, λ j. rw (look_del d k j, ttl_del d k j) (if_pair (k == j) _ _ _ _))
    execute_lem (expire k) d = (
      lib.expire d k default_entry_timeout,
      refl,
      λ j.
          rw
            (
              look_expire d k j default_entry_timeout (omega arith),
              ttl_expire d k j default_entry_timeout (omega arith),
            )
            (expired_view d k j),
    )
    execute_lem (set k v) d = (
      lib.set d k v,
      refl,
      λ j. rw (look_set d k j v, ttl_set d k j v) (if_pair (k == j) _ _ _ _),
    )
    execute_lem (rpush k xs) d = rpush_lem k xs d _ refl
