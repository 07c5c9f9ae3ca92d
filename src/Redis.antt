-- ===== src/Redis.antt =====
-- The Redis server and redis-plus-plus, which are not part of the repository: the commands that the
-- code sends, as the fields of a record, and their documented effect; commands take no time, and
-- what the server does of its own accord as time passes is a record of its own. Lost connections
-- are left out.
pub mod Memory
use uwpx_push_server.Common.{
  ℤ, pos, ltℤ, ◌≡◌, ℕ, ◌<◌, Bool, true, false, String, Option, none, some, List, [], ◌∷◌, ◌++◌,
  ◌==◌, ltb, if◌then◌else◌, is_some, ◌-◌,
}

-- What a key holds: a string or a list.
pub data Entry : Type 0 where
  text : String → Entry
  items : List String → Entry

-- The answers of GET and LRANGE 0 -1, where `none` is the error of a key of the other kind.
abbrev pub text_of : Option Entry → Option (Option String)
text_of none = some none
text_of (some (text s)) = some (some s)
text_of (some (items xs)) = none

abbrev pub items_of : Option Entry → Option (List String)
items_of none = some []
items_of (some (text s)) = none
items_of (some (items xs)) = some xs

pub record RedisLib : Type 1 where
  pub Db : Type 0
  -- what a key holds, for how many seconds more (`none`: for good), and the server's clock
  pub look : Db → String → Option Entry
  pub ttl : Db → String → Option ℕ
  pub now : Db → ℕ
  pub get : Db → String → Option (Option String)
  pub lrange : Db → String → Option (List String)
  pub set : Db → String → String → Db
  pub del : Db → String → Db
  -- `none` is the error of a key that holds a string
  pub rpush : Db → String → List String → Option Db
  pub expire : Db → String → ℕ → Db
  pub expireat : Db → String → ℤ → Db

module _ (lib : RedisLib) where
  open lib use {Db, look, ttl, now, get, lrange, set, del, rpush, expire, expireat}

  -- What RPUSH does to a key that holds no string.
  pub record Pushed (d : Db) (k : String) (xs ys : List String) : Type 0 where
    pub db : Db
    pub accepted : rpush d k xs ≡ some db
    pub look_pushed :
        (j : String) → look db j ≡ (if k == j then some (items (ys ++ xs)) else look d j)
    pub ttl_pushed : (j : String) → ttl db j ≡ ttl d j

  pub record RedisLaws : Type 0 where
    pub get_look : (d : Db) (k : String) → get d k ≡ text_of (look d k)
    pub lrange_look : (d : Db) (k : String) → lrange d k ≡ items_of (look d k)
    pub look_set :
        (d : Db) (k j v : String)
        → look (set d k v) j ≡ (if k == j then some (text v) else look d j)
    pub ttl_set : (d : Db) (k j v : String) → ttl (set d k v) j ≡ (if k == j then none else ttl d j)
    pub look_del : (d : Db) (k j : String) → look (del d k) j ≡ (if k == j then none else look d j)
    pub ttl_del : (d : Db) (k j : String) → ttl (del d k) j ≡ (if k == j then none else ttl d j)
    pub look_expire : (d : Db) (k j : String) (n : ℕ) → 0 < n → look (expire d k n) j ≡ look d j
    pub ttl_expire :
        (d : Db) (k j : String) (n : ℕ)
        → 0 < n
        → ttl (expire d k n) j
          ≡ (if k == j then (if is_some (look d k) then some n else ttl d j) else ttl d j)
    pub look_expireat :
        (d : Db) (k j : String) (t : ℤ)
        → look (expireat d k t) j
          ≡ (if k == j then (if ltℤ (pos (now d)) t then look d j else none) else look d j)
    pub rpush_items :
        (d : Db) (k : String) (xs ys : List String)
        → items_of (look d k) ≡ some ys
        → Pushed d k xs ys
    pub rpush_text :
        (d : Db) (k : String) (xs : List String) → items_of (look d k) ≡ none → rpush d k xs ≡ none
    pub now_set : (d : Db) (k v : String) → now (set d k v) ≡ now d
    pub now_del : (d : Db) (k : String) → now (del d k) ≡ now d
    pub now_rpush :
        (d d' : Db) (k : String) (xs : List String) → rpush d k xs ≡ some d' → now d' ≡ now d

-- What is left of a key and of its time when some seconds have passed.
abbrev pub outlives : ℕ → Option ℕ → Bool
outlives seconds none = true
outlives seconds (some n) = ltb seconds n

abbrev pub remaining : ℕ → Option ℕ → Option ℕ
remaining seconds none = none
remaining seconds (some n) = if ltb seconds n then some (n - seconds) else none

module _ (lib : RedisLib) where
  -- The server's clock: `wait d n` is what `d` has become in `n` seconds without commands. Keys
  -- whose time is over are gone.
  pub record Clock : Type 0 where
    pub wait : lib.Db → ℕ → lib.Db
    pub look_wait :
        (d : lib.Db) (seconds : ℕ) (k : String)
        → lib.look (wait d seconds) k
          ≡ (if outlives seconds (lib.ttl d k) then lib.look d k else none)
    pub ttl_wait :
        (d : lib.Db) (seconds : ℕ) (k : String)
        → lib.ttl (wait d seconds) k ≡ remaining seconds (lib.ttl d k)
