-- ===== src/Redis/Memory.antt =====
-- A Redis server in memory that has the documented behaviour: it serves the tests.
use uwpx_push_server.Common.{
  pos, ltℤ, ap, ◌≡◌, refl, ℕ, String, Option, none, some, List, ◌++◌, ◌==◌, if◌then◌else◌, is_some,
  ◌+◌, arith,
}
use uwpx_push_server.Redis.{
  Entry, text, items, text_of, items_of, RedisLib, RedisLaws, Clock, outlives, remaining,
}

pub record Server : Type 0 where
  pub entries : String → Option Entry
  pub timeouts : String → Option ℕ
  pub clock : ℕ

abbrev pub no_entries : ℕ → Server
no_entries n = record { entries = λ _. none; timeouts = λ _. none; clock = n }

abbrev write : Server → String → Option Entry → Server
write s k e = record s {
  entries = λ j. if k == j then e else s.entries j;
  timeouts = λ j. if k == j then none else s.timeouts j;
}

abbrev append : Server → String → List String → Server
append s k xs = record s { entries = λ j. if k == j then some (items xs) else s.entries j }

abbrev pushed : Server → String → List String → Option (List String) → Option Server
pushed s k xs none = none
pushed s k xs (some ys) = some (append s k (ys ++ xs))

unfoldable pub memory : RedisLib
memory = record {
  Db = Server;
  look = λ s. s.entries;
  ttl = λ s. s.timeouts;
  now = λ s. s.clock;
  get = λ s k. text_of (s.entries k);
  lrange = λ s k. items_of (s.entries k);
  set = λ s k v. write s k (some (text v));
  del = λ s k. write s k none;
  rpush = λ s k xs. pushed s k xs (items_of (s.entries k));
  expire = λ s k n. record s {
    timeouts = λ j.
        if k == j then (if is_some (s.entries k) then some n else s.timeouts j) else s.timeouts j;
  };
  expireat = λ s k t. record s {
    entries =
        λ j. if k == j then (if ltℤ (pos s.clock) t then s.entries j else none) else s.entries j;
  };
}

now_pushed :
    (s d : Server) (k : String) (xs : List String) (o : Option (List String))
    → pushed s k xs o ≡ some d
    → d.clock ≡ s.clock
now_pushed s d k xs none h = ground arith
now_pushed s d k xs (some ys) h = ground arith

pub memory_laws : RedisLaws memory
unfolding memory
memory_laws = record {
  get_look = λ d k. refl;
  lrange_look = λ d k. refl;
  look_set = λ d k j v. refl;
  ttl_set = λ d k j v. refl;
  look_del = λ d k j. refl;
  ttl_del = λ d k j. refl;
  look_expire = λ d k j n p. refl;
  ttl_expire = λ d k j n p. refl;
  look_expireat = λ d k j t. refl;
  rpush_items = λ d k xs ys h. record {
    db = append d k (ys ++ xs);
    accepted = ap (pushed d k xs) h;
    look_pushed = λ j. refl;
    ttl_pushed = λ j. refl;
  };
  rpush_text = λ d k xs h. ap (pushed d k xs) h;
  now_set = λ d k v. refl;
  now_del = λ d k. refl;
  now_rpush = λ d d' k xs h. now_pushed d d' k xs (items_of (d.entries k)) h;
}

pub memory_clock : Clock memory
unfolding memory
memory_clock = record {
  wait = λ s seconds. record {
    entries = λ k. if outlives seconds (s.timeouts k) then s.entries k else none;
    timeouts = λ k. remaining seconds (s.timeouts k);
    clock = s.clock + seconds;
  };
  look_wait = λ d seconds k. refl;
  ttl_wait = λ d seconds k. refl;
}
