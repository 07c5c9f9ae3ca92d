-- ===== src/RedisClient/Program/Schedule.antt =====
-- Interleavings that are run: a list says which thread sends its next command.
use uwpx_push_server.Common.{◌≡◌, refl, Bool, true, false, Option, some, none, List, [], ◌∷◌}
use uwpx_push_server.Redis.{RedisLib}
use uwpx_push_server.RedisClient.Program.{Program, step}
use uwpx_push_server.RedisClient.Program.Interleaving.{
  Threads, Steps, here, first_step, second_step,
}

module _ {A B : Type 0} (lib : RedisLib) where
  abbrev first_to : Threads lib A B → Option (Program A × lib.Db) → Threads lib A B
  first_to t none = t
  first_to t (some r) = record t { first = r.0; db = r.1 }

  abbrev second_to : Threads lib A B → Option (Program B × lib.Db) → Threads lib A B
  second_to t none = t
  second_to t (some r) = record t { second = r.0; db = r.1 }

  -- a thread that has ended stays as it is
  unfoldable pub schedule : List Bool → Threads lib A B → Threads lib A B
  schedule [] t = t
  schedule (true ∷ rest) t = schedule rest (first_to t (step lib t.first t.db))
  schedule (false ∷ rest) t = schedule rest (second_to t (step lib t.second t.db))

  first_to-Steps :
      (s t : Threads lib A B) (o : Option (Program A × lib.Db))
      → step lib t.first t.db ≡ o
      → Steps lib s t
      → Steps lib s (first_to t o)
  first_to-Steps s t none h w = w
  first_to-Steps s t (some r) h w = first_step w h

  second_to-Steps :
      (s t : Threads lib A B) (o : Option (Program B × lib.Db))
      → step lib t.second t.db ≡ o
      → Steps lib s t
      → Steps lib s (second_to t o)
  second_to-Steps s t none h w = w
  second_to-Steps s t (some r) h w = second_step w h

  schedule-Steps_from :
      (list : List Bool) (s t : Threads lib A B) → Steps lib s t → Steps lib s (schedule list t)
  unfolding schedule
  schedule-Steps_from [] s t w = w
  schedule-Steps_from (true ∷ rest) s t w =
      schedule-Steps_from rest s _ (first_to-Steps s t (step lib t.first t.db) refl w)
  schedule-Steps_from (false ∷ rest) s t w =
      schedule-Steps_from rest s _ (second_to-Steps s t (step lib t.second t.db) refl w)

  pub schedule-Steps : (list : List Bool) (s : Threads lib A B) → Steps lib s (schedule list s)
  schedule-Steps list s = schedule-Steps_from list s s here
