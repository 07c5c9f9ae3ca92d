-- ===== src/Main/Signals.antt =====
-- main.cpp: how a run without input ends.
use uwpx_push_server.Common.{
  ◌≡◌, refl, ℕ, suc, Bool, true, false, List, [], ◌∷◌, ◌||◌, if◌then◌else◌, nat_eq, arith,
}
use uwpx_push_server.Main.{sigint, signal_handler, signalled, headless}

abbrev pub interrupted : List ℕ → Bool
interrupted [] = false
interrupted (signal ∷ rest) = nat_eq signal sigint || interrupted rest

without_server :
    (signals : List ℕ) (n : ℕ)
    → signalled signals (record { server_ptr = false; stops = n })
      ≡ record { server_ptr = false; stops = n }
unfolding signal_handler
without_server [] n = refl
without_server (signal ∷ rest) n = ground (arith, without_server rest n)

with_server :
    (signals : List ℕ) (n : ℕ)
    → signalled signals (record { server_ptr = true; stops = n }) ≡ (
        if interrupted signals
        then record { server_ptr = false; stops = suc n }
        else record { server_ptr = true; stops = n })
unfolding signal_handler
with_server [] n = refl
with_server (signal ∷ rest) n = ground (arith, with_server rest n, without_server rest (suc n))

-- In a run without input the server is stopped exactly once, and the loop of main ends, if SIGINT
-- arrives once serverPtr is set, however often it does; and if it does not arrive then, the loop
-- goes on, whatever has arrived before.
pub headless_lem :
    (before after : List ℕ)
    → headless before after ≡ (
        if interrupted after
        then record { server_ptr = false; stops = 1 }
        else record { server_ptr = true; stops = 0 })
unfolding headless
headless_lem before after = rw (without_server before 0) (with_server after 0)
