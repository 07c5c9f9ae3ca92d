-- ===== src/RedisClient/Registry/History.antt =====
-- Any history of registrations and renewals, and a notification after it.
use uwpx_push_server.Common.{◌≡◌, refl, ◌∙◌, ap, String, Option, none, List, [], ◌∷◌, All}
use uwpx_push_server.Common.Action.{Ends, Ends-bind, done, for_each, ◌>>=◌}
use uwpx_push_server.Redis.{RedisLib, RedisLaws}
use uwpx_push_server.RedisClient.{of_three}
use uwpx_push_server.RedisClient.Accounts.{set_push_accounts_lem}
use uwpx_push_server.RedisClient.Channel.{set_channel_uri_lem, get_channel_uri_lem}
use uwpx_push_server.RedisClient.Nodes.{getters_lem, of_three_long}
use uwpx_push_server.RedisClient.Program.Operations.{looked_up}
use uwpx_push_server.RedisClient.Registry.{
  Subscription, Registry, Request, renew, register, apply, history, notify, only_channel, Kind,
  account_key, node, flat, is_key, IsDevice, Represents, Fits, perform, find, no_entries,
}
use uwpx_push_server.RedisClient.Registry.Refines.{
  renew-Represents, register-Represents, placed-IsNode, device-not-key, node-not-key, hashed_key,
}

module _ (lib : RedisLib) (kind : String → Kind) where
  -- An empty database holds the empty registry.
  pub Represents-no_entries :
      (d : lib.Db) → ((k : String) → lib.look d k ≡ none) → Represents lib kind d no_entries
  Represents-no_entries d h = record {
    typed = record { lists = λ n _. rw (h n) refl; strings = λ k _. rw (h k) refl };
    channels = λ k _. rw (h k) refl;
    accounts = λ k _. rw (h k) tt;
    nodes = λ n _. rw (h n) refl;
    owners = λ n _. tt;
  }

  module _ (laws : RedisLaws lib) (hash_sha256 : String → String)
      (hashed : (s : String) → kind (hash_sha256 s) ≡ account_key) where
    perform-Represents :
        (q : Request) (d : lib.Db) (r : Registry)
        → Represents lib kind d r
        → Fits lib kind q
        → Ends (perform lib hash_sha256 q) d (λ _ d'. Represents lib kind d' (apply q r))
    perform-Represents (renew device_id uri) d r rep p =
        let e =
          set_channel_uri_lem lib (is_key lib kind) laws d rep.typed device_id
            (device-not-key lib kind device_id p) uri in
        record {
          result = e.result;
          state = e.state;
          returns = e.returns;
          holds =
              renew-Represents lib kind laws hash_sha256 hashed d r rep device_id uri e.state p
                e.holds;
        }
    perform-Represents (register device_id uri version accounts) d r rep p =
        let e =
          set_push_accounts_lem lib (is_key lib kind) laws hash_sha256
            (hashed_key lib kind laws hash_sha256 hashed) device_id uri version accounts d rep.typed
            (device-not-key lib kind device_id p.0) (rep.accounts device_id p.0)
            (placed-IsNode lib kind accounts p.1) in
        record {
          result = e.result;
          state = e.state;
          returns = e.returns;
          holds =
              register-Represents lib kind laws hash_sha256 hashed d r rep device_id uri version
                accounts e.state p.0 p.1 e.holds;
        }

    pub history-Represents :
        (requests : List Request) (d : lib.Db) (r : Registry)
        → Represents lib kind d r
        → All (Fits lib kind) requests
        → Ends
            (for_each (perform lib hash_sha256) requests)
            d
            (λ _ d'. Represents lib kind d' (history requests r))
    unfolding for_each history
    history-Represents [] d r rep fits = record {
      result = tt;
      state = d;
      returns = refl;
      holds = rep;
    }
    history-Represents (q ∷ rest) d r rep fits =
        let first = perform-Represents q d r rep fits.0 in
        let later = history-Represents rest first.state (apply q r) first.holds fits.1 in
        record {
          result = later.result;
          state = later.state;
          returns = rw first.returns later.returns;
          holds = later.holds;
        }

    module _ (d : lib.Db) (r : Registry) (rep : Represents lib kind d r) where
      find_among :
          (list : List Subscription)
          → All (IsDevice lib kind) list
          → looked_up lib (of_three lib 1 (flat list)) d ≡ done (only_channel r list, d)
      find_among [] h = refl
      find_among (s ∷ []) h =
          get_channel_uri_lem lib (is_key lib kind) laws d rep.typed s.device_id
            (device-not-key lib kind s.device_id h.0)
          ∙ ap (λ (o : Option String). done (o, d)) (rep.channels s.device_id h.0)
      find_among (s ∷ t ∷ rest) h =
          rw
            (of_three_long lib 1 s.account_id s.device_id s.secret t.account_id
              (t.device_id ∷ t.secret ∷ flat rest))
            refl

      find-notify : (n : String) → kind n ≡ node → find lib n d ≡ done (notify r n, d)
      find-notify n h =
          let (_, e, _) =
            getters_lem lib (is_key lib kind) laws d rep.typed n (node-not-key lib kind n h) in
          rw (e, rep.nodes n h) (find_among (r.subscriptions n) (rep.owners n h))

    -- The client of the database implements the registry: from a database that holds a registry, an
    -- empty one say, any history of registrations and renewals returns, and leaves a database that
    -- holds what the registry is then; and a notification at a node is then looked up as in the
    -- registry, where it goes to the latest channel of the device if the node has been registered
    -- exactly once, and nowhere else. The keys are told apart: hashes are account keys, and devices
    -- and nodes are named by keys for devices and for nodes.
    pub find-history :
        (requests : List Request) (d : lib.Db) (r : Registry) (n : String)
        → Represents lib kind d r
        → All (Fits lib kind) requests
        → kind n ≡ node
        → Ends (for_each (perform lib hash_sha256) requests >>= λ _. find lib n) d (λ o d'.
          (o ≡ notify (history requests r) n) × Represents lib kind d' (history requests r))
    find-history requests d r n rep fits h =
        Ends-bind (history-Represents requests d r rep fits) λ _ d' rep'. record {
          result = notify (history requests r) n;
          state = d';
          returns = find-notify d' (history requests r) rep' n h;
          holds = (refl, rep');
        }
