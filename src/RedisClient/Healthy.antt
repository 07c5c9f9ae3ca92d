-- ===== src/RedisClient/Healthy.antt =====
-- A database that the handlers of the push server can work on, whatever devices ask of them.
pub mod Token
pub mod Registration
use uwpx_push_server.Common.{
  ℕ, Option, none, sym, ◌≡◌, refl, ◌∙◌, ap, Bool, true, false, String, some, List, [], ◌∷◌, map,
  drop, All, if◌then◌else◌, ◌==◌, ◌||◌, arith, Bool-cases, inl, inr, ◌⊎◌, eq_iff, eq_refl,
}
use uwpx_push_server.Redis.{outlives, Clock, Entry, RedisLib, RedisLaws, text, items}
use uwpx_push_server.RedisClient.Typed.{holds_items, IsTyped, held, holds_text, has_node, added}
use uwpx_push_server.RedisClient.Storing.{IsKey, All-map}
use mathlib.Core.List.{append-nil}
use mathlib.Core.Path.{subst}
use uwpx_push_server.Common.Action.{Ends}
use uwpx_push_server.RedisClient.{gen_account, account_keys, set_channel_uri, set_push_accounts}
use uwpx_push_server.RedisClient.Removal.{has_key}
use uwpx_push_server.RedisClient.Accounts.{
  set_push_accounts_lem, set_push_accounts-Texts, Registered, Texts,
}
use uwpx_push_server.RedisClient.Channel.{Updated, set_channel_uri_lem}
use uwpx_push_server.RedisClient.Registry.{Kind, account_key, node, device, is_key, IsPlaced}
use uwpx_push_server.RedisClient.Registry.Refines.{
  drop-replaced, placed-IsNode, device-not-key, node-not-key, hashed_key, added-device,
}
use uwpx_push_server.Messages.SuccessSetPushAccounts.Account.{PushAccount}

module _ (lib : RedisLib) (kind : String → Kind) where
  -- Account keys hold strings, which are nodes, other keys hold lists, and what the list of a
  -- device names are account keys, which may have expired.
  pub record Healthy (d : lib.Db) : Type 0 where
    pub typed : IsTyped lib (is_key lib kind) d
    pub refers : (k v : String) → lib.look d k ≡ some (text v) → kind v ≡ node
    pub accounts :
        (k : String)
        → kind k ≡ device
        → All (IsKey lib (is_key lib kind)) (drop 2 (held (lib.look d k)))

  text-not-list : (e : Option Entry) (v : String) → e ≡ some (text v) → holds_text e ≡ false → ⊥
  text-not-list e v h p = ground arith

  module _ (laws : RedisLaws lib) where
    module _ (d : lib.Db) (h : Healthy d) where
      renewed_refers :
          (device_id uri : String) (d' : lib.Db)
          → Updated lib (is_key lib kind) device_id uri d d'
          → kind device_id ≡ device
          → (k v : String) → lib.look d' k ≡ some (text v)
          → kind v ≡ node
      renewed_refers device_id uri d' u p k v e = elim (Bool-cases (device_id == k)) [
        | inl q ↦ absurd (
            text-not-list (lib.look d' k) v e (
              u.typed.lists k (
                subst (λ (x : String). is_key lib kind x ≡ false) ((eq_iff device_id k).0 q)
                  (device-not-key lib kind device_id p))))
        | inr q ↦ h.refers k v (sym (u.others k q) ∙ e)
      ]

      renewed_accounts :
          (device_id uri : String) (d' : lib.Db)
          → Updated lib (is_key lib kind) device_id uri d d'
          → kind device_id ≡ device
          → (k : String) → kind k ≡ device
          → All (IsKey lib (is_key lib kind)) (drop 2 (held (lib.look d' k)))
      renewed_accounts device_id uri d' u p k q = elim (Bool-cases (device_id == k)) [
        | inl e ↦
            subst
              (λ (x : String). All (IsKey lib (is_key lib kind)) (drop 2 (held (lib.look d' x))))
              ((eq_iff device_id k).0 e)
              (rw (u.device, drop-replaced uri (held (lib.look d device_id)))
                (h.accounts device_id p))
        | inr e ↦ rw (u.others k e) (h.accounts k q)
      ]

      pub set_channel_uri-Healthy :
          (device_id uri : String)
          → kind device_id ≡ device
          → Ends (set_channel_uri lib device_id uri) d (λ _. Healthy)
      set_channel_uri-Healthy device_id uri p =
          let e =
            set_channel_uri_lem lib (is_key lib kind) laws d h.typed device_id
              (device-not-key lib kind device_id p) uri in
          record {
            result = e.result;
            state = e.state;
            returns = e.returns;
            holds = record {
              typed = e.holds.typed;
              refers = renewed_refers device_id uri e.state e.holds p;
              accounts = renewed_accounts device_id uri e.state e.holds p;
            };
          }

  module _ (clock : Clock lib) where
    kept_list :
        (b : Bool) (e : Option Entry)
        → holds_text e ≡ false
        → holds_text (if b then e else none) ≡ false
    kept_list b e h = ground arith

    kept_string :
        (b : Bool) (e : Option Entry)
        → holds_items e ≡ false
        → holds_items (if b then e else none) ≡ false
    kept_string b e h = ground arith

    kept_text :
        (b : Bool) (e : Option Entry) (v : String)
        → (if b then e else none) ≡ some (text v)
        → e ≡ some (text v)
    kept_text b e v h = ground arith

    kept_keys :
        (b : Bool) (e : Option Entry)
        → All (IsKey lib (is_key lib kind)) (drop 2 (held e))
        → All (IsKey lib (is_key lib kind)) (drop 2 (held (if b then e else none)))
    kept_keys true e h = h
    kept_keys false e h = tt

    -- A healthy database stays so as its keys expire.
    pub wait-Healthy : (d : lib.Db) (seconds : ℕ) → Healthy d → Healthy (clock.wait d seconds)
    wait-Healthy d seconds h = record {
      typed = record {
        lists = λ n p. rw (clock.look_wait d seconds n) (kept_list _ _ (h.typed.lists n p));
        strings = λ k p. rw (clock.look_wait d seconds k) (kept_string _ _ (h.typed.strings k p));
      };
      refers = λ k v e. h.refers k v (kept_text _ _ v (sym (clock.look_wait d seconds k) ∙ e));
      accounts = λ k p.
          rw (clock.look_wait d seconds k)
            (kept_keys (outlives seconds (lib.ttl d k)) (lib.look d k) (h.accounts k p));
    }
