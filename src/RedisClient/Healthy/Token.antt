-- ===== src/RedisClient/Healthy/Token.antt =====
-- set_wns_token, in a database that the handlers of the push server can work on.
use mathlib.Core.Path.{subst}
use uwpx_push_server.Common.{
  none, ◌≡◌, refl, sym, ◌∙◌, ap, Bool, true, false, String, some, List, [], ◌∷◌, ℤ, pos, ltℤ,
  if◌then◌else◌, ◌==◌, arith, Bool-cases, inl, inr, eq_iff,
}
use uwpx_push_server.Common.Decimal.{to_string}
use uwpx_push_server.Common.Action.{Ends}
use uwpx_push_server.Redis.{RedisLib, RedisLaws, text, items, items_of, Pushed}
use uwpx_push_server.RedisClient.WnsToken.{wns_token_key, set_wns_token}
use uwpx_push_server.RedisClient.Typed.{holds_text}
use uwpx_push_server.RedisClient.Registry.{Kind, node, device, is_key}
use uwpx_push_server.RedisClient.Registry.Refines.{node-not-key}
use uwpx_push_server.RedisClient.Healthy.{Healthy}

expiring_text :
    (b : Bool) (xs : List String) → holds_text (if b then some (items xs) else none) ≡ false
expiring_text true xs = refl
expiring_text false xs = refl

module _ (lib : RedisLib) (kind : String → Kind) (laws : RedisLaws lib) where
  open laws use {look_set, look_del, look_expireat, rpush_items}

  module _ (d : lib.Db) (h : Healthy lib kind d) (n : String) (is_node : kind n ≡ node)
      (d' : lib.Db) (same : (j : String) → (n == j) ≡ false → lib.look d' j ≡ lib.look d j)
      (no_text : holds_text (lib.look d' n) ≡ false) where
    ne-key : (k : String) → is_key lib kind k ≡ true → (n == k) ≡ false
    ne-key k p = ground (arith, eq_iff n k, node-not-key lib kind n is_node)

    ne-device : (k : String) → kind k ≡ device → (n == k) ≡ false
    ne-device k p = elim (Bool-cases (n == k)) [
      | inl e ↦ let q : kind n ≡ kind k = ap kind ((eq_iff n k).0 e) in absurd (ground arith)
      | inr e ↦ e
    ]

    kept_lists : (k : String) → is_key lib kind k ≡ false → holds_text (lib.look d' k) ≡ false
    kept_lists k p = elim (Bool-cases (n == k)) [
      | inl e ↦
          subst (λ (x : String). holds_text (lib.look d' x) ≡ false) ((eq_iff n k).0 e) no_text
      | inr e ↦ rw (same k e) (h.typed.lists k p)
    ]

    kept_refers : (k v : String) → lib.look d' k ≡ some (text v) → kind v ≡ node
    kept_refers k v p = elim (Bool-cases (n == k)) [
      | inl e ↦
          let q : holds_text (lib.look d' k) ≡ false =
            subst (λ (x : String). holds_text (lib.look d' x) ≡ false) ((eq_iff n k).0 e) no_text in
          absurd (ground arith)
      | inr e ↦ h.refers k v (sym (same k e) ∙ p)
    ]

    -- What changes the list at a node, and nothing else, keeps the database healthy.
    elsewhere-Healthy : Healthy lib kind d'
    elsewhere-Healthy = record {
      typed = record {
        lists = kept_lists;
        strings = λ k p. rw (same k (ne-key k p)) (h.typed.strings k p);
      };
      refers = kept_refers;
      accounts = λ k p. rw (same k (ne-device k p)) (h.accounts k p);
    }

  module _ (token_node : kind wns_token_key ≡ node) (d : lib.Db) (h : Healthy lib kind d)
      (token type : String) (expires : ℤ) where
    abbrev cleared : lib.Db
    cleared = lib.del (lib.set d wns_token_key token) wns_token_key

    abbrev entry : List String
    entry = token ∷ type ∷ to_string expires ∷ []

    pushed : Pushed lib cleared wns_token_key entry []
    pushed =
        rpush_items cleared wns_token_key entry []
          (ap items_of (look_del (lib.set d wns_token_key token) wns_token_key wns_token_key))

    abbrev final : lib.Db
    final = lib.expireat pushed.db wns_token_key expires

    look_elsewhere : (j : String) → (wns_token_key == j) ≡ false → lib.look final j ≡ lib.look d j
    look_elsewhere j e =
        rw
          (
            look_expireat pushed.db wns_token_key j expires,
            pushed.look_pushed j,
            look_del (lib.set d wns_token_key token) wns_token_key j,
            look_set d wns_token_key j token,
            e,
          )
          refl

    look_token : holds_text (lib.look final wns_token_key) ≡ false
    look_token =
        rw
          (
            look_expireat pushed.db wns_token_key wns_token_key expires,
            pushed.look_pushed wns_token_key,
          )
          (expiring_text (ltℤ (pos (lib.now pushed.db)) expires) entry)

    -- set_wns_token returns, whatever the date of expiry is, and keeps the database healthy.
    pub set_wns_token-Healthy :
        Ends (set_wns_token lib token type expires) d (λ _. Healthy lib kind)
    unfolding set_wns_token
    set_wns_token-Healthy = record {
      result = tt;
      state = final;
      returns = rw pushed.accepted;
      holds = elsewhere-Healthy d h wns_token_key token_node final look_elsewhere look_token;
    }
