-- ===== src/RedisClient/Storing.antt =====
-- The second loop of set_push_accounts, from a database in which account keys hold strings and
-- other keys hold lists.
use mathlib.Core.List.{append-nil, append_assoc}
use uwpx_push_server.Common.{
  ◌⊎◌, inl, inr, ◌≡◌, refl, ◌∙◌, sym, ap, Bool, true, false, String, List, [], ◌∷◌, ◌++◌, arith,
  All,
}
use uwpx_push_server.Common.Action.{for_each, Ends}
use uwpx_push_server.Redis.{RedisLib, RedisLaws}
use uwpx_push_server.RedisClient.{gen_account, store_account}
use uwpx_push_server.RedisClient.Typed.{has_node, IsTyped, Stored, held, added, store_account_lem}
use uwpx_push_server.Messages.SuccessSetPushAccounts.Account.{PushAccount}

added_cons :
    (device_id n : String) (a : PushAccount) (rest : List PushAccount)
    → added device_id n (a ∷ []) ++ added device_id n rest ≡ added device_id n (a ∷ rest)
added_cons device_id n a rest = ground arith

pub All-map :
    {A : Type 0} (P Q : A → Type 0) (list : List A)
    → ((a : A) → P a → Q a)
    → All P list
    → All Q list
All-map P Q [] f h = tt
All-map P Q (a ∷ rest) f h = (f a h.0, All-map P Q rest f h.1)

texts_cons :
    (a : PushAccount) (rest : List PushAccount) (v : String) {P Q : Type 0}
    → (Q → P ⊎ (has_node v (a ∷ []) ≡ true))
    → Q ⊎ (has_node v rest ≡ true)
    → P ⊎ (has_node v (a ∷ rest) ≡ true)
texts_cons a rest v f (inl q) = elim (f q) [ inl p ↦ inl p | inr e ↦ inr (ground arith) ]
texts_cons a rest v f (inr e) = inr (ground arith)

module _ (lib : RedisLib) (is_key : String → Bool) where
  pub hashed_key :
      (hash_sha256 : String → String)
      → ((s : String) → is_key (hash_sha256 s) ≡ true)
      → (device_id : String) (a : PushAccount)
      → is_key (gen_account hash_sha256 device_id a.account_id) ≡ true
  unfolding gen_account
  hashed_key hash_sha256 hashed device_id a = hashed _

  abbrev pub IsNode : PushAccount → Type 0
  IsNode a = is_key a.node ≡ false

  abbrev pub IsKey : String → Type 0
  IsKey k = is_key k ≡ true

  Stored-nil :
      (hash_sha256 : String → String) (device_id : String) (d : lib.Db)
      → IsTyped lib is_key d
      → Stored lib is_key hash_sha256 device_id [] d d
  Stored-nil hash_sha256 device_id d typed = record {
    typed = typed;
    extended = λ n h. sym (append-nil _);
    texts = λ j v h. inl h;
    keeps = λ k p h. h;
    keyed = tt;
    lifetimes = λ k p h. h;
    timed = tt;
  }

  Stored-cons :
      (hash_sha256 : String → String) (hashed : (s : String) → is_key (hash_sha256 s) ≡ true)
      (device_id : String) (a : PushAccount) (rest : List PushAccount) {d d₁ d₂ : lib.Db}
      → Stored lib is_key hash_sha256 device_id (a ∷ []) d d₁
      → Stored lib is_key hash_sha256 device_id rest d₁ d₂
      → Stored lib is_key hash_sha256 device_id (a ∷ rest) d d₂
  Stored-cons hash_sha256 hashed device_id a rest {d} s t = record {
    typed = t.typed;
    extended = λ n h.
        t.extended n h
        ∙ ap (λ (xs : List String). xs ++ added device_id n rest) (s.extended n h)
        ∙ append_assoc (held (lib.look d n)) (added device_id n (a ∷ [])) (added device_id n rest)
        ∙ ap (λ (xs : List String). held (lib.look d n) ++ xs) (added_cons device_id n a rest);
    texts = λ j v h. texts_cons a rest v (s.texts j v) (t.texts j v h);
    keeps = λ k p h. t.keeps k p (s.keeps k p h);
    keyed = (t.keeps _ (hashed_key hash_sha256 hashed device_id a) s.keyed.0, t.keyed);
    lifetimes = λ k p h. t.lifetimes k p (s.lifetimes k p h);
    timed = (t.lifetimes _ (hashed_key hash_sha256 hashed device_id a) s.timed.0, t.timed);
  }

  module _ (laws : RedisLaws lib) (hash_sha256 : String → String)
      (hashed : (s : String) → is_key (hash_sha256 s) ≡ true) where
    open laws use {lrange_look, look_del, look_expire, rpush_items}

    pub store_all :
        (device_id : String) (accounts : List PushAccount) (d : lib.Db)
        → All IsNode accounts
        → IsTyped lib is_key d
        → Ends
            (for_each (store_account lib hash_sha256 device_id) accounts)
            d
            (λ _. Stored lib is_key hash_sha256 device_id accounts d)
    unfolding for_each
    store_all device_id [] d h typed = record {
      result = tt;
      state = d;
      returns = refl;
      holds = Stored-nil hash_sha256 device_id d typed;
    }
    store_all device_id (a ∷ rest) d h typed =
        let first = store_account_lem lib is_key laws hash_sha256 hashed device_id a d h.0 typed in
        let later = store_all device_id rest first.state h.1 first.holds.typed in
        record {
          result = later.result;
          state = later.state;
          returns = rw first.returns later.returns;
          holds = Stored-cons hash_sha256 hashed device_id a rest first.holds later.holds;
        }
