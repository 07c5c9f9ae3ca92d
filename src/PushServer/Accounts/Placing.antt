-- ===== src/PushServer/Accounts/Placing.antt =====
-- server/PushServer.cpp: what the loops of set_push_accounts make of the nodes of the accounts.
use uwpx_push_server.Common.{
  ◌≡◌, refl, Bool, true, false, not, ◌&&◌, ◌||◌, ℕ, zero, suc, String, List, [], ◌∷◌, ◌++◌, ◌==◌,
  if◌then◌else◌, eq_iff, Bool-cases, inl, inr, arith, length,
}
use uwpx_push_server.Messages.SuccessSetPushAccounts.Account.{PushAccount}
use uwpx_push_server.PushServer.Accounts.{
  Nodes, with_account, set_contains, set_erase, set_insert, map_assign, set_success,
}

-- whether an account of a list is at the node
abbrev pub has_node : String → List PushAccount → Bool
has_node x [] = false
has_node x (a ∷ rest) = a.node == x || has_node x rest

abbrev pub map_has : String → List (String × ℕ) → Bool
map_has x [] = false
map_has x ((k, i) ∷ rest) = k == x || map_has x rest

set_contains-set_erase :
    (x y : String) (set : List String)
    → set_contains x (set_erase y set) ≡ (set_contains x set && not (y == x))
set_contains-set_erase x y [] = refl
set_contains-set_erase x y (z ∷ set) =
    ground (arith, set_contains-set_erase x y set, eq_iff z y, eq_iff z x, eq_iff y x)

map_has-map_assign :
    (x y : String) (i : ℕ) (map : List (String × ℕ))
    → map_has x (map_assign y i map) ≡ (y == x || map_has x map)
map_has-map_assign x y i [] = refl
map_has-map_assign x y i ((k, j) ∷ map) =
    ground (arith, map_has-map_assign x y i map, eq_iff k y, eq_iff k x, eq_iff y x)

pub set_contains-set_insert :
    (x : String) (xs set : List String)
    → set_contains x (set_insert xs set) ≡ (set_contains x xs || set_contains x set)
set_contains-set_insert x [] set = refl
set_contains-set_insert x (y ∷ xs) set =
    ground (
      arith,
      set_contains-set_insert x xs (if set_contains y set then set else y ∷ set),
      eq_iff y x,
    )

pub has_node-set_success :
    (x : String) (i : ℕ) (b : Bool) (accounts : List PushAccount)
    → has_node x (set_success i b accounts) ≡ has_node x accounts
has_node-set_success x i b [] = refl
has_node-set_success x zero b (a ∷ rest) = refl
has_node-set_success x (suc i) b (a ∷ rest) = ground (arith, has_node-set_success x i b rest)

pub has_node-append :
    (x : String) (xs ys : List PushAccount)
    → has_node x (xs ++ ys) ≡ (has_node x xs || has_node x ys)
has_node-append x [] ys = refl
has_node-append x (a ∷ xs) ys = ground (arith, has_node-append x xs ys)

-- What the nodes are once some accounts have been placed, which began as `old`.
pub record Placed (old : List String) (n : Nodes) : Type 0 where
  pub deleted :
      (x : String)
      → set_contains x n.delete_nodes ≡ (set_contains x old && not (has_node x n.push_accounts))
  -- every account's node is an old one or one to be added
  pub covered :
      (x : String)
      → (not (has_node x n.push_accounts) || (set_contains x old || map_has x n.add_nodes)) ≡ true
  -- every node to be added is that of an account
  pub needed : (x : String) → (not (map_has x n.add_nodes) || has_node x n.push_accounts) ≡ true

pub with_account-Placed :
    (old : List String) (a : PushAccount) (n : Nodes) → Placed old n → Placed old (with_account a n)
with_account-Placed old a n p = elim (Bool-cases (set_contains a.node n.delete_nodes)) [
  | inl reused ↦ rw reused (record {
    deleted = λ x. ground (
      arith,
      p.deleted x,
      has_node-append x n.push_accounts (a ∷ []),
      set_contains-set_erase x a.node n.delete_nodes,
    );
    covered = λ x. ground (
      arith,
      p.deleted a.node,
      p.covered x,
      has_node-append x n.push_accounts (a ∷ []),
      eq_iff a.node x,
    );
    needed = λ x. ground (arith, p.needed x, has_node-append x n.push_accounts (a ∷ []));
  })
  | inr fresh ↦ rw fresh (record {
    deleted = λ x.
        ground (arith, p.deleted x, has_node-append x n.push_accounts (a ∷ []), eq_iff a.node x);
    covered = λ x. ground (
      arith,
      p.covered x,
      has_node-append x n.push_accounts (a ∷ []),
      map_has-map_assign x a.node (length n.push_accounts) n.add_nodes,
    );
    needed = λ x. ground (
      arith,
      p.needed x,
      has_node-append x n.push_accounts (a ∷ []),
      map_has-map_assign x a.node (length n.push_accounts) n.add_nodes,
    );
  })
]
