-- ===== src/Tests/Accounts.antt =====
-- The theorem on what set_push_accounts does on the XMPP server: a device that had one account
-- gives another.
use Prim.Native.Nat.{◌<◌}
use uwpx_push_server.Common.{
  ◌≡◌, refl, ℕ, true, false, String, Option, none, some, [], ◌∷◌, ◌==◌, if◌then◌else◌, arith,
  eq_iff, pos,
}
use uwpx_push_server.Json.{JsonLib}
use uwpx_push_server.Json.Tree.{Value, tree_with, obj, field, end, number, arr, cons, nil}
use uwpx_push_server.Json.Tree as Tree
use uwpx_push_server.Messages.Header
use uwpx_push_server.Messages.SetPushAccounts
use uwpx_push_server.Messages.SetPushAccounts.{SetPushAccountsMessage}
use uwpx_push_server.Redis.{Entry, text, items}
use uwpx_push_server.Redis.Memory.{memory}
use uwpx_push_server.RedisClient.Typed.{holds_text, holds_items}
use uwpx_push_server.CryptoUtils.Laws.{is_alnum, all_chars}
use uwpx_push_server.PushServer.{PushServer}
use uwpx_push_server.PushServer.Accounts.Stored.{Stored}
use uwpx_push_server.Tests.RedisClient.{key_elsewhere, is_key}

abbrev pub old_entries : String → Option Entry
old_entries k =
    if k == "device"
    then some (items ("uri" ∷ "2" ∷ "#device_a" ∷ []))
    else if k == "#device_a"
    then some (text "old")
    else if k == "old"
    then some (items ("a" ∷ "device" ∷ "secret" ∷ []))
    else none

unfoldable pub old_db : memory.Db
unfolding memory
old_db = record { entries = old_entries; timeouts = λ _. none; clock = 1000 }

abbrev pub old_server : PushServer memory
old_server = record {
  wns = record { token = none; db = old_db; posts = [] };
  stanzas = [];
  sent = [];
  tokens = 0;
  passwords = 0;
}

pub looked : (k : String) → memory.look old_db k ≡ old_entries k
unfolding memory old_db
looked k = refl

list_elsewhere : (n k : String) → is_key n ≡ false → is_key k ≡ true → (n == k) ≡ false
list_elsewhere n k h p = ground (arith, eq_iff n k)

pub entries_lists : (n : String) → is_key n ≡ false → holds_text (old_entries n) ≡ false
entries_lists n h = rw (list_elsewhere n "#device_a" h refl) (ground arith)

pub entries_strings : (k : String) → is_key k ≡ true → holds_items (old_entries k) ≡ false
entries_strings k h =
    rw (key_elsewhere k "device" refl h, key_elsewhere k "old" refl h) (ground arith)

pub zero_in_range : (bound i : ℕ) → 0 < bound → 0 < bound
zero_in_range bound i h = h

pub is_key-alnum : (t : String) → all_chars is_alnum t ≡ true → is_key t ≡ false
is_key-alnum String.[] h = refl
is_key-alnum (String.◌∷◌ c s) h = ground arith

-- the message in which the device gives the account b
abbrev giving : Value
giving = obj (
    field "version" (number (pos 1)) (
      field "action" (Tree.text "set_push_accounts") (
        field "accounts" (arr (cons (obj (field "account_id" (Tree.text "b") end)) nil))
          (field "device_id" (Tree.text "device") end))))

abbrev pub json : JsonLib
json = tree_with (λ s. if s == "giving" then some giving else none)

abbrev pub given : SetPushAccountsMessage
given = record {
  base = record { is_valid = true; version = pos 1; action = "set_push_accounts" };
  accounts = "b" ∷ [];
  device_id = "device";
}
