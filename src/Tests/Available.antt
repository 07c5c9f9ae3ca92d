-- ===== src/Tests/Available.antt =====
-- The theorem on a server that runs: a device that had one account gives another, notifications
-- come, time passes, and then the device sends something that is no message.
use mathlib.Core.Path.{subst}
use uwpx_push_server.Common.{
  pos, ◌≡◌, refl, sym, ◌∙◌, ap, ◌⊎◌, inl, inr, ℕ, true, false, String, none, some, [], ◌∷◌, ◌==◌,
  if◌then◌else◌, arith, All, ok, eq_iff, is_empty, drop, List, Bool-cases,
}
use uwpx_push_server.Messages.Header
use uwpx_push_server.Messages.SetPushAccounts
use uwpx_push_server.Messages.Parser.{set_push_accounts, parse_json, parse_action, dispatch, parse}
use uwpx_push_server.Common.Sound.{Excused}
use uwpx_push_server.PushServer.Running.{
  Event, message, v1_notification, v2_notification, round, passed, Running, serve,
}
use uwpx_push_server.PushServer.Running.Orderly.{serve-Excused, Lacks, NamesDevice}
use uwpx_push_server.Json.Tree.{tree_with}
use uwpx_push_server.Redis.{text}
use uwpx_push_server.Redis.Memory.{memory, memory_laws, memory_clock}
use uwpx_push_server.RedisClient.Typed.{held}
use uwpx_push_server.RedisClient.Registry.{Kind, account_key, node, device}
use uwpx_push_server.RedisClient.Registry as Registry
use uwpx_push_server.RedisClient.Healthy.{Healthy}
use uwpx_push_server.RedisClient.Storing.{IsKey}
use uwpx_push_server.CryptoUtils.{url_safe_random_token}
use uwpx_push_server.CryptoUtils.Laws.{text_length, url_safe_random_token_lem}
use uwpx_push_server.PushServer.Available.Messages.{IsFromDevice}
use uwpx_push_server.Tests.Delivery.{environment}
use uwpx_push_server.Tests.RedisClient.{is_key}
use uwpx_push_server.Tests.Accounts.{
  json, given, old_db, old_server, old_entries, looked, entries_lists, entries_strings,
  zero_in_range, is_key-alnum,
}

abbrev kind : String → Kind
kind k =
    if is_key k
    then account_key
    else if k == "device"
    then device
    else if k == "phone"
    then device
    else node

kind-is_key : (k : String) → Registry.is_key memory kind k ≡ is_key k
kind-is_key k = ground arith

two_devices : (k : String) → kind k ≡ device → (k ≡ "device") ⊎ (k ≡ "phone")
two_devices k h = elim (Bool-cases (k == "device")) [
  | inl e ↦ inl ((eq_iff k "device").0 e)
  | inr e ↦ let p : (k == "phone") ≡ true = ground arith in inr ((eq_iff k "phone").0 p)
]

not_named :
    (t name : String) → text_length t ≡ 15 → (text_length name ≡ 15 → ⊥) → (t == name) ≡ false
not_named t name l n = elim (Bool-cases (t == name)) [
  | inl e ↦ absurd (n (sym (ap text_length ((eq_iff t name).0 e)) ∙ l))
  | inr e ↦ e
]

alnum_node : (t : String) → text_length t ≡ 15 → is_key t ≡ false → kind t ≡ node
alnum_node t l h =
    rw (h, not_named t "device" l (λ e. omega arith), not_named t "phone" l (λ e. omega arith)) refl

token_node :
    (first : ℕ) (t : String)
    → url_safe_random_token environment.token_draw true first 15 ≡ ok t
    → kind t ≡ node
token_node first t h =
    let (u, e, n, a) =
      url_safe_random_token_lem environment.token_draw zero_in_range true first 15 (omega arith) in
    let same : u ≡ t = cc (sym e ∙ h) in alnum_node t (rw same at n) (is_key-alnum t (rw same at a))

old_node : (k v : String) → memory.look old_db k ≡ some (text v) → kind v ≡ node
old_node k v h =
    let e : old_entries k ≡ some (text v) = sym (looked k) ∙ h in
    let old : v ≡ "old" = ground arith in rw old

abbrev Listed : String → Type 0
Listed k = All (IsKey memory (Registry.is_key memory kind)) (drop 2 (held (memory.look old_db k)))

device_accounts : Listed "device"
unfolding memory old_db
device_accounts = (refl, tt)

phone_accounts : Listed "phone"
unfolding memory old_db
phone_accounts = tt

old_accounts : (k : String) → kind k ≡ device → Listed k
old_accounts k h = elim (two_devices k h) [
  | inl e ↦ subst Listed (sym e) device_accounts
  | inr e ↦ subst Listed (sym e) phone_accounts
]

old_db-Healthy : Healthy memory kind old_db
old_db-Healthy = record {
  typed = record {
    lists = λ n h. rw (looked n) (entries_lists n (sym (kind-is_key n) ∙ h));
    strings = λ k h. rw (looked k) (entries_strings k (sym (kind-is_key k) ∙ h));
  };
  refers = old_node;
  accounts = old_accounts;
}

giving_parsed : parse json true "giving" ≡ ok (some (set_push_accounts given))
unfolding tree_with parse parse_json parse_action dispatch SetPushAccounts.of_json
    SetPushAccounts.from_json SetPushAccounts.read_accounts Header.from_json Header.is_supported
    is_empty
giving_parsed = refl

nonsense_parsed : parse json true "nonsense" ≡ ok none
unfolding tree_with parse
nonsense_parsed = refl

giving_named : NamesDevice json kind "giving"
giving_named m h =
    let same : set_push_accounts given ≡ m = cc (sym giving_parsed ∙ h) in
    subst (IsFromDevice kind) same refl

nonsense_named : NamesDevice json kind "nonsense"
nonsense_named m h = absurd (ground (arith, sym nonsense_parsed ∙ h))

abbrev events : List Event
events =
    message "giving"
    ∷ round
    ∷ v1_notification "old" "hello"
    ∷ v2_notification "old" "a" (pos 1) (pos 0)
    ∷ passed 10000000
    ∷ message "nonsense"
    ∷ []

abbrev fresh : Running memory
fresh = record { redis = false; server = old_server }

serve-Excused_example :
    Excused
      (λ _ (r' : Running memory). Healthy memory kind r'.server.wns.db)
      (λ r'. Healthy memory kind r'.server.wns.db)
      (λ r'.
        Lacks json memory memory_clock environment kind memory_laws
          (λ s. refl)
          refl
          zero_in_range
          zero_in_range
          token_node
          refl
          r'.server)
      (serve json memory memory_clock true environment events fresh)
serve-Excused_example =
    serve-Excused json memory memory_clock environment kind memory_laws (λ s. refl) refl
      zero_in_range zero_in_range token_node refl events fresh
      (giving_named, (tt, (tt, (tt, (tt, (nonsense_named, tt)))))) old_db-Healthy
