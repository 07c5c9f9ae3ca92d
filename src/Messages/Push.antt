-- ===== src/Messages/Push.antt =====
-- tcp/messages/PushMessage.{hpp,cpp} and TestPushMessage.{hpp,cpp}: what the server sends to a
-- device by way of the notification service.
pub mod Test
use uwpx_push_server.Common.{
  ◌≡◌, Bool, true, false, not, String, Result, ok, Reader, ◌>>=◌, ◌>>◌, require, accept, assign,
  inherit, construct, and_then, is_empty, arith, ℤ, pos,
}
use uwpx_push_server.Json.{JsonLib, JsonLaws}
use uwpx_push_server.Messages.Header
use uwpx_push_server.Messages.Header.{AbstractMessage, MessageType, IsHeader, string_at, int_at}

abbrev pub action : String
action = "push"

pub record PushMessage : Type 0 where
  pub base : AbstractMessage
  pub account_id : String
  pub message_count : ℤ
  pub pending_subscription_count : ℤ

-- PushMessage(accountId, messageCount, pendingSubscriptionCount)
abbrev pub create : String → ℤ → ℤ → PushMessage
create account messages pending = record {
  base = Header.create action;
  account_id = account;
  message_count = messages;
  pending_subscription_count = pending;
}

abbrev pub blank : PushMessage
blank = record {
  base = Header.blank;
  account_id = "";
  message_count = pos 0;
  pending_subscription_count = pos 0;
}

abbrev set_base : AbstractMessage → PushMessage → PushMessage
set_base b m = record m { base = b }

abbrev set_valid : Bool → PushMessage → PushMessage
set_valid b m = record m { base = Header.set_valid b m.base }

abbrev pub get_type : PushMessage → MessageType
get_type m = MessageType.push

module _ (lib : JsonLib) where
  open lib use {contains, put, of_string, of_int}

  unfoldable pub from_json : lib.Json → Reader PushMessage (Unit {0})
  from_json j = do
    inherit (λ m. m.base) set_base (Header.from_json lib j)
    require (contains j "account_id")
    a ← assign (string_at lib j "account_id") (λ a m. record m { account_id = a })
    require (not (is_empty a))
    require (contains j "message_count")
    assign (int_at lib j "message_count") (λ n m. record m { message_count = n })
    require (contains j "pending_subscription_count")
    assign (int_at lib j "pending_subscription_count")
        (λ n m. record m { pending_subscription_count = n })
    accept

  -- PushMessage(j)
  unfoldable pub of_json : lib.Json → Result PushMessage
  unfolding from_json
  of_json j = construct set_valid (from_json j) blank

  unfoldable pub to_json : Bool → PushMessage → lib.Object → Result lib.Object
  unfolding Header.to_json
  to_json ndebug m j = and_then (Header.to_json lib ndebug m.base j) λ j. ok (
      put
        (put (put j "account_id" (of_string m.account_id)) "message_count" (of_int m.message_count))
        "pending_subscription_count" (of_int m.pending_subscription_count))

pub record IsWellFormed (m : PushMessage) : Type 0 where
  pub header : IsHeader m.base
  pub account : is_empty m.account_id ≡ false

module _ (lib : JsonLib) where
  pub of_json-IsWellFormed :
      (j : lib.Json) (m : PushMessage)
      → of_json lib j ≡ ok m
      → m.base.is_valid ≡ true
      → IsWellFormed m
  unfolding of_json Header.from_json
  of_json-IsWellFormed j m h v = ground arith

  module _ (laws : JsonLaws lib) (ndebug : Bool) where
    open laws use {contains_put, at_put, get_of_string, get_of_int}

    -- A well-formed push message, written as JSON and constructed from it, is the message.
    pub of_json-to_json :
        (m : PushMessage)
        → IsWellFormed m
        → and_then (to_json lib ndebug m lib.empty) (λ o. of_json lib (lib.json o)) ≡ ok m
    unfolding of_json to_json Header.from_json
    of_json-to_json m w =
        simp
          (
            contains_put, at_put, get_of_string, get_of_int, w.header.valid, w.header.supported,
            w.header.named, w.account,
          )
          (ground arith)
