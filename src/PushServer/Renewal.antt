-- ===== src/PushServer/Renewal.antt =====
-- server/PushServer.cpp: a message set_channel_uri, from its text to the answer.
use mathlib.Core.Path.{subst}
use uwpx_push_server.Wns.{WnsClient}
use uwpx_push_server.Common.{sym, ◌≡◌, refl, ◌∙◌, ap, Bool, true, false, String, some, [], ◌∷◌, ok}
use uwpx_push_server.Common.Action.{done, Ends}
use uwpx_push_server.Json.{JsonLib}
use uwpx_push_server.Redis.{RedisLib, RedisLaws}
use uwpx_push_server.RedisClient.Channel.{Updated, set_channel_uri_lem}
use uwpx_push_server.RedisClient.Typed.{IsTyped, held, items_of-held}
use uwpx_push_server.RedisClient.WnsToken.{wns_token_key, get_wns_token}
use uwpx_push_server.Messages.Header
use uwpx_push_server.Messages.Response
use uwpx_push_server.Messages.Response.Success
use uwpx_push_server.Messages.Parser
use uwpx_push_server.Messages.Parser.{set_channel_uri}
use uwpx_push_server.Messages.SetChannelUri.{SetChannelUriMessage}
use uwpx_push_server.PushServer.{Environment, PushServer, respond_with_success, send}
use uwpx_push_server.PushServer.Handlers.{
  on_message_received, handle, set_channel, is_valid_channel_uri,
}

module _ (json : JsonLib) (lib : RedisLib) (ndebug : Bool) where
  -- The session has been sent a message success, and nothing else.
  pub record Succeeded (s s' : PushServer lib) : Type 0 where
    pub answer : json.Object
    pub written : Success.to_json json ndebug Success.create json.empty ≡ ok answer
    pub sent : s'.sent ≡ json.dump (json.json answer) ∷ s.sent

  succeeds :
      (s : PushServer lib)
      → Ends
          (respond_with_success json lib ndebug)
          s
          (λ _ s'. Succeeded s s' × (s'.wns ≡ s.wns) × (s'.stanzas ≡ s.stanzas))
  unfolding respond_with_success send Response.to_json Header.to_json
  succeeds s = record {
    result = tt;
    state = _;
    returns = refl;
    holds = (record { answer = _; written = refl; sent = refl }, refl, refl);
  }

  module _ (env : Environment) (is_key : String → Bool) (laws : RedisLaws lib) (s : PushServer lib)
      (typed : IsTyped lib is_key s.wns.db) (m : SetChannelUriMessage)
      (device_list : is_key m.device_id ≡ false)
      (valid : is_valid_channel_uri env m.channel_uri ≡ true) (msg : String)
      (p : Parser.parse json ndebug msg ≡ ok (some (set_channel_uri m)))
      (v : m.base.is_valid ≡ true) where
    -- The handler of the text of a valid set_channel_uri message returns, where the channel is one
    -- of the notification service. The device's list in the database then begins with the channel,
    -- what followed it stays, as does all else in the database, and the list lives for the whole
    -- timeout; the device is told of the success, and the XMPP server and the notification service
    -- are told nothing. In the database account keys hold strings and other keys lists, and the
    -- device is no account key.
    pub on_message_received-Updated : Ends (on_message_received json lib ndebug env msg) s (λ _ s'.
        Updated lib is_key m.device_id m.channel_uri s.wns.db s'.wns.db
        × Succeeded s s'
        × (s'.stanzas ≡ s.stanzas)
        × (s'.wns.posts ≡ s.wns.posts))
    unfolding on_message_received handle set_channel
    on_message_received-Updated =
        let e =
          set_channel_uri_lem lib is_key laws s.wns.db typed m.device_id device_list
            m.channel_uri in
        let after : PushServer lib = record s { wns = record s.wns { db = e.state } } in
        let a = succeeds after in
        record {
          result = tt;
          state = a.state;
          returns = rw (p, v, valid, e.returns) (rw a.returns refl);
          holds = (
            subst
                (λ (w : WnsClient lib). Updated lib is_key m.device_id m.channel_uri s.wns.db w.db)
                (sym a.holds.1) e.holds,
            record {
              answer = a.holds.0.answer;
              written = a.holds.0.written;
              sent = a.holds.0.sent;
            },
            a.holds.2,
            ap (λ (w : WnsClient lib). w.posts) a.holds.1,
          );
        }

    -- So a device that calls itself WNS replaces the access token of the notification service in
    -- the database by its channel: what is read as the token from then on is a text that a device
    -- has sent.
    pub on_message_received-wns_token_key :
        (token type date : String)
        → m.device_id ≡ wns_token_key
        → held (lib.look s.wns.db wns_token_key) ≡ token ∷ type ∷ date ∷ []
        → Ends
            (on_message_received json lib ndebug env msg)
            s
            (λ _ s'. get_wns_token lib s'.wns.db ≡ done (some m.channel_uri, s'.wns.db))
    unfolding get_wns_token
    on_message_received-wns_token_key token type date name known =
        let e = on_message_received-Updated in
        let u = e.holds.0 in
        let list : held (lib.look e.state.wns.db wns_token_key) ≡ m.channel_uri ∷ type ∷ date ∷ [] =
          rw (name, known) at u.device in
        let read : lib.lrange e.state.wns.db wns_token_key
            ≡ some (m.channel_uri ∷ type ∷ date ∷ []) =
          laws.lrange_look e.state.wns.db wns_token_key
          ∙ items_of-held (lib.look e.state.wns.db wns_token_key)
              (u.typed.lists wns_token_key (rw name at device_list))
          ∙ ap some list in
        record { result = tt; state = e.state; returns = e.returns; holds = rw read refl }
