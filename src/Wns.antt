-- ===== src/Wns.antt =====
-- wns/WnsToken.{hpp,cpp} and wns/WnsClient.{hpp,cpp}: the client of the Windows notification
-- service. The service and the HTTP library are not part of the repository: `answer` is the answer
-- to the latest of the requests that have been made, newest first, and `clock` the time, in whole
-- seconds since 1970, at which they have been made.
pub mod Token
pub mod Requests
pub mod Restore
pub mod Sound
use uwpx_push_server.Common.{
  ℕ, zero, suc, ◌&◌, ◌≡◌, Bool, true, false, not, String, Option, none, some, List, [], ◌∷◌, ℤ, pos,
  ltℤ, nat_eq, if◌then◌else◌, Result, ok, err, assertion_failed,
}
use uwpx_push_server.Common.Action.{Action, pure, ask, change, on_part, done, ◌>>=◌, ◌>>◌}
use uwpx_push_server.Configuration.{WnsConfiguration}
use uwpx_push_server.Json.{JsonLib}
use uwpx_push_server.Redis.{RedisLib}
use uwpx_push_server.RedisClient.WnsToken.{
  set_wns_token, get_wns_token, get_wns_token_type, get_wns_token_expire_date,
}
use uwpx_push_server.Wns.Token.{WnsToken, is_valid, to_auth_string, from_response}

-- cpr::Response. `failed` is an error code other than OK.
pub record Response : Type 0 where
  pub failed : Bool
  pub status_code : ℕ
  pub text : String

-- A call of cpr::Post: to the login service, with the client's id and secret, or to a channel, with
-- the Authorization header and the body.
pub data Post : Type 0 where
  token_request : String → String → Post
  notification : String → String → String → Post

pub data ResponseCodeAction : Type 0 where
  success retry error : ResponseCodeAction

module _ (lib : RedisLib) where
  -- The members that change, what the database holds, and the requests that have been made.
  pub record WnsClient : Type 0 where
    pub token : Option WnsToken
    pub db : lib.Db
    pub posts : List Post

module _ (json : JsonLib) (lib : RedisLib) where
  module _ (config : WnsConfiguration) (answer : List Post → Response) (clock : List Post → ℕ) where
    -- cpr::Post
    abbrev pub post : Post → Action (WnsClient lib) Response
    post p s = done (answer (p ∷ s.posts), record s { posts = p ∷ s.posts })

    abbrev pub in_db {ℓ} : {A : Type ℓ} → Action lib.Db A → Action (WnsClient lib) A
    in_db = on_part (λ s. s.db) (λ d s. record s { db = d })

    abbrev pub set_token : Option WnsToken → Action (WnsClient lib) (Unit {0})
    set_token t = change λ s. ok (record s { token = t })

    abbrev pub valid_at : ℕ → Option WnsToken → Bool
    valid_at now none = false
    valid_at now (some t) = is_valid now t

    unfoldable pub is_token_valid : Action (WnsClient lib) Bool
    is_token_valid = ask λ s. ok (valid_at (clock s.posts) s.token)

    -- store_token_in_db, where there is a token
    unfoldable pub store_token_in_db : WnsToken → Action (WnsClient lib) (Unit {0})
    store_token_in_db t = in_db (set_wns_token lib t.token t.type t.expires)

    abbrev pub stored : Option WnsToken → Action (WnsClient lib) Bool
    stored none = pure false
    stored (some t) = do store_token_in_db t; pure true

    abbrev pub renewed : Response → Action (WnsClient lib) Bool
    renewed response =
        if nat_eq response.status_code 200
        then (do
          t ← ask λ s. from_response json (clock s.posts) response.text
          set_token t
          stored t)
        else pure false

    unfoldable pub request_new_token : Action (WnsClient lib) Bool
    request_new_token = do
      response ← post (token_request config.packet_id config.client_secret)
      renewed response

    abbrev pub loaded_with : String → String → Option ℤ → Action (WnsClient lib) (Unit {0})
    loaded_with token type none = pure tt
    loaded_with token type (some expires) =
        set_token (some (record { type = type; token = token; expires = expires }))

    abbrev pub loaded_typed : String → Option String → Action (WnsClient lib) (Unit {0})
    loaded_typed token none = pure tt
    loaded_typed token (some type) = do
      expires ← in_db (get_wns_token_expire_date lib)
      loaded_with token type expires

    abbrev pub loaded : Option String → Action (WnsClient lib) (Unit {0})
    loaded none = pure tt
    loaded (some token) = do type ← in_db (get_wns_token_type lib); loaded_typed token type

    unfoldable pub load_token_from_db : Action (WnsClient lib) (Unit {0})
    load_token_from_db = do token ← in_db (get_wns_token lib); loaded token

    -- The cases of the statuses that are named but are neither 200, 401 nor 503 differ from the
    -- default in what they log.
    unfoldable pub handle_response_code : ℕ → Action (WnsClient lib) ResponseCodeAction
    handle_response_code status_code =
        if nat_eq status_code 200
        then pure success
        else if nat_eq status_code 401
        then (do new ← request_new_token; pure (if new then retry else error))
        else if nat_eq status_code 503
        then pure retry
        else pure error

    abbrev pub decided :
        ResponseCodeAction → Action (WnsClient lib) Bool → Action (WnsClient lib) Bool
    decided success again = pure true
    decided retry again = again
    decided error again = pure false

    abbrev pub judged : Response → Action (WnsClient lib) Bool → Action (WnsClient lib) Bool
    judged response again =
        if response.failed
        then again
        else (do result ← handle_response_code response.status_code; decided result again)

    -- the loop of send_raw_notification, for the attempts that are left
    unfoldable pub attempts : ℕ → Post → Action (WnsClient lib) Bool
    attempts zero p = pure false
    attempts (suc n) p = let again = attempts n p in do response ← post p; judged response again

    -- token->to_auth_string(). There is a token here: it is valid or new.
    abbrev pub auth_of : Option WnsToken → Result String
    auth_of none = err assertion_failed
    auth_of (some t) = ok (to_auth_string t)

    abbrev pub send_with : Bool → String → String → Action (WnsClient lib) Bool
    send_with false channel_uri content = pure false
    send_with true channel_uri content = do
      auth ← ask λ s. auth_of s.token
      attempts 3 (notification channel_uri auth content)

    unfoldable pub send_raw_notification : String → String → Action (WnsClient lib) Bool
    send_raw_notification channel_uri content = do
      valid ← is_token_valid
      ready ← if valid then pure true else request_new_token
      send_with ready channel_uri content
