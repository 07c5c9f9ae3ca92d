-- ===== src/Configuration.antt =====
-- The structures of storage/ConfigurationStorage.hpp and their JSON form, from
-- storage/Serializer.cpp. Where from_json throws the object is left behind, so it is a function of
-- the JSON value alone.
pub mod RoundTrip
pub mod Storage
pub mod Serializer
use uwpx_push_server.Common.{ℕ, String, Result, ok, or_throw, and_then, type_error}
use uwpx_push_server.Json.{JsonLib}
use uwpx_push_server.Messages.Header.{json_at, string_at}

pub record WnsConfiguration : Type 0 where
  pub packet_id : String
  pub client_secret : String

pub record XmppConfiguration : Type 0 where
  pub bare_jid : String
  pub password : String
  pub port : ℕ
  pub host : String

pub record TlsConfiguration : Type 0 where
  pub server_key_path : String
  pub server_cert_path : String

pub record TcpConfiguration : Type 0 where
  pub port : ℕ
  pub tls : TlsConfiguration

pub record DbConfiguration : Type 0 where
  pub url : String

pub record Configuration : Type 0 where
  pub wns : WnsConfiguration
  pub xmpp : XmppConfiguration
  pub tcp : TcpConfiguration
  pub db : DbConfiguration

module _ (lib : JsonLib) where
  open lib use {empty, put, json, of_string, of_nat, get_uint16}

  abbrev pub port_at : lib.Json → String → Result ℕ
  port_at j k = and_then (json_at lib j k) λ v. or_throw type_error (get_uint16 v)

  unfoldable pub wns_to_json : WnsConfiguration → lib.Json
  wns_to_json c = json (
      put (put empty "packetId" (of_string c.packet_id)) "clientSecret" (of_string c.client_secret))

  unfoldable pub wns_from_json : lib.Json → Result WnsConfiguration
  wns_from_json j = and_then (string_at lib j "packetId") λ packet_id.
      and_then (string_at lib j "clientSecret")
        λ client_secret. ok (record { packet_id = packet_id; client_secret = client_secret })

  unfoldable pub xmpp_to_json : XmppConfiguration → lib.Json
  xmpp_to_json c = json (
      put
        (put (put (put empty "bareJid" (of_string c.bare_jid)) "password" (of_string c.password))
          "port" (of_nat c.port))
        "host" (of_string c.host))

  unfoldable pub xmpp_from_json : lib.Json → Result XmppConfiguration
  xmpp_from_json j = and_then (string_at lib j "bareJid") λ bare_jid.
      and_then (string_at lib j "password") λ password. and_then (port_at j "port") λ port.
        and_then (string_at lib j "host")
          λ host. ok (record { bare_jid = bare_jid; password = password; port = port; host = host })

  unfoldable pub tls_to_json : TlsConfiguration → lib.Json
  tls_to_json c = json (
      put (put empty "serverCertPath" (of_string c.server_cert_path)) "serverKeyPath"
        (of_string c.server_key_path))

  unfoldable pub tls_from_json : lib.Json → Result TlsConfiguration
  tls_from_json j = and_then (string_at lib j "serverCertPath") λ server_cert_path.
      and_then (string_at lib j "serverKeyPath") λ server_key_path.
        ok (record { server_key_path = server_key_path; server_cert_path = server_cert_path })

  unfoldable pub tcp_to_json : TcpConfiguration → lib.Json
  tcp_to_json c = json (put (put empty "port" (of_nat c.port)) "tls" (tls_to_json c.tls))

  unfoldable pub tcp_from_json : lib.Json → Result TcpConfiguration
  tcp_from_json j = and_then (port_at j "port") λ port.
      and_then (json_at lib j "tls")
        λ tls_json. and_then (tls_from_json tls_json) λ tls. ok (record { port = port; tls = tls })

  unfoldable pub db_to_json : DbConfiguration → lib.Json
  db_to_json c = json (put empty "url" (of_string c.url))

  unfoldable pub db_from_json : lib.Json → Result DbConfiguration
  db_from_json j = and_then (string_at lib j "url") λ url. ok (record { url = url })

  unfoldable pub to_json : Configuration → lib.Json
  to_json c = json (
      put
        (put (put (put empty "wns" (wns_to_json c.wns)) "xmpp" (xmpp_to_json c.xmpp)) "tcp"
          (tcp_to_json c.tcp))
        "db" (db_to_json c.db))

  unfoldable pub from_json : lib.Json → Result Configuration
  from_json j = and_then (json_at lib j "wns") λ wns_json. and_then (wns_from_json wns_json) λ wns.
      and_then (json_at lib j "xmpp") λ xmpp_json. and_then (xmpp_from_json xmpp_json) λ xmpp.
        and_then (json_at lib j "tcp") λ tcp_json. and_then (tcp_from_json tcp_json) λ tcp.
          and_then (json_at lib j "db") λ db_json.
            and_then (db_from_json db_json)
              λ db. ok (record { wns = wns; xmpp = xmpp; tcp = tcp; db = db })
