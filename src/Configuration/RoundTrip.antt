-- ===== src/Configuration/RoundTrip.antt =====
-- A configuration that has been written is read back.
use Prim.Native.Nat.{◌<◌, ◌^◌}
use uwpx_push_server.Common.{◌≡◌, ok}
use uwpx_push_server.Json.{JsonLib, JsonLaws}
use uwpx_push_server.Configuration.{
  WnsConfiguration, XmppConfiguration, TlsConfiguration, TcpConfiguration, DbConfiguration,
  Configuration, wns_to_json, wns_from_json, xmpp_to_json, xmpp_from_json, tls_to_json,
  tls_from_json, tcp_to_json, tcp_from_json, db_to_json, db_from_json, to_json, from_json,
}

-- Both ports are values of uint16_t.
pub record IsConfiguration (c : Configuration) : Type 0 where
  pub xmpp_port : c.xmpp.port < 2 ^ 16
  pub tcp_port : c.tcp.port < 2 ^ 16

module _ (lib : JsonLib) (laws : JsonLaws lib) where
  open laws use {at_put, get_of_string, get_of_nat}

  wns_from_json-wns_to_json : (c : WnsConfiguration) → wns_from_json lib (wns_to_json lib c) ≡ ok c
  unfolding wns_from_json wns_to_json
  wns_from_json-wns_to_json c = simp (at_put, get_of_string)

  xmpp_from_json-xmpp_to_json :
      (c : XmppConfiguration) → c.port < 2 ^ 16 → xmpp_from_json lib (xmpp_to_json lib c) ≡ ok c
  unfolding xmpp_from_json xmpp_to_json
  xmpp_from_json-xmpp_to_json c h = simp (at_put, get_of_string, get_of_nat c.port h)

  tls_from_json-tls_to_json : (c : TlsConfiguration) → tls_from_json lib (tls_to_json lib c) ≡ ok c
  unfolding tls_from_json tls_to_json
  tls_from_json-tls_to_json c = simp (at_put, get_of_string)

  tcp_from_json-tcp_to_json :
      (c : TcpConfiguration) → c.port < 2 ^ 16 → tcp_from_json lib (tcp_to_json lib c) ≡ ok c
  unfolding tcp_from_json tcp_to_json
  tcp_from_json-tcp_to_json c h =
      simp (at_put, get_of_nat c.port h, tls_from_json-tls_to_json c.tls)

  db_from_json-db_to_json : (c : DbConfiguration) → db_from_json lib (db_to_json lib c) ≡ ok c
  unfolding db_from_json db_to_json
  db_from_json-db_to_json c = simp (at_put, get_of_string)

  -- A configuration whose ports fit in 16 bits, written as JSON and read, is the configuration.
  pub from_json-to_json :
      (c : Configuration) → IsConfiguration c → from_json lib (to_json lib c) ≡ ok c
  unfolding from_json to_json
  from_json-to_json c h = simp (
    at_put,
    wns_from_json-wns_to_json c.wns,
    xmpp_from_json-xmpp_to_json c.xmpp h.xmpp_port,
    tcp_from_json-tcp_to_json c.tcp h.tcp_port,
    db_from_json-db_to_json c.db,
  )
