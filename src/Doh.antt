-- ===== src/Doh.antt =====
-- src/doh.rs: the handlers of DNS over HTTPS, and the task of a connection. The web framework axum,
-- the decoder of the crate base64 and the codec of hickory_proto are parameters, and so are the TLS
-- handshake, by its outcome, and what the server hyper does with the connection.
pub mod Answers
pub mod Connections
use dotdns.Prelude.{
  ℕ, Bool, false, List, [], ◌∷◌, Option, none, some, Result, ok, err, ◌>>=◌, map_err, if◌then◌else◌,
}
use dotdns.Blocklist.Loading.{ReloadableBlocklist}
use dotdns.Dns.{Dns}
use dotdns.Metrics
use dotdns.Metrics.{MetricsRecorder}
use dotdns.Net.{IpAddr, v4, SocketAddr}
use dotdns.Server.Connection.{count_in, opened, closed}
use dotdns.Server.Ecs.{EdnsConfig}
use dotdns.Server.Framing.{Timed, done, failed, elapsed}
use dotdns.Server.Resolve.{Ask, Clock, ResolveContext, Stores, resolve_with_context}
use dotdns.Server.Responses.{BlocklistConfig}
use dotdns.Text.{Text, codes, eq_text}

pub data StatusCode : Type 0 where
  bad_request unsupported_media_type internal_server_error : StatusCode

-- A response with the status 200.
pub record HttpResponse : Type 0 where
  pub content_type : Text
  pub body : List ℕ

-- `headers.get(CONTENT_TYPE)`, `HeaderValue::to_str` and `URL_SAFE_NO_PAD.decode`.
pub record Http : Type 1 where
  pub HeaderMap : Type 0
  pub HeaderValue : Type 0
  pub get_content_type : HeaderMap → Option HeaderValue
  pub to_str : HeaderValue → Option Text
  pub decode : Text → Result Text (List ℕ)

-- What the state has besides `Stores`.
pub record DohState : Type 0 where
  pub blocklist : ReloadableBlocklist
  pub edns : EdnsConfig
  pub blocklist_config : BlocklistConfig

pub record DnsQueryParams : Type 0 where
  pub dns : Text

abbrev pub dns_message : Text
dns_message = codes "application/dns-message"

unfoldable pub peer_or_default : Option SocketAddr → SocketAddr
peer_or_default none = record { ip = v4 0; port = 0 }
peer_or_default (some addr) = addr

unfoldable pub is_dns_message : Option Text → Bool
is_dns_message none = false
is_dns_message (some content_type) = eq_text content_type dns_message

-- `and_then(|v| v.to_str().ok())`
unfoldable pub text_of : (http : Http) → Option http.HeaderValue → Option Text
text_of http none = none
text_of http (some v) = http.to_str v

unfoldable pub content_type_of : (http : Http) → http.HeaderMap → Option Text
unfolding text_of
content_type_of http headers = text_of http (http.get_content_type headers)

module _ (D : Dns) (lower : Text → Text) where
  open D use {Message}

  unfoldable pub context : SocketAddr → DohState → ResolveContext D
  context peer state = record {
    blocklist = state.blocklist;
    client_ip = some peer.ip;
    edns = state.edns;
    blocklist_config = state.blocklist_config;
  }

  unfoldable pub doh_resolve :
      Ask D → Clock → Message → SocketAddr → DohState → Stores D → Stores D × Message
  unfolding context
  doh_resolve ask clock query peer state s =
      resolve_with_context D lower ask (context peer state) clock query s

  -- The end of both handlers.
  unfoldable pub respond : Stores D × Message → Stores D × Result StatusCode HttpResponse
  respond (s, response) = (
    s,
    map_err (λ (e : Text). internal_server_error) (D.to_bytes response) >>= λ bytes.
        ok (record { content_type = dns_message; body = bytes }),
  )

  module _ (http : Http) (from_bytes : List ℕ → Result Text Message) (ask : Ask D) (clock : Clock)
      (addr : Option SocketAddr) (state : DohState) where
    unfoldable pub answer_query :
        Result Text Message → Stores D → Stores D × Result StatusCode HttpResponse
    unfolding doh_resolve respond peer_or_default
    answer_query (err e) s = (s, err bad_request)
    answer_query (ok query) s = respond (doh_resolve ask clock query (peer_or_default addr) state s)

    unfoldable pub dns_query_post :
        http.HeaderMap → List ℕ → Stores D → Stores D × Result StatusCode HttpResponse
    unfolding answer_query
    dns_query_post headers body s =
        if is_dns_message (content_type_of http headers)
        then answer_query (from_bytes body) s
        else (s, err unsupported_media_type)

    unfoldable pub dns_query_get :
        DnsQueryParams → Stores D → Stores D × Result StatusCode HttpResponse
    unfolding answer_query
    dns_query_get params s = elim (http.decode params.dns) [
      | err e ↦ (s, err bad_request)
      | ok body ↦ answer_query (from_bytes body) s
    ]

  -- The task that `accept_loop` spawns for a connection: `conn` is what is done until the connection
  -- ends, `others` what is done during the handshake, `meanwhile` what other
  -- tasks record while it is counted out.
  unfoldable pub serve_connection :
      IpAddr
      → Timed (Unit {0})
      → (Stores D → Stores D)
      → (Stores D → Stores D)
      → (MetricsRecorder → MetricsRecorder)
      → Stores D
      → Stores D
  unfolding opened closed count_in
  serve_connection peer (done tls_stream) others conn meanwhile s =
      closed D meanwhile peer
        (conn (count_in D Metrics.record_tls_handshake_success (others (opened D peer s))))
  serve_connection peer (failed e) others conn meanwhile s =
      closed D meanwhile peer
        (count_in D Metrics.record_tls_handshake_failure (others (opened D peer s)))
  serve_connection peer elapsed others conn meanwhile s =
      closed D meanwhile peer
        (count_in D Metrics.record_tls_handshake_failure (others (opened D peer s)))
