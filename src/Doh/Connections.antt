-- ===== src/Doh/Connections.antt =====
-- src/doh.rs, the task that `accept_loop` spawns: however a connection goes, it is counted once and no
-- longer counted as active when it is over.
use dotdns.Prelude.{ℕ, ◌+◌, ◌<◌, ◌≡◌, ◌^◌, ◌∙◌, arith}
use dotdns.Dns.{Dns}
use dotdns.Doh.{serve_connection}
use dotdns.Metrics
use dotdns.Metrics.{MetricsRecorder}
use dotdns.Net.{IpAddr}
use dotdns.Server.Connection.{count_in, opened, closed, observe_peer}
use dotdns.Server.Framing.{Timed, done, failed, elapsed}
use dotdns.Server.Resolve.{Stores}
use dotdns.Text.{Text}

module _ (D : Dns) (lower : Text → Text) where
  abbrev active : Stores D → ℕ
  active s = s.metrics.active_connections

  -- What runs leaves the gauge as it finds it.
  abbrev pub Balanced : (Stores D → Stores D) → Type 0
  Balanced run = (s : Stores D) → (run s).metrics.active_connections ≡ s.metrics.active_connections

  opened-active :
      (peer : IpAddr) (s : Stores D)
      → s.metrics.active_connections + 1 < 2 ^ 64
      → (opened D peer s).metrics.active_connections ≡ s.metrics.active_connections + 1
  unfolding opened observe_peer count_in Metrics.record_accepted_connection
  opened-active peer s h = omega arith

  closed-active :
      (meanwhile : MetricsRecorder → MetricsRecorder) (peer : IpAddr) (s : Stores D) (n : ℕ)
      → ((m : MetricsRecorder) → (meanwhile m).active_connections ≡ m.active_connections)
      → n + 1 < 2 ^ 64
      → s.metrics.active_connections ≡ n + 1
      → (closed D meanwhile peer s).metrics.active_connections ≡ n
  unfolding closed observe_peer count_in Metrics.record_active_connection_closed
      Metrics.close_loaded
  closed-active meanwhile peer s n k h e = ground (arith, k s.metrics)

  -- However the handshake of a connection ends, the gauge of active connections is, when the connection is
  -- over, what it was before, if what else runs leaves it as it finds it.
  pub serve_connection-active :
      (peer : IpAddr) (handshake : Timed (Unit {0})) (others conn : Stores D → Stores D)
      (meanwhile : MetricsRecorder → MetricsRecorder) (s : Stores D)
      → Balanced others
      → Balanced conn
      → ((m : MetricsRecorder) → (meanwhile m).active_connections ≡ m.active_connections)
      → s.metrics.active_connections + 1 < 2 ^ 64
      → (serve_connection D lower peer handshake others conn meanwhile s).metrics.active_connections
        ≡ s.metrics.active_connections
  unfolding serve_connection count_in Metrics.record_tls_handshake_success
      Metrics.record_tls_handshake_failure
  serve_connection-active peer (done tls) others conn meanwhile s kept conn_kept k h =
      let shaken = count_in D Metrics.record_tls_handshake_success (others (opened D peer s)) in
      closed-active meanwhile peer (conn shaken) s.metrics.active_connections k h
        (conn_kept shaken ∙ kept (opened D peer s) ∙ opened-active peer s h)
  serve_connection-active peer (failed e) others conn meanwhile s kept conn_kept k h =
      let shaken = count_in D Metrics.record_tls_handshake_failure (others (opened D peer s)) in
      closed-active meanwhile peer shaken s.metrics.active_connections k h
        (kept (opened D peer s) ∙ opened-active peer s h)
  serve_connection-active peer elapsed others conn meanwhile s kept conn_kept k h =
      let shaken = count_in D Metrics.record_tls_handshake_failure (others (opened D peer s)) in
      closed-active meanwhile peer shaken s.metrics.active_connections k h
        (kept (opened D peer s) ∙ opened-active peer s h)
