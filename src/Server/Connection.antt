-- ===== src/Server/Connection.antt =====
-- src/server.rs, `handle_connection` and the task that `accept_loop` spawns for it: the messages of a
-- DoT connection, one after the other. The TLS handshake is a parameter, by its outcome. `ctx` has
-- the address of the peer.
pub mod Answering
use dotdns.Prelude.{ℕ, Bool, List, [], ◌∷◌, ◌++◌, Option, none, some, Result, ok, err}
use mathlib.Core.Option
use dotdns.Dns.{Dns}
use dotdns.Metrics
use dotdns.Metrics.{MetricsRecorder}
use dotdns.Net.{IpAddr}
use dotdns.Observability
use dotdns.Server.Framing.{
  AsyncIo, Timed, done, failed, elapsed, ServerError, io, tls, dns, timeout, read_message,
  write_message,
}
use dotdns.Server.Resolve.{Ask, Clock, ResolveContext, Stores, resolve_with_context}
use dotdns.Text.{Text}

-- A round of the loop: what the other parts of the server do until its message is there, the times of
-- the look-up and the insertion, and whether the time-out elapses over the response.
pub record Round (D : Dns) : Type 0 where
  pub others : Stores D → Stores D
  pub ask : Ask D
  pub clock : Clock
  pub late : Bool

-- How the loop stands: it has ended, or waits for more.
pub data Finish : Type 0 where
  ended running : Finish

module _ (D : Dns) where
  unfoldable pub count_in : (MetricsRecorder → MetricsRecorder) → Stores D → Stores D
  count_in count s = record s { metrics = count s.metrics }

  unfoldable pub observe_peer :
      (IpAddr → Observability.ObservabilityRegistry → Observability.ObservabilityRegistry)
      → IpAddr
      → Stores D
      → Stores D
  observe_peer record_client peer s = record s {
    observability = Option.map (record_client peer) s.observability;
  }

  unfoldable pub opened : IpAddr → Stores D → Stores D
  unfolding count_in observe_peer
  opened peer s =
      observe_peer Observability.record_client_connection_opened peer
        (count_in Metrics.record_accepted_connection s)

  unfoldable pub closed : (MetricsRecorder → MetricsRecorder) → IpAddr → Stores D → Stores D
  unfolding count_in observe_peer
  closed meanwhile peer s =
      observe_peer Observability.record_client_connection_closed peer
        (count_in (Metrics.record_active_connection_closed meanwhile) s)

module _ (D : Dns) {R W : Type 0} (tokio : AsyncIo R W)
    (from_bytes : List ℕ → Result Text D.Message) (lower : Text → Text)
    (ctx : ResolveContext D) where
  open D use {Message}

  -- The loop over the messages of the connection, with the rounds that there may be.
  unfoldable pub handle_messages : List (Round D) → R → W → Stores D → Stores D × W × Finish
  unfolding count_in
  handle_messages [] r w s = (s, w, running)
  handle_messages (round ∷ rounds) r w s = elim (read_message tokio from_bytes r) [
    | err e ↦ (count_in D Metrics.record_dns_read_failure (round.others s), w, ended)
    | ok (none, r') ↦ (round.others s, w, ended)
    | ok (some query, r') ↦
        let (s', response) =
          resolve_with_context D lower round.ask ctx round.clock query (round.others s) in
        elim (write_message tokio D.to_bytes response round.late w) [
          | err e ↦ (count_in D Metrics.record_dns_write_failure s', w, ended)
          | ok w' ↦ handle_messages rounds r' w' s'
        ]
  ]

  unfoldable pub handle_stream :
      Timed (R × W)
      → List (Round D)
      → W
      → Stores D
      → (Stores D × W × Finish) × Result ServerError (Unit {0})
  unfolding handle_messages count_in
  handle_stream (done (r, w)) rounds w₀ s =
      (handle_messages rounds r w (count_in D Metrics.record_tls_handshake_success s), ok tt)
  handle_stream (failed e) rounds w₀ s =
      ((count_in D Metrics.record_tls_handshake_failure s, w₀, ended), err (tls e))
  handle_stream elapsed rounds w₀ s =
      ((count_in D Metrics.record_tls_handshake_failure s, w₀, ended), err timeout)

  -- An accepted connection, from its opening to the end of its task, which ends while other tasks do
  -- `meanwhile`.
  unfoldable pub serve_connection :
      IpAddr
      → Timed (R × W)
      → List (Round D)
      → (MetricsRecorder → MetricsRecorder)
      → W
      → Stores D
      → Stores D
  unfolding handle_stream opened closed
  serve_connection peer handshake rounds meanwhile w s =
      let (s', w', finish) = (handle_stream handshake rounds w (opened D peer s)).0 in
      elim finish [ ended ↦ closed D meanwhile peer s' | running ↦ s' ]
