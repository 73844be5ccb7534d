-- ===== src/Management/Commands.antt =====
-- src/management.rs: what the commands of the client do to the server.
use dotdns.Prelude.{ℕ, ◌≡◌, refl, ap, [], ◌++◌, Option, none, some, Result, ok, err, ◌>>=◌}
use mathlib.Core.Option
use dotdns.Blocklist.{BlocklistError, ParseReport}
use dotdns.Blocklist.Refresh.{refresh_and_reload}
use dotdns.Cache.{flush}
use dotdns.Dns.{Dns}
use dotdns.Management.{
  ManagementRequest, status, cache_flush, blocklist_reload, sources, clients, ManagementError,
  request, Shared, Crates, dispatch, response_ok, response_error, reload_response,
  upstreams_response, clients_response, ok_with_metrics, ok_with_upstreams, ok_with_clients,
  reloaded_by,
}
use dotdns.Management.Client.{
  Transport, expect_ok, or_missing, client_status, client_cache_flush, client_blocklist_reload,
  client_sources, client_clients,
}
use dotdns.Metrics
use dotdns.Observability
use dotdns.Text.{Text, codes, eq_text}

-- What the client of a reload is told.
abbrev pub reload_outcome :
    {IoError HttpError : Type 0}
    → (BlocklistError IoError HttpError → Text)
    → Result (BlocklistError IoError HttpError) ParseReport
    → Result ManagementError (Unit {0})
reload_outcome display (ok report) = ok tt
reload_outcome display (err e) = err (request (codes "reload failed: " ++ display e))

abbrev pub or_unavailable : {A : Type 0} → Option A → Result ManagementError A
or_unavailable none = err (request (codes "observability not available"))
or_unavailable (some a) = ok a

told_reload :
    {IoError HttpError : Type 0} (display : BlocklistError IoError HttpError → Text)
    (r : Result (BlocklistError IoError HttpError) ParseReport)
    → (expect_ok (reload_response display r) >>= λ resp. ok (tt {0})) ≡ reload_outcome display r
unfolding reload_response expect_ok response_ok response_error eq_text
told_reload display (ok report) = refl
told_reload display (err e) = refl

told_upstreams :
    (message : Text) (o : Option Observability.ObservabilityRegistry)
    → (expect_ok (upstreams_response o) >>= λ resp. or_missing message resp.upstreams)
      ≡ or_unavailable (Option.map Observability.upstream_snapshot o)
unfolding upstreams_response expect_ok ok_with_upstreams response_error eq_text or_missing
told_upstreams message none = refl
told_upstreams message (some reg) = refl

told_clients :
    (message : Text) (o : Option Observability.ObservabilityRegistry)
    → (expect_ok (clients_response o) >>= λ resp. or_missing message resp.clients)
      ≡ or_unavailable (Option.map Observability.client_snapshot o)
unfolding clients_response expect_ok ok_with_clients response_error eq_text or_missing
told_clients message none = refl
told_clients message (some reg) = refl

module _ {D : Dns} {F IoError HttpError : Type 0} (crates : Crates F IoError HttpError)
    (send : Transport (Shared D F)) (now : ℕ) (s : Shared D F) where
  open crates use {fs, client, fetch, lower, display}

  -- Each command is carried out and answered.
  abbrev pub Delivers : Type 0
  Delivers =
      (req : ManagementRequest)
      → send req s ≡ ((dispatch crates now req s).0, ok (dispatch crates now req s).1)

  -- What the commands of the client do if they reach the server and are answered: the status shows the
  -- counters, a flush leaves the cache empty and its gauge at 0, a reload succeeds exactly if the lists
  -- could be refreshed and read, and says why otherwise, and the statistics of the upstreams and of
  -- the clients are those of the registry, or an error if there is none.
  pub client-dispatch :
      Delivers
      → let r = refresh_and_reload fs client fetch lower s.blocklist s.files in
        (client_status send s ≡ (s, ok (Metrics.snapshot now s.metrics)))
        × (client_cache_flush send s ≡ (
          record s {
            cache = record s.cache { entries = [] };
            metrics = Metrics.set_cache_entries 0 s.metrics;
          },
          ok tt,
        ))
        × (client_blocklist_reload send s
            ≡ (record s { files = r.0; blocklist = r.1 }, reload_outcome display r.2))
        × (client_sources send s
            ≡ (s, or_unavailable (Option.map Observability.upstream_snapshot s.observability)))
        × (client_clients send s
            ≡ (s, or_unavailable (Option.map Observability.client_snapshot s.observability)))
  unfolding client_status client_cache_flush client_blocklist_reload client_sources client_clients
      dispatch ok_with_metrics response_ok expect_ok eq_text flush Metrics.set_cache_entries
      reloaded_by ok_with_upstreams ok_with_clients response_error
  client-dispatch delivers = (
    rw (delivers status) refl,
    rw (delivers cache_flush) refl,
    rw (delivers blocklist_reload)
        (ap (λ x. ((dispatch crates now blocklist_reload s).0, x)) (told_reload display _)),
    rw (delivers sources) (ap (λ x. (s, x)) (told_upstreams _ s.observability)),
    rw (delivers clients) (ap (λ x. (s, x)) (told_clients _ s.observability)),
  )
