-- ===== src/Management/Client.antt =====
-- src/management.rs, `ManagementClient`: the commands of the command line, each an exchange of two
-- lines with the server. Connecting is a parameter.
use dotdns.Prelude.{
  List, [], ◌++◌, Option, none, some, Result, ok, err, ◌>>=◌, map_err, if◌then◌else◌, not,
}
use dotdns.Management.{
  ManagementRequest, status, cache_flush, blocklist_reload, tracking, sources, sourcestats,
  activity, clients, ManagementResponse, ManagementError, connection, request, Json,
}
use dotdns.Metrics.{MetricsSnapshot}
use dotdns.Stats.{UpstreamSnapshot, ClientSnapshot}
use dotdns.Text.{Text, codes, trim, is_empty, eq_text}

-- `resp.message.unwrap_or_default()`
or_empty : Option Text → Text
or_empty none = []
or_empty (some message) = message

-- `.ok_or_else(|| ManagementError::Request(…))`
unfoldable pub or_missing : {A : Type 0} → Text → Option A → Result ManagementError A
or_missing message none = err (request message)
or_missing message (some a) = ok a

-- The check of the status that each command starts with.
unfoldable pub expect_ok : ManagementResponse → Result ManagementError ManagementResponse
unfolding or_empty
expect_ok resp =
    if not (eq_text resp.status (codes "ok"))
    then err (request (or_empty resp.message))
    else ok resp

-- The end of `exchange`: the line that was read, which is empty if the server has closed.
unfoldable pub read_response :
    Json ManagementResponse → Result Text Text → Result ManagementError ManagementResponse
read_response responses (err e) = err (connection e)
read_response responses (ok line) =
    if is_empty line
    then err (connection (codes "server closed connection"))
    else if is_empty (trim line)
    then err (connection (codes "empty response"))
    else map_err (λ e. request (codes "invalid response: " ++ e)) (responses.from_str (trim line))

-- `exchange` of a request that was written to the server's connection: the state of the other side
-- goes along.
abbrev pub Transport : Type 0 → Type 0
Transport S = ManagementRequest → S → S × Result ManagementError ManagementResponse

module _ {S : Type 0} (send_request : Transport S) where
  command :
      {A : Type 0}
      → ManagementRequest
      → (ManagementResponse → Result ManagementError A)
      → S
      → S × Result ManagementError A
  command req take s = let (s', resp) = send_request req s in (s', resp >>= expect_ok >>= take)

  unfoldable pub client_status : S → S × Result ManagementError MetricsSnapshot
  unfolding command or_missing
  client_status =
      command status λ resp. or_missing (codes "missing metrics in status response") resp.metrics

  unfoldable pub client_cache_flush : S → S × Result ManagementError (Unit {0})
  unfolding command
  client_cache_flush = command cache_flush λ resp. ok tt

  unfoldable pub client_blocklist_reload : S → S × Result ManagementError (Unit {0})
  unfolding command
  client_blocklist_reload = command blocklist_reload λ resp. ok tt

  unfoldable pub client_tracking : S → S × Result ManagementError MetricsSnapshot
  unfolding command or_missing
  client_tracking =
      command tracking
        λ resp. or_missing (codes "missing metrics in tracking response") resp.metrics

  unfoldable pub client_sources : S → S × Result ManagementError (List UpstreamSnapshot)
  unfolding command or_missing
  client_sources =
      command sources
        λ resp. or_missing (codes "missing upstreams in sources response") resp.upstreams

  unfoldable pub client_sourcestats : S → S × Result ManagementError (List UpstreamSnapshot)
  unfolding command or_missing
  client_sourcestats =
      command sourcestats
        λ resp. or_missing (codes "missing upstreams in sourcestats response") resp.upstreams

  unfoldable pub client_activity : S → S × Result ManagementError MetricsSnapshot
  unfolding command or_missing
  client_activity =
      command activity
        λ resp. or_missing (codes "missing metrics in activity response") resp.metrics

  unfoldable pub client_clients : S → S × Result ManagementError (List ClientSnapshot)
  unfolding command or_missing
  client_clients =
      command clients λ resp. or_missing (codes "missing clients in clients response") resp.clients
