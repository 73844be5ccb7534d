-- ===== src/Server/Resolve.antt =====
-- src/server.rs, `resolve_with_context` and `PendingQueries::query`. `Stores` is what the handlers
-- share. While a handler waits for an upstream the others run: `ask` is the whole of that call, what
-- it answers and what the stores are when it returns. `lone_ask` is the call of a handler that is
-- alone: its own task runs the upstream query, and it waits for the task until the time-out.
use dotdns.Prelude.{
  ℕ, Bool, List, [], ◌∷◌, Option, none, some, Result, ok, err, if◌then◌else◌, ltb, ◌+◌,
}
use mathlib.Core.Option
use dotdns.Blocklist.{is_blocked}
use dotdns.Blocklist.Loading.{ReloadableBlocklist, decide_reloadable}
use dotdns.Cache.{CacheInner, get, insert_response}
use dotdns.Dns.{Dns}
use dotdns.Metrics
use dotdns.Metrics.{MetricsRecorder}
use dotdns.Net.{IpAddr}
use dotdns.Observability
use dotdns.Observability.{ObservabilityRegistry}
use dotdns.Server.Ecs.{EdnsConfig, query_with_ecs}
use dotdns.Server.Responses.{BlocklistConfig, make_error_response, make_blocked_response}
use dotdns.Text.{Text, trim_end_char}
use dotdns.Upstream.{UpstreamPool, UpstreamError, serialization, timeout, Exchange}
use dotdns.Upstream

-- The times of the cache's look-up and insertion, and the key that an insertion would evict.
pub record Clock : Type 0 where
  pub get_at : ℕ
  pub insert_at : ℕ
  pub pick : ℕ

abbrev pub pending_follower_timeout_ms : ℕ
pending_follower_timeout_ms = 10_000

module _ (D : Dns) where
  open D use {Message, view, Query}

  pub record Stores : Type 0 where
    pub metrics : MetricsRecorder
    pub observability : Option ObservabilityRegistry
    pub cache : CacheInner D
    pub pool : UpstreamPool

  -- What one request is resolved with besides the stores.
  pub record ResolveContext : Type 0 where
    pub blocklist : ReloadableBlocklist
    pub client_ip : Option IpAddr
    pub edns : EdnsConfig
    pub blocklist_config : BlocklistConfig

  abbrev pub Ask : Type 0
  Ask = Message → Stores → Stores × Result UpstreamError Message

  -- A count in the metrics, and one for the client where both the registry and the client are known.
  unfoldable pub tally :
      (MetricsRecorder → MetricsRecorder)
      → (IpAddr → ObservabilityRegistry → ObservabilityRegistry)
      → Option IpAddr
      → Stores
      → Stores
  tally count count_client none s = record s { metrics = count s.metrics }
  tally count count_client (some ip) s = record s {
    metrics = count s.metrics;
    observability = Option.map (count_client ip) s.observability;
  }

  unfoldable pub look_up : ℕ → Message → Stores → Stores × Option Message
  look_up now query s =
      let ((cache, metrics), found) = get D now query (s.cache, s.metrics) in
      (record s { cache = cache; metrics = metrics }, found)

  unfoldable pub insert_into : Clock → Message → Message → Stores → Stores
  insert_into clock query response s =
      let (cache, metrics) =
        insert_response D clock.insert_at clock.pick query response (s.cache, s.metrics) in
      record s { cache = cache; metrics = metrics }

  unfoldable pub hit : ResolveContext → Message → Message → Stores → Stores × Message
  unfolding tally
  hit ctx query cached s = (
    tally Metrics.record_cache_hit Observability.record_client_cache_hit ctx.client_ip s,
    D.set_id (view query).id cached,
  )

  unfoldable pub miss : ResolveContext → Stores → Stores
  unfolding tally
  miss ctx s =
      tally Metrics.record_cache_miss Observability.record_client_cache_miss ctx.client_ip s

  -- The blocked branch, after the look-up of `up`, the query with its subnet.
  unfoldable pub answer_if_blocked :
      ResolveContext → Clock → Message → Message → Stores × Option Message → Stores × Message
  unfolding hit miss insert_into
  answer_if_blocked ctx clock query up (s, some cached) = hit ctx query cached s
  answer_if_blocked ctx clock query up (s, none) =
      let response = make_blocked_response D query ctx.blocklist_config in
      (insert_into clock up response (miss ctx s), response)

  unfoldable pub after_upstream :
      Clock → Message → Message → Stores × Result UpstreamError Message → Stores × Message
  unfolding insert_into
  after_upstream clock query up (s, ok answer) =
      let response = D.set_id (view query).id answer in (insert_into clock up response s, response)
  after_upstream clock query up (s, err e) = (s, make_error_response D query D.serv_fail)

  unfoldable pub answer_if_open :
      Ask → ResolveContext → Clock → Message → Message → Stores × Option Message → Stores × Message
  unfolding hit miss after_upstream
  answer_if_open ask ctx clock query up (s, some cached) = hit ctx query cached s
  answer_if_open ask ctx clock query up (s, none) =
      after_upstream clock query up (ask up (miss ctx s))

  module _ (lower : Text → Text) where
    unfoldable pub blocks : ResolveContext → Query → Bool
    blocks ctx q =
        is_blocked
          (decide_reloadable lower ctx.blocklist (trim_end_char (D.to_utf8 (D.query_name q)) b'.'))

    unfoldable pub on_question :
        Ask → ResolveContext → Clock → Message → List Query → Stores → Stores × Message
    unfolding tally look_up answer_if_blocked answer_if_open blocks
    on_question ask ctx clock query [] s = (s, make_error_response D query D.form_err)
    on_question ask ctx clock query (q ∷ qs) s =
        let up = query_with_ecs D query ctx.client_ip ctx.edns in
        if blocks ctx q
        then answer_if_blocked ctx clock query up (
            look_up clock.get_at up
              (tally Metrics.record_blocked Observability.record_client_blocked ctx.client_ip s))
        else answer_if_open ask ctx clock query up (look_up clock.get_at up s)

    unfoldable pub resolve_with_context :
        Ask → ResolveContext → Clock → Message → Stores → Stores × Message
    unfolding tally on_question
    resolve_with_context ask ctx clock query s =
        on_question ask ctx clock query (view query).queries
          (tally Metrics.record_query Observability.record_client_query ctx.client_ip s)

  unfoldable pub pending_key : Message → Result Text (List ℕ)
  pending_key query = D.to_bytes (D.set_id 0 query)

  metrics_or : MetricsRecorder → Option MetricsRecorder → MetricsRecorder
  metrics_or m none = m
  metrics_or m (some m') = m'

  -- The pool's metrics and registry are the server's own.
  unfoldable pub lead : Exchange Message → ℕ → Stores → Stores × Result UpstreamError Message
  unfolding metrics_or
  lead exchange now_ms s =
      let m = Metrics.record_pending_leader_started s.metrics in
      let (pool, result) =
        Upstream.query exchange now_ms
          (record s.pool { metrics = some m; observability = s.observability }) in
      (
        record s {
          metrics = Metrics.record_pending_leader_completed (metrics_or m pool.metrics);
          observability = pool.observability;
          pool = pool;
        },
        result,
      )

  -- `unfinished` is what the task has done to the stores when the caller no longer waits for it.
  unfoldable pub lone_ask : Exchange Message → ℕ → (Stores → Stores) → Ask
  unfolding lead
  lone_ask exchange now_ms unfinished query s = elim (pending_key query) [
    | err e ↦ (s, err (serialization e))
    | ok key ↦
        if ltb (Upstream.returns_at exchange now_ms s.pool) (now_ms + pending_follower_timeout_ms)
        then lead exchange now_ms s
        else (
          unfinished (record s { metrics = Metrics.record_pending_leader_started s.metrics }),
          err timeout,
        )
  ]
