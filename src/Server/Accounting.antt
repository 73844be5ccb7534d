-- ===== src/Server/Accounting.antt =====
-- src/server.rs, `resolve_with_context`: how a query is counted.
use dotdns.Prelude.{
  Result-cases, ℕ, ltb, ◌+◌, ◌≡◌, refl, ap, ◌∙◌, inl, inr, Bool, Bool-cases, List, ◌∷◌, Option,
  none, some, Result, ok, err, if◌then◌else◌, incr,
}
use dotdns.Cache.{get}
use dotdns.Cache.Metering.{get-same, Tallies, tallies, tallies-get, tallies-insert_response}
use dotdns.Dns.{Dns}
use dotdns.Metrics
use dotdns.Metrics.{MetricsRecorder}
use dotdns.Net.{IpAddr}
use dotdns.Observability
use dotdns.Observability.{ObservabilityRegistry}
use dotdns.Server.Ecs.{query_with_ecs}
use dotdns.Server.Resolve.{
  Stores, ResolveContext, Clock, Ask, tally, look_up, insert_into, hit, miss, answer_if_blocked,
  after_upstream, answer_if_open, blocks, on_question, resolve_with_context, lead, lone_ask,
  pending_key, pending_follower_timeout_ms,
}
use dotdns.Text.{Text}
use dotdns.Upstream.{UpstreamError, Exchange, returns_at}
use dotdns.Upstream.Metering.{query-Counts}

-- The tallies after one look-up has been counted: as a hit if it found something, else as a miss.
abbrev pub looked : {A : Type 0} → Option A → Tallies → Tallies
looked (some found) t = record t { hits = incr t.hits }
looked none t = record t { misses = incr t.misses }

-- What a query with a question counts before its look-up.
abbrev pub asked : Bool → Tallies → Tallies
asked b t = record t { total = incr t.total; blocked = if b then incr t.blocked else t.blocked }

module _ (D : Dns) where
  open D use {Message, view, Query}

  abbrev of : Stores D → Tallies
  of s = tallies s.metrics

  tally-metrics :
      (f : MetricsRecorder → MetricsRecorder)
      (g : IpAddr → ObservabilityRegistry → ObservabilityRegistry) (ip : Option IpAddr)
      (s : Stores D)
      → (tally D f g ip s).metrics ≡ f s.metrics
  unfolding tally
  tally-metrics f g none s = refl
  tally-metrics f g (some ip) s = refl

  hit-tallies :
      (ctx : ResolveContext D) (query m : Message) (s : Stores D)
      → of (hit D ctx query m s).0 ≡ record (of s) { hits = incr s.metrics.cache_hits }
  unfolding hit Metrics.record_cache_hit
  hit-tallies ctx query m s = ap {A = MetricsRecorder} tallies (tally-metrics _ _ ctx.client_ip s)

  miss-tallies :
      (ctx : ResolveContext D) (s : Stores D)
      → of (miss D ctx s) ≡ record (of s) { misses = incr s.metrics.cache_misses }
  unfolding miss Metrics.record_cache_miss
  miss-tallies ctx s = ap {A = MetricsRecorder} tallies (tally-metrics _ _ ctx.client_ip s)

  insert_into-tallies :
      (clock : Clock) (query m : Message) (s : Stores D) → of (insert_into D clock query m s) ≡ of s
  unfolding insert_into
  insert_into-tallies clock query m s =
      tallies-insert_response D clock.insert_at clock.pick query m (s.cache, s.metrics)

  look_up-tallies : (now : ℕ) (up : Message) (s : Stores D) → of (look_up D now up s).0 ≡ of s
  unfolding look_up
  look_up-tallies now up s = tallies-get D now up (s.cache, s.metrics)

  blocked-looked :
      (ctx : ResolveContext D) (clock : Clock) (query up : Message) (f : Stores D × Option Message)
      → of (answer_if_blocked D ctx clock query up f).0 ≡ looked f.1 (of f.0)
  unfolding answer_if_blocked
  blocked-looked ctx clock query up (s, some m) = hit-tallies ctx query m s
  blocked-looked ctx clock query up (s, none) =
      insert_into-tallies clock up _ (miss D ctx s) ∙ miss-tallies ctx s

  looks_in_cache :
      (now : ℕ) (up : Message) (s : Stores D)
      → (look_up D now up s).1 ≡ (get D now up (s.cache, s.metrics)).1
  unfolding look_up
  looks_in_cache now up s = refl

  -- A call to the upstreams under which no other query is counted.
  abbrev pub Undisturbed : Ask D → Type 0
  Undisturbed ask = (m : Message) (s : Stores D) → tallies (ask m s).0.metrics ≡ tallies s.metrics

  after_upstream-tallies :
      (clock : Clock) (query up : Message) (r : Stores D × Result UpstreamError Message)
      → of (after_upstream D clock query up r).0 ≡ of r.0
  unfolding after_upstream
  after_upstream-tallies clock query up (s, ok m) = insert_into-tallies clock up _ s
  after_upstream-tallies clock query up (s, err e) = refl

  open-looked :
      (ask : Ask D) (ctx : ResolveContext D) (clock : Clock) (query up : Message)
      (f : Stores D × Option Message)
      → Undisturbed ask
      → of (answer_if_open D ask ctx clock query up f).0 ≡ looked f.1 (of f.0)
  unfolding answer_if_open
  open-looked ask ctx clock query up (s, some m) u = hit-tallies ctx query m s
  open-looked ask ctx clock query up (s, none) u =
      after_upstream-tallies clock query up (ask up (miss D ctx s))
      ∙ u up (miss D ctx s)
      ∙ miss-tallies ctx s

  lead-tallies :
      (exchange : Exchange Message) (now_ms : ℕ) (s : Stores D)
      → tallies (lead D exchange now_ms s).0.metrics ≡ tallies s.metrics
  unfolding lead Metrics.record_pending_leader_started Metrics.record_pending_leader_completed
  lead-tallies exchange now_ms s =
      let m = Metrics.record_pending_leader_started s.metrics in
      let (m', e, t) =
        query-Counts exchange m now_ms
          (record s.pool { metrics = some m; observability = s.observability }) (m, refl, refl) in
      rw e t

  -- The upstream call of a handler that is alone counts no query, if its task counts none.
  pub lone_ask-Undisturbed :
      (exchange : Exchange Message) (now_ms : ℕ) (unfinished : Stores D → Stores D)
      → ((s : Stores D) → tallies (unfinished s).metrics ≡ tallies s.metrics)
      → Undisturbed (lone_ask D exchange now_ms unfinished)
  unfolding lone_ask Metrics.record_pending_leader_started
  lone_ask-Undisturbed exchange now_ms unfinished kept m s = elim (Result-cases (pending_key D m)) [
    | inr (e, h) ↦ rw (h, lone_ask)
    | inl (key, e) ↦
        elim (Bool-cases
          (ltb (returns_at exchange now_ms s.pool) (now_ms + pending_follower_timeout_ms))) [
            | inl in_time ↦ rw (e, lone_ask, in_time) (lead-tallies exchange now_ms s)
            | inr late ↦
                rw (e, lone_ask, late)
                  (kept (record s { metrics = Metrics.record_pending_leader_started s.metrics }))
          ]
  ]

  module _ (lower : Text → Text) where
    -- What the look-up finds does not depend on what has been counted before it.
    found_same :
        (now : ℕ) (up : Message) (f : MetricsRecorder → MetricsRecorder)
        (g : IpAddr → ObservabilityRegistry → ObservabilityRegistry) (ip : Option IpAddr)
        (s : Stores D)
        → (look_up D now up (tally D f g ip s)).1 ≡ (look_up D now up s).1
    unfolding look_up tally
    found_same now up f g none s = get-same D now up s.cache _ s.metrics
    found_same now up f g (some ip) s = get-same D now up s.cache _ s.metrics

    on_question-looked :
        (ask : Ask D) (ctx : ResolveContext D) (clock : Clock) (query : Message) (q : Query)
        (qs : List Query) (s : Stores D)
        → Undisturbed ask
        → of (on_question D lower ask ctx clock query (q ∷ qs) s).0
          ≡ looked
              (look_up D clock.get_at (query_with_ecs D query ctx.client_ip ctx.edns) s).1
              (record (of s) {
                blocked = if blocks D lower ctx q then incr (of s).blocked else (of s).blocked;
              })
    unfolding on_question Metrics.record_blocked
    on_question-looked ask ctx clock query q qs s u =
        let up = query_with_ecs D query ctx.client_ip ctx.edns in
        let counted =
          tally D Metrics.record_blocked Observability.record_client_blocked ctx.client_ip s in
        let f = look_up D clock.get_at up counted in
        let g = look_up D clock.get_at up s in
        let in_f =
          look_up-tallies clock.get_at up counted
          ∙ ap {A = MetricsRecorder} tallies (tally-metrics _ _ ctx.client_ip s) in
        let found = found_same clock.get_at up _ _ ctx.client_ip s in
        elim (Bool-cases (blocks D lower ctx q)) [
          | inl b ↦ rw b (
              blocked-looked ctx clock query up f
              ∙ ap (looked f.1) in_f
              ∙ ap (λ o. looked o (tallies (Metrics.record_blocked s.metrics))) found)
          | inr b ↦ rw b (
              open-looked ask ctx clock query up g u
              ∙ ap (looked g.1) (look_up-tallies clock.get_at up s))
        ]

    -- A query with a question counts one query, one blocked query exactly when its name is blocked, and one
    -- hit if the cache has an answer to it, with its subnet, at the time of the look-up, or one miss if
    -- it has none, where no other query is counted while it waits.
    pub resolve_with_context-looked :
        (ask : Ask D) (ctx : ResolveContext D) (clock : Clock) (query : Message) (q : Query)
        (qs : List Query) (s : Stores D)
        → Undisturbed ask
        → (view query).queries ≡ q ∷ qs
        → tallies (resolve_with_context D lower ask ctx clock query s).0.metrics
          ≡ looked
              (get D clock.get_at
                (query_with_ecs D query ctx.client_ip ctx.edns)
                (s.cache, s.metrics)).1
              (asked (blocks D lower ctx q) (tallies s.metrics))
    unfolding resolve_with_context Metrics.record_query
    resolve_with_context-looked ask ctx clock query q qs s u h =
        let received =
          tally D Metrics.record_query Observability.record_client_query ctx.client_ip s in
        let counted : of received ≡ record (of s) { total = incr s.metrics.total_queries } =
          ap {A = MetricsRecorder} tallies (tally-metrics _ _ ctx.client_ip s) in
        let b = blocks D lower ctx q in
        let up = query_with_ecs D query ctx.client_ip ctx.edns in
        let e =
          ap {A = Tallies} (λ t. record t { blocked = if b then incr t.blocked else t.blocked })
            counted in
        rw h (
          on_question-looked ask ctx clock query q qs received u
          ∙ ap (looked (look_up D clock.get_at up received).1) e
          ∙ ap (λ o. looked o (asked b (of s)))
              (found_same clock.get_at up _ _ ctx.client_ip s ∙ looks_in_cache clock.get_at up s))
