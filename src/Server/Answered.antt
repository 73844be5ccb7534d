-- ===== src/Server/Answered.antt =====
-- src/server.rs with src/upstream.rs: a query that the upstreams answer, from the request to the
-- response, for a handler that is alone.
use mathlib.Core.Path.{subst}
use dotdns.Prelude.{
  ℕ, ltb, true, ◌+◌, arith, ◌<◌, ◌≡◌, refl, sym, ap, ◌∙◌, false, List, ◌∷◌, Option, none, some, ok,
  length,
}
use dotdns.Cache.{get}
use dotdns.Dns.{Dns}
use dotdns.Metrics
use dotdns.Metrics.{MetricsRecorder}
use dotdns.Net.{IpAddr}
use dotdns.Observability.{ObservabilityRegistry}
use dotdns.Server.Answers.{received}
use dotdns.Server.Ecs.{query_with_ecs}
use dotdns.Server.Repeated.{resolve-open, open_asked, look_up-tally}
use dotdns.Server.Resolve.{
  Stores, ResolveContext, Clock, tally, look_up, miss, blocks, resolve_with_context, pending_key,
  lead, lone_ask, pending_follower_timeout_ms,
}
use dotdns.Text.{Text}
use dotdns.Upstream.{Exchange, returns_at}
use dotdns.Upstream.Failover.{Succeeds, order_of, order_of-shared, query-first}

module _ (D : Dns) where
  open D use {Message, view, Query}

  pool-tally :
      (f : MetricsRecorder → MetricsRecorder)
      (g : IpAddr → ObservabilityRegistry → ObservabilityRegistry) (ip : Option IpAddr)
      (s : Stores D)
      → (tally D f g ip s).pool ≡ s.pool
  unfolding tally
  pool-tally f g none s = refl
  pool-tally f g (some ip) s = refl

  -- The pool is as it was when the handler comes to ask it.
  pool-asked :
      (ctx : ResolveContext D) (now : ℕ) (up : Message) (s : Stores D)
      → (miss D ctx (look_up D now up (received D ctx s)).0).pool ≡ s.pool
  unfolding miss look_up
  pool-asked ctx now up s = pool-tally _ _ ctx.client_ip _ ∙ pool-tally _ _ ctx.client_ip s

  lone_ask-first :
      (exchange : Exchange Message) (now_ms : ℕ) (unfinished : Stores D → Stores D) (up : Message)
      (s : Stores D) (key : List ℕ) (i : ℕ)
      → pending_key D up ≡ ok key
      → returns_at exchange now_ms s.pool < now_ms + pending_follower_timeout_ms
      → i < length s.pool.names
      → ((b : ℕ) → (r : Message) × ((exchange b i).result ≡ ok r))
      → (r : Message) × ((lone_ask D exchange now_ms unfinished up s).1 ≡ ok r)
        × Succeeds exchange 0 (order_of s.pool now_ms) r
  unfolding lone_ask lead
  lone_ask-first exchange now_ms unfinished up s key i k soon h good =
      let in_time : ltb (returns_at exchange now_ms s.pool) (now_ms + pending_follower_timeout_ms)
          ≡ true =
        ground arith in
      let (r, e, first) =
        query-first exchange now_ms
          (record s.pool {
            metrics = some (Metrics.record_pending_leader_started s.metrics);
            observability = s.observability;
          })
          i h good in
      (
        r,
        rw (k, lone_ask, in_time) e,
        subst (λ l. Succeeds exchange 0 l r) (order_of-shared s.pool _ _ now_ms) first,
      )

  module _ (lower : Text → Text) where
    -- A query for a name that is neither blocked nor cached is answered with a message of the
    -- upstreams, the first success in the order of attempts, under the identifier of the query, if the
    -- query can be written, some upstream of the pool answers whenever it is asked, the attempts up to
    -- the first success take less than ten seconds together, and no other handler runs.
    pub resolve_with_context-answered :
        (exchange : Exchange Message) (now_ms : ℕ) (unfinished : Stores D → Stores D)
        (ctx : ResolveContext D) (clock : Clock) (query : Message) (q : Query) (qs : List Query)
        (s : Stores D) (key : List ℕ) (i : ℕ)
        → (view query).queries ≡ q ∷ qs
        → blocks D lower ctx q ≡ false
        → let up : Message = query_with_ecs D query ctx.client_ip ctx.edns in
          (get D clock.get_at up (s.cache, s.metrics)).1 ≡ none
          → pending_key D up ≡ ok key
          → returns_at exchange now_ms s.pool < now_ms + 10_000
          → i < length s.pool.names
          → ((b : ℕ) → (r : Message) × ((exchange b i).result ≡ ok r))
          → (r : Message) × Succeeds exchange 0 (order_of s.pool now_ms) r
            × ((resolve_with_context D lower
                  (lone_ask D exchange now_ms unfinished)
                  ctx
                  clock
                  query
                  s).1
                ≡ D.set_id (view query).id r)
    resolve_with_context-answered exchange now_ms unfinished ctx clock query q qs s key i h b gone k
          soon in_pool good =
        let up = query_with_ecs D query ctx.client_ip ctx.edns in
        let ask = lone_ask D exchange now_ms unfinished in
        let found = look_up D clock.get_at up (received D ctx s) in
        let before = miss D ctx found.0 in
        let same = pool-asked ctx clock.get_at up s in
        let (r, e, first) =
          lone_ask-first exchange now_ms unfinished up before key i k
            (subst (λ p. returns_at exchange now_ms p < now_ms + 10_000) (sym same) soon)
            (subst (λ p. i < length p.names) (sym same) in_pool) good in
        let asked : ask up before ≡ ((ask up before).0, ok r) =
          ap (λ x. ((ask up before).0, x)) e in
        (
          r,
          subst (λ p. Succeeds exchange 0 (order_of p now_ms) r) same first,
          ap {A = Stores D × Message} (λ x. x.1)
              (resolve-open D lower ask ctx clock query q qs s h b
                ∙ open_asked D ask ctx clock query up r found (ask up before).0
                    (look_up-tally D clock.get_at up ctx.client_ip s ∙ gone) asked),
        )
