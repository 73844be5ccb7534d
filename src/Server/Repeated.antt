-- ===== src/Server/Repeated.antt =====
-- src/server.rs, `resolve_with_context`, with src/cache.rs: the same question asked again.
use dotdns.Prelude.{ℕ, ◌≡◌, ap, ◌∙◌, false, List, ◌∷◌, Option, none, some, ok}
use dotdns.Cache.{get}
use dotdns.Cache.Metering.{get-same}
use dotdns.CacheKey.{CacheKey}
use dotdns.Dns.{Dns}
use dotdns.Metrics
use dotdns.Net.{IpAddr}
use dotdns.Observability
use dotdns.Server.Answers.{received}
use dotdns.Server.Ecs.{query_with_ecs}
use dotdns.Server.Resolve.{
  Stores, ResolveContext, Clock, Ask, tally, look_up, insert_into, miss, after_upstream,
  answer_if_open, blocks, on_question, resolve_with_context,
}
use dotdns.Text.{Text}

module _ (D : Dns) where
  open D use {Message, view, Query}

  pub look_up-tally :
      (now : ℕ) (up : Message) (ip : Option IpAddr) (s : Stores D)
      → (look_up D now up (tally D Metrics.record_query Observability.record_client_query ip s)).1
        ≡ (get D now up (s.cache, s.metrics)).1
  unfolding look_up tally
  look_up-tally now up none s = get-same D now up s.cache _ s.metrics
  look_up-tally now up (some ip) s = get-same D now up s.cache _ s.metrics

  pub open_asked :
      (ask : Ask D) (ctx : ResolveContext D) (clock : Clock) (query up answer : Message)
      (f : Stores D × Option Message) (s : Stores D)
      → f.1 ≡ none
      → ask up (miss D ctx f.0) ≡ (s, ok answer)
      → answer_if_open D ask ctx clock query up f ≡ (
        insert_into D clock up (D.set_id (view query).id answer) s,
        D.set_id (view query).id answer,
      )
  unfolding answer_if_open after_upstream
  open_asked ask ctx clock query up answer (s', some n) s h e = cc
  open_asked ask ctx clock query up answer (s', none) s h e = ap (after_upstream D clock query up) e

  module _ (lower : Text → Text) where
    pub resolve-open :
        (ask : Ask D) (ctx : ResolveContext D) (clock : Clock) (query : Message) (q : Query)
        (qs : List Query) (s : Stores D)
        → (view query).queries ≡ q ∷ qs
        → blocks D lower ctx q ≡ false
        → let up : Message = query_with_ecs D query ctx.client_ip ctx.edns in
          resolve_with_context D lower ask ctx clock query s
          ≡ answer_if_open D ask ctx clock query up (look_up D clock.get_at up (received D ctx s))
    unfolding resolve_with_context on_question
    resolve-open ask ctx clock query q qs s h b =
        ap (λ l. on_question D lower ask ctx clock query l (received D ctx s)) h ∙ rw b
