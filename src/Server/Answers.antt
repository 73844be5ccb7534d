-- ===== src/Server/Answers.antt =====
-- src/server.rs, `resolve_with_context`: what a query is answered with.
use dotdns.Prelude.{
  ℕ, ◌≡◌, refl, sym, ap, ◌∙◌, ◌⊎◌, inl, inr, true, if_both, List, [], ◌∷◌, Option, none, some,
  Result, ok, err,
}
use dotdns.Dns.{Dns, View}
use dotdns.Metrics
use dotdns.Observability
use dotdns.Text.{Text}
use dotdns.Net.{IpAddr}
use dotdns.Cache.{get}
use dotdns.Cache.Metering.{get-same}
use dotdns.Upstream.{UpstreamError}
use dotdns.Server.Ecs.{query_with_ecs}
use dotdns.Server.Responses.{make_error_response, make_blocked_response}
use dotdns.Server.Blocked.{make_error_response_view, make_blocked_response-Sinkhole}
use dotdns.Server.Resolve.{
  Stores, ResolveContext, Clock, Ask, tally, look_up, hit, miss, answer_if_blocked, after_upstream,
  answer_if_open, blocks, on_question, resolve_with_context,
}

module _ (D : Dns) where
  open D use {Message, view, Query}

  -- The stores after the request has been counted.
  abbrev pub received : ResolveContext D → Stores D → Stores D
  received ctx s = tally D Metrics.record_query Observability.record_client_query ctx.client_ip s

  HasId : Message → Stores D × Message → Type 0
  HasId query out = (view out.1).id ≡ (view query).id

  error-HasId :
      (query : Message) (code : D.ResponseCode) (s : Stores D)
      → HasId query (s, make_error_response D query code)
  unfolding HasId
  error-HasId query code s =
      ap {A = View D.types} (λ v. v.id) (make_error_response_view D query code)

  set_id-HasId : (query m : Message) (s : Stores D) → HasId query (s, D.set_id (view query).id m)
  unfolding HasId
  set_id-HasId query m s = ap {A = View D.types} (λ v. v.id) (D.set_id_view (view query).id m)

  blocked-HasId :
      (ctx : ResolveContext D) (clock : Clock) (query up : Message) (q : Query) (qs : List Query)
      (f : Stores D × Option Message)
      → (view query).queries ≡ q ∷ qs
      → HasId query (answer_if_blocked D ctx clock query up f)
  unfolding HasId answer_if_blocked hit
  blocked-HasId ctx clock query up q qs (s, some m) h = set_id-HasId query m s
  blocked-HasId ctx clock query up q qs (s, none) h =
      (make_blocked_response-Sinkhole D query ctx.blocklist_config q qs h).same_id

  after_upstream-HasId :
      (clock : Clock) (query up : Message) (r : Stores D × Result UpstreamError Message)
      → HasId query (after_upstream D clock query up r)
  unfolding HasId after_upstream
  after_upstream-HasId clock query up (s, ok m) = set_id-HasId query m s
  after_upstream-HasId clock query up (s, err e) = error-HasId query D.serv_fail s

  open-HasId :
      (ask : Ask D) (ctx : ResolveContext D) (clock : Clock) (query up : Message)
      (f : Stores D × Option Message)
      → HasId query (answer_if_open D ask ctx clock query up f)
  unfolding HasId answer_if_open hit
  open-HasId ask ctx clock query up (s, some m) = set_id-HasId query m s
  open-HasId ask ctx clock query up (s, none) =
      after_upstream-HasId clock query up (ask up (miss D ctx s))

  -- Counting changes nothing that a look-up sees.
  look_up-tally :
      (now : ℕ) (up : Message) (ip : Option IpAddr) (s : Stores D)
      → (look_up D now up (
          tally D Metrics.record_blocked Observability.record_client_blocked ip
            (tally D Metrics.record_query Observability.record_client_query ip s))).1
        ≡ (get D now up (s.cache, s.metrics)).1
  unfolding look_up tally
  look_up-tally now up none s = get-same D now up s.cache _ s.metrics
  look_up-tally now up (some ip) s = get-same D now up s.cache _ s.metrics

  module _ (lower : Text → Text) where
    on_question-HasId :
        (ask : Ask D) (ctx : ResolveContext D) (clock : Clock) (query : Message) (qs : List Query)
        (s : Stores D)
        → (view query).queries ≡ qs
        → HasId query (on_question D lower ask ctx clock query qs s)
    unfolding on_question
    on_question-HasId ask ctx clock query [] s h = error-HasId query D.form_err s
    on_question-HasId ask ctx clock query (q ∷ qs) s h =
        if_both (HasId query) (blocks D lower ctx q)
          (blocked-HasId ctx clock query (query_with_ecs D query ctx.client_ip ctx.edns) q qs _ h)
          (open-HasId ask ctx clock query (query_with_ecs D query ctx.client_ip ctx.edns) _)

    -- Whatever the query, the lists, the cache and the upstreams are, the response carries the
    -- identifier of the query.
    pub resolve_with_context-id :
        (ask : Ask D) (ctx : ResolveContext D) (clock : Clock) (query : Message) (s : Stores D)
        → (view (resolve_with_context D lower ask ctx clock query s).1).id ≡ (view query).id
    unfolding resolve_with_context HasId
    resolve_with_context-id ask ctx clock query s =
        on_question-HasId ask ctx clock query (view query).queries (received ctx s) refl

    on_blocked :
        (ask : Ask D) (ctx : ResolveContext D) (clock : Clock) (query : Message) (q : Query)
        (qs : List Query) (s : Stores D)
        → blocks D lower ctx q ≡ true
        → let up : Message = query_with_ecs D query ctx.client_ip ctx.edns in
          on_question D lower ask ctx clock query (q ∷ qs) s
          ≡ answer_if_blocked D ctx clock query up (
              look_up D clock.get_at up (
                tally D Metrics.record_blocked Observability.record_client_blocked ctx.client_ip s))
    unfolding on_question
    on_blocked ask ctx clock query q qs s h = rw h

    blocked_answer :
        (ctx : ResolveContext D) (clock : Clock) (query up : Message)
        (f : Stores D × Option Message)
        → ((cached : Message) × (f.1 ≡ some cached)
            × ((answer_if_blocked D ctx clock query up f).1 ≡ D.set_id (view query).id cached))
          ⊎ ((f.1 ≡ none)
              × ((answer_if_blocked D ctx clock query up f).1
                  ≡ make_blocked_response D query ctx.blocklist_config))
    unfolding answer_if_blocked hit
    blocked_answer ctx clock query up (s, some m) = inl (m, refl, refl)
    blocked_answer ctx clock query up (s, none) = inr (refl, refl)

    -- The stores of a blocked query before its look-up in the cache.
    abbrev counted : ResolveContext D → Stores D → Stores D
    counted ctx s =
        tally D Metrics.record_blocked Observability.record_client_blocked ctx.client_ip
          (received ctx s)

    resolve-blocked :
        (ask : Ask D) (ctx : ResolveContext D) (clock : Clock) (query : Message) (q : Query)
        (qs : List Query) (s : Stores D)
        → (view query).queries ≡ q ∷ qs
        → blocks D lower ctx q ≡ true
        → let up : Message = query_with_ecs D query ctx.client_ip ctx.edns in
          resolve_with_context D lower ask ctx clock query s
          ≡ answer_if_blocked D ctx clock query up (look_up D clock.get_at up (counted ctx s))
    unfolding resolve_with_context
    resolve-blocked ask ctx clock query q qs s h b =
        ap (λ l. on_question D lower ask ctx clock query l (received ctx s)) h
        ∙ on_blocked ask ctx clock query q qs (received ctx s) b

    look_up-counted :
        (now : ℕ) (up : Message) (ctx : ResolveContext D) (s : Stores D)
        → (look_up D now up (counted ctx s)).1 ≡ (get D now up (s.cache, s.metrics)).1
    look_up-counted now up ctx s = look_up-tally now up ctx.client_ip s

    -- A query for a blocked name never reaches an upstream: it has the same answer, and leaves the
    -- same stores, whatever the upstreams would do. The answer is the message that the cache has for
    -- the query, under its identifier, and the blocked response where the cache has none.
    pub resolve_with_context-blocked :
        (ask ask' : Ask D) (ctx : ResolveContext D) (clock : Clock) (query : Message) (q : Query)
        (qs : List Query) (s : Stores D)
        → (view query).queries ≡ q ∷ qs
        → blocks D lower ctx q ≡ true
        → let out : Stores D × Message = resolve_with_context D lower ask ctx clock query s in
          let up : Message = query_with_ecs D query ctx.client_ip ctx.edns in
          let found : Option Message = (get D clock.get_at up (s.cache, s.metrics)).1 in
          (out ≡ resolve_with_context D lower ask' ctx clock query s)
          × (((cached : Message) × (found ≡ some cached)
                × (out.1 ≡ D.set_id (view query).id cached))
              ⊎ ((found ≡ none) × (out.1 ≡ make_blocked_response D query ctx.blocklist_config)))
    resolve_with_context-blocked ask ask' ctx clock query q qs s h b =
        let up = query_with_ecs D query ctx.client_ip ctx.edns in
        let f = look_up D clock.get_at up (counted ctx s) in
        let e = resolve-blocked ask ctx clock query q qs s h b in
        let e' = resolve-blocked ask' ctx clock query q qs s h b in
        let found = look_up-counted clock.get_at up ctx s in
        let answer = ap {A = Stores D × Message} (λ x. x.1) e in
        (
          e ∙ sym e',
          elim (blocked_answer ctx clock query up f) [
            | inl (cached, there, is) ↦ inl (cached, sym found ∙ there, answer ∙ is)
            | inr (gone, is) ↦ inr (sym found ∙ gone, answer ∙ is)
          ],
        )
