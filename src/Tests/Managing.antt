-- ===== src/Tests/Managing.antt =====
-- src/management.rs at work: a flush over a connection, and the commands against the server. A text in
-- braces stands for the JSON of a request, by a number, and of the response that is only a success.
use dotdns.Prelude.{
  ℕ, ◌≡◌, refl, sym, inl, inr, ap, Bool-cases, false, List, [], ◌∷◌, ◌++◌, Option, none, some,
  Result, ok, err, ◌==◌, if◌then◌else◌,
}
use dotdns.Blocklist.Refresh.{refresh_and_reload}
use dotdns.Cache.{new_cache}
use dotdns.Management.{
  ManagementRequest, status, cache_flush, blocklist_reload, tracking, sources, sourcestats,
  activity, clients, ManagementResponse, Json, TextWriter, Shared, Crates, dispatch, response_ok,
}
use dotdns.Management.Client.{
  Transport, client_status, client_cache_flush, client_blocklist_reload, client_sources,
  client_clients,
}
use dotdns.Management.Commands.{reload_outcome, or_unavailable, client-dispatch}
use dotdns.Management.Exchange.{send_over, send_over-dispatch}
use dotdns.Management.Lines.{IsReliable}
use dotdns.Metrics
use dotdns.Samples.{sample}
use dotdns.Stats.{UpstreamSnapshot, ClientSnapshot}
use dotdns.Tests.Refreshing.{Files, files, fetch, rules, lower, no_files}
use dotdns.Text.{Text, codes, eq_text, contains_char}
use dotdns.Text.Laws.{eq_text_sound}

tag : ManagementRequest → ℕ
tag status = 100
tag cache_flush = 101
tag blocklist_reload = 102
tag tracking = 103
tag sources = 104
tag sourcestats = 105
tag activity = 106
tag clients = 107

untag : ℕ → Result Text ManagementRequest
untag n =
    if n == 100
    then ok status
    else if n == 101
    then ok cache_flush
    else if n == 102
    then ok blocklist_reload
    else if n == 103
    then ok tracking
    else if n == 104
    then ok sources
    else if n == 105
    then ok sourcestats
    else if n == 106
    then ok activity
    else if n == 107
    then ok clients
    else err (codes "unknown variant")

request_text : ManagementRequest → Text
unfolding tag
request_text req = b'{' ∷ tag req ∷ b'}' ∷ []

parse_request : Text → Result Text ManagementRequest
parse_request (brace ∷ n ∷ rest) = untag n
parse_request _ = err (codes "expected value")

parse-request_text : (req : ManagementRequest) → parse_request (request_text req) ≡ ok req
unfolding parse_request request_text untag
parse-request_text status = refl
parse-request_text cache_flush = refl
parse-request_text blocklist_reload = refl
parse-request_text tracking = refl
parse-request_text sources = refl
parse-request_text sourcestats = refl
parse-request_text activity = refl
parse-request_text clients = refl

one_line : (req : ManagementRequest) → contains_char (request_text req) 10 ≡ false
unfolding request_text contains_char
one_line status = refl
one_line cache_flush = refl
one_line blocklist_reload = refl
one_line tracking = refl
one_line sources = refl
one_line sourcestats = refl
one_line activity = refl
one_line clients = refl

abbrev encode : ManagementRequest → Result Text Text
encode req = ok (request_text req)

encode-object :
    (req : ManagementRequest) (t : Text)
    → encode req ≡ ok t
    → (body : Text) × (t ≡ b'{' ∷ (body ++ (b'}' ∷ []))) × (contains_char t 10 ≡ false)
unfolding request_text
encode-object req t h =
    let e : request_text req ≡ t = cc in (tag req ∷ [], sym e, rw (← e) (one_line req))

parse-encode : (req : ManagementRequest) (t : Text) → encode req ≡ ok t → parse_request t ≡ ok req
parse-encode req t h = let e : request_text req ≡ t = cc in rw (← e) (parse-request_text req)

abbrev requests : Json ManagementRequest
requests = record {
  to_string = encode;
  from_str = parse_request;
  to_string-object = encode-object;
  from_str-to_string = parse-encode;
}

success_text :
    Text
    → Option Metrics.MetricsSnapshot
    → Option Text
    → Option (List UpstreamSnapshot)
    → Option (List ClientSnapshot)
    → Result Text Text
success_text s none none none none =
    if eq_text s (codes "ok") then ok (codes "{}") else err (codes "left out")
success_text s _ _ _ _ = err (codes "left out")

abbrev response :
    Text
    → Option Metrics.MetricsSnapshot
    → Option Text
    → Option (List UpstreamSnapshot)
    → Option (List ClientSnapshot)
    → ManagementResponse
response s m e u c = record { status = s; metrics = m; message = e; upstreams = u; clients = c }

success_text_lem :
    (s : Text) (m : Option Metrics.MetricsSnapshot) (e : Option Text)
    (u : Option (List UpstreamSnapshot)) (c : Option (List ClientSnapshot)) (t : Text)
    → success_text s m e u c ≡ ok t
    → (t ≡ codes "{}") × (response s m e u c ≡ response_ok)
unfolding success_text response_ok
success_text_lem s none none none none t h = elim (Bool-cases (eq_text s (codes "ok"))) [
  | inl e ↦
      let k : ok (codes "{}") ≡ ok t = rw e at h in
      (cc k, ap (λ x. response x none none none none) (eq_text_sound s (codes "ok") e))
  | inr e ↦ let k = rw e at h in cc
]
success_text_lem s (some m) e u c t h = cc
success_text_lem s none (some e) u c t h = cc
success_text_lem s none none (some u) c t h = cc
success_text_lem s none none none (some c) t h = cc

abbrev encode_response : ManagementResponse → Result Text Text
encode_response r = success_text r.status r.metrics r.message r.upstreams r.clients

lem_of :
    (r : ManagementResponse) (t : Text)
    → encode_response r ≡ ok t
    → (t ≡ codes "{}") × (r ≡ response_ok)
lem_of r t h = success_text_lem r.status r.metrics r.message r.upstreams r.clients t h

abbrev parse_response : Text → Result Text ManagementResponse
parse_response t = ok response_ok

response-object :
    (r : ManagementResponse) (t : Text)
    → encode_response r ≡ ok t
    → (body : Text) × (t ≡ b'{' ∷ (body ++ (b'}' ∷ []))) × (contains_char t 10 ≡ false)
unfolding contains_char
response-object r t h = ([], (lem_of r t h).0, rw ((lem_of r t h).0) refl)

parse-response :
    (r : ManagementResponse) (t : Text) → encode_response r ≡ ok t → parse_response t ≡ ok r
parse-response r t h = ap (λ x. ok x) (sym (lem_of r t h).1)

abbrev responses : Json ManagementResponse
responses = record {
  to_string = encode_response;
  from_str = parse_response;
  to_string-object = response-object;
  from_str-to_string = parse-response;
}

sent_lem : (w after : Text) → ◌≡◌ {A = Result Text Text} (ok w) (ok after) → after ≡ w
sent_lem w after h = cc

abbrev output : TextWriter Text
output = record {
  write_all = λ t w. ok (w ++ t);
  flush = λ w. ok w;
  sent = λ w. w;
  sent-write_all = λ t w. sent_lem (w ++ t);
  sent-flush = sent_lem;
}

abbrev crates : Crates Files Text Text
crates = record {
  fs = files;
  client = none;
  fetch = fetch;
  lower = lower;
  display = λ e. codes "error";
}

abbrev server : Shared sample Files
server = record {
  metrics =
      (new_cache sample (record { capacity = 10; min_ttl = none; max_ttl = none })
        (Metrics.new 0)).1;
  cache =
      (new_cache sample (record { capacity = 10; min_ttl = none; max_ttl = none })
        (Metrics.new 0)).0;
  blocklist = rules;
  observability = none;
  files = no_files;
}

reliable : IsReliable output []
reliable = record { unsent = refl; writes = λ t w. (w ++ t, refl); flushes = λ w. (w, refl) }

flush_text : responses.to_string (dispatch crates 5 cache_flush server).1 ≡ ok (codes "{}")
unfolding dispatch success_text response_ok eq_text
flush_text = refl

send_over-dispatch_example :
    send_over crates output requests responses [] 5 cache_flush server
    ≡ ((dispatch crates 5 cache_flush server).0, ok (dispatch crates 5 cache_flush server).1)
send_over-dispatch_example =
    send_over-dispatch crates output requests responses [] 5 cache_flush server
      (request_text cache_flush) (codes "{}") reliable refl flush_text

abbrev direct : Transport (Shared sample Files)
direct req s = ((dispatch crates 5 req s).0, ok (dispatch crates 5 req s).1)

client-dispatch_example :
    let r = refresh_and_reload files none fetch lower rules no_files in
    (client_status direct server ≡ (server, ok (Metrics.snapshot 5 server.metrics)))
    × (client_cache_flush direct server ≡ (
      record server {
        cache = record server.cache { entries = [] };
        metrics = Metrics.set_cache_entries 0 server.metrics;
      },
      ok tt,
    ))
    × (client_blocklist_reload direct server
        ≡ (record server { files = r.0; blocklist = r.1 }, reload_outcome crates.display r.2))
    × (client_sources direct server ≡ (server, or_unavailable none))
    × (client_clients direct server ≡ (server, or_unavailable none))
client-dispatch_example = client-dispatch crates direct 5 server (λ req. refl)
