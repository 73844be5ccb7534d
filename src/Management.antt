-- ===== src/Management.antt =====
-- src/management.rs: the commands on the running server, the loop over the lines of a connection, and
-- the client. The crate serde_json is a parameter, and so is the writer of the crate tokio.
pub mod Client
pub mod Lines
pub mod Exchange
pub mod Commands
use dotdns.Prelude.{
  ℕ, ◌≡◌, Bool, false, List, [], ◌∷◌, ◌++◌, Option, none, some, Result, ok, err, ◌>>=◌, map_err,
  if◌then◌else◌,
}
use dotdns.Blocklist.{BlocklistError, ParseReport}
use dotdns.Blocklist.Loading.{ReloadableBlocklist}
use dotdns.Blocklist.Refresh.{FileSystem, refresh_and_reload}
use dotdns.Cache.{CacheInner, flush}
use dotdns.Dns.{Dns}
use dotdns.Metrics
use dotdns.Metrics.{MetricsRecorder, MetricsSnapshot}
use dotdns.Observability
use dotdns.Observability.{ObservabilityRegistry}
use dotdns.Stats.{UpstreamSnapshot, ClientSnapshot}
use dotdns.Text.{Text, codes, trim, is_empty, contains_char}

pub data ManagementRequest : Type 0 where
  status cache_flush blocklist_reload tracking sources sourcestats activity clients :
      ManagementRequest

pub record ManagementResponse : Type 0 where
  pub status : Text
  pub metrics : Option MetricsSnapshot
  pub message : Option Text
  pub upstreams : Option (List UpstreamSnapshot)
  pub clients : Option (List ClientSnapshot)

unfoldable pub response_ok : ManagementResponse
response_ok = record {
  status = codes "ok";
  metrics = none;
  message = none;
  upstreams = none;
  clients = none;
}

unfoldable pub ok_with_metrics : MetricsSnapshot → ManagementResponse
ok_with_metrics metrics = record {
  status = codes "ok";
  metrics = some metrics;
  message = none;
  upstreams = none;
  clients = none;
}

unfoldable pub ok_with_upstreams : List UpstreamSnapshot → ManagementResponse
ok_with_upstreams upstreams = record {
  status = codes "ok";
  metrics = none;
  message = none;
  upstreams = some upstreams;
  clients = none;
}

unfoldable pub ok_with_clients : List ClientSnapshot → ManagementResponse
ok_with_clients snapshots = record {
  status = codes "ok";
  metrics = none;
  message = none;
  upstreams = none;
  clients = some snapshots;
}

unfoldable pub response_error : Text → ManagementResponse
response_error msg = record {
  status = codes "error";
  metrics = none;
  message = some msg;
  upstreams = none;
  clients = none;
}

pub data ManagementError : Type 0 where
  connection request : Text → ManagementError

-- `serde_json::to_string` and `from_str`. The text of a struct or of a tagged enum is an object on one
-- line, and is read back as it was.
pub record Json (A : Type 0) : Type 0 where
  pub to_string : A → Result Text Text
  pub from_str : Text → Result Text A
  pub to_string-object :
      (a : A) (text : Text)
      → to_string a ≡ ok text
      → (body : Text) × (text ≡ b'{' ∷ (body ++ (b'}' ∷ []))) × (contains_char text 10 ≡ false)
  pub from_str-to_string : (a : A) (text : Text) → to_string a ≡ ok text → from_str text ≡ ok a

-- `AsyncWriteExt`; `sent` is what was written so far.
pub record TextWriter (W : Type 0) : Type 0 where
  pub write_all : Text → W → Result Text W
  pub flush : W → Result Text W
  pub sent : W → Text
  pub sent-write_all : (t : Text) (w w' : W) → write_all t w ≡ ok w' → sent w' ≡ sent w ++ t
  pub sent-flush : (w w' : W) → flush w ≡ ok w' → sent w' ≡ sent w

-- A text and a line break, as both sides write it.
unfoldable pub write_line : {W : Type 0} → TextWriter W → Text → W → Result ManagementError W
write_line io text w =
    map_err connection (io.write_all text w >>= io.write_all (codes "\n") >>= io.flush)

-- What the commands share with the other parts of the server, and the files.
pub record Shared (D : Dns) (F : Type 0) : Type 0 where
  pub metrics : MetricsRecorder
  pub cache : CacheInner D
  pub blocklist : ReloadableBlocklist
  pub observability : Option ObservabilityRegistry
  pub files : F

-- The crates' parts that a command or a connection uses; `display` is the error's `Display`.
pub record Crates (F IoError HttpError : Type 0) : Type 0 where
  pub fs : FileSystem F IoError
  pub client : Option HttpError
  pub fetch : Text → Result HttpError Text
  pub lower : Text → Text
  pub display : BlocklistError IoError HttpError → Text

pub reload_response :
    {IoError HttpError : Type 0}
    → (BlocklistError IoError HttpError → Text)
    → Result (BlocklistError IoError HttpError) ParseReport
    → ManagementResponse
reload_response display (ok report) = response_ok
reload_response display (err e) = response_error (codes "reload failed: " ++ display e)

pub upstreams_response : Option ObservabilityRegistry → ManagementResponse
upstreams_response none = response_error (codes "observability not available")
upstreams_response (some reg) = ok_with_upstreams (Observability.upstream_snapshot reg)

pub clients_response : Option ObservabilityRegistry → ManagementResponse
clients_response none = response_error (codes "observability not available")
clients_response (some reg) = ok_with_clients (Observability.client_snapshot reg)

unfoldable pub send_response :
    {W : Type 0}
    → TextWriter W
    → Json ManagementResponse
    → ManagementResponse
    → W
    → Result ManagementError W
send_response io responses resp w =
    map_err request (responses.to_string resp) >>= λ json. write_line io json w

module _ {D : Dns} {F IoError HttpError : Type 0} (crates : Crates F IoError HttpError) where
  open crates use {fs, client, fetch, lower, display}

  unfoldable pub reloaded_by :
      Shared D F
      → F × ReloadableBlocklist × Result (BlocklistError IoError HttpError) ParseReport
      → Shared D F × ManagementResponse
  unfolding reload_response
  reloaded_by s (files, blocklist, result) =
      (record s { files = files; blocklist = blocklist }, reload_response display result)

  flushed : Shared D F → CacheInner D × MetricsRecorder → Shared D F
  flushed s (cache, metrics) = record s { cache = cache; metrics = metrics }

  -- A command at the time `now`.
  unfoldable pub dispatch : ℕ → ManagementRequest → Shared D F → Shared D F × ManagementResponse
  unfolding reloaded_by upstreams_response clients_response flushed
  dispatch now status s = (s, ok_with_metrics (Metrics.snapshot now s.metrics))
  dispatch now cache_flush s = (flushed s (flush D (s.cache, s.metrics)), response_ok)
  dispatch now blocklist_reload s =
      reloaded_by s (refresh_and_reload fs client fetch lower s.blocklist s.files)
  dispatch now tracking s = (s, ok_with_metrics (Metrics.snapshot now s.metrics))
  dispatch now sources s = (s, upstreams_response s.observability)
  dispatch now sourcestats s = (s, upstreams_response s.observability)
  dispatch now activity s = (s, ok_with_metrics (Metrics.snapshot now s.metrics))
  dispatch now clients s = (s, clients_response s.observability)

  module _ {W : Type 0} (io : TextWriter W) (requests : Json ManagementRequest)
      (responses : Json ManagementResponse) where
    -- What a line asks for: the response, and the state after it.
    answer_request :
        ℕ → Shared D F → Result Text ManagementRequest → Shared D F × ManagementResponse
    answer_request now s (err e) = (s, response_error (codes "invalid request: " ++ e))
    answer_request now s (ok req) = dispatch now req s

    -- One pass of the loop over a line that was read, which may be empty or hold no request.
    unfoldable pub handle_line : ℕ → Text → Shared D F → W → Shared D F × Result ManagementError W
    unfolding answer_request send_response
    handle_line now line s w =
        let trimmed = trim line in
        let (s', resp) = answer_request now s (requests.from_str trimmed) in
        if is_empty trimmed then (s, ok w) else (s', send_response io responses resp w)

    -- Each line, or the error of reading it, comes with the time and with what the other parts of the
    -- server have made of the state by then; after the last one the client has closed.
    unfoldable pub handle_connection :
        List (ℕ × (Shared D F → Shared D F) × Result Text Text)
        → Shared D F
        → W
        → Shared D F × Result ManagementError W
    handle_connection [] s w = (s, ok w)
    handle_connection ((now, others, err e) ∷ lines) s w = (others s, err (connection e))
    handle_connection ((now, others, ok line) ∷ lines) s w =
        let (s', sent) = handle_line now line (others s) w in
        elim sent [ err e ↦ (s', err e) | ok w' ↦ handle_connection lines s' w' ]
