-- ===== src/Cache.antt =====
-- src/cache.rs: the TTL cache. Times and durations are nanoseconds; `now` is what `Instant::now()`
-- returns in the call. The mutex makes each call one step. The shared `MetricsRecorder` stands
-- beside the state. `pick` is the place of the key that `keys().next()` yields, which the hash map
-- does not determine: the theorems hold for each.
pub mod Invariant
pub mod Freshness
pub mod Metering
use Prim.Native.Nat.{min}
use dotdns.Prelude.{
  ℕ, zero, suc, ◌+◌, ◌-◌, ◌*◌, ◌/◌, ◌%◌, ◌^◌, Bool, true, false, ◌&&◌, ◌||◌, not, List, [], ◌∷◌,
  Option, none, some, map, length, get_elem?, ltb, leb, if◌then◌else◌, incr,
}
use dotdns.CacheKey.{CacheKey, from_message, key_eq}
use dotdns.Dns.{Dns}
use dotdns.Map.{lookup, insert, remove}
use dotdns.Metrics.{MetricsRecorder, set_cache_entries, record_cache_eviction}
use dotdns.Text.{eq_text}

pub record CacheConfig : Type 0 where
  pub capacity : ℕ
  pub min_ttl : Option ℕ
  pub max_ttl : Option ℕ

abbrev pub nanos : ℕ
nanos = 10 ^ 9

-- `min_ttl` raises, and then `max_ttl` lowers.
raise_to : Option ℕ → ℕ → ℕ
raise_to none ttl = ttl
raise_to (some low) ttl = if ltb ttl low then low else ttl

lower_to : Option ℕ → ℕ → ℕ
lower_to none ttl = ttl
lower_to (some high) ttl = if ltb high ttl then high else ttl

unfoldable pub clamp_ttl : CacheConfig → ℕ → ℕ
unfolding raise_to lower_to
clamp_ttl config ttl = lower_to config.max_ttl (raise_to config.min_ttl ttl)

module _ (D : Dns) where
  open D use {Message, view, Record}

  pub record CacheEntry : Type 0 where
    pub message : Message
    pub inserted_at : ℕ
    pub ttl : ℕ

  pub record CacheInner : Type 0 where
    pub config : CacheConfig
    pub entries : List (CacheKey D × CacheEntry)

  pub update_metric : CacheInner × MetricsRecorder → CacheInner × MetricsRecorder
  update_metric (c, m) = (c, set_cache_entries (length c.entries) m)

  unfoldable pub new_cache : CacheConfig → MetricsRecorder → CacheInner × MetricsRecorder
  new_cache config m = (record { config = config; entries = [] }, set_cache_entries 0 m)

  -- The three loops over `answers_mut()`, `name_servers_mut()` and `additionals_mut()`.
  unfoldable pub with_ttl : ℕ → Message → Message
  with_ttl n msg =
      let a = D.put_answers (map (D.set_ttl n) (view msg).answers) msg in
      let b = D.put_name_servers (map (D.set_ttl n) (view a).name_servers) a in
      D.put_additionals (map (D.set_ttl n) (view b).additionals) b

  -- `remaining.as_secs() as u32`
  pub remaining_secs : CacheEntry → ℕ → ℕ
  remaining_secs entry now = (entry.ttl - (now - entry.inserted_at)) / nanos % 2 ^ 32

  get_entry :
      ℕ
      → CacheKey D
      → CacheInner × MetricsRecorder
      → Option CacheEntry
      → (CacheInner × MetricsRecorder) × Option Message
  unfolding update_metric remaining_secs
  get_entry now key s none = (s, none)
  get_entry now key (c, m) (some entry) =
      if leb entry.ttl (now - entry.inserted_at)
      then (update_metric (record c { entries = remove (key_eq D) key c.entries }, m), none)
      else ((c, m), some (with_ttl (remaining_secs entry now) entry.message))

  pub get_key :
      ℕ
      → CacheInner × MetricsRecorder
      → Option (CacheKey D)
      → (CacheInner × MetricsRecorder) × Option Message
  unfolding get_entry
  get_key now s none = (s, none)
  get_key now (c, m) (some key) = get_entry now key (c, m) (lookup (key_eq D) key c.entries)

  unfoldable pub get :
      ℕ → Message → CacheInner × MetricsRecorder → (CacheInner × MetricsRecorder) × Option Message
  unfolding get_key
  get now query s = get_key now s (from_message D query)

  -- `for record in … { min_ttl_secs = min_ttl_secs.min(record.ttl()) }`
  min_ttl_of : ℕ → List Record → ℕ
  min_ttl_of acc [] = acc
  min_ttl_of acc (r ∷ rs) = min_ttl_of (min acc (D.ttl r)) rs

  -- The smallest TTL of all records, from `u64::MAX`.
  unfoldable pub min_ttl_secs : Message → ℕ
  unfolding min_ttl_of
  min_ttl_secs msg =
      min_ttl_of (min_ttl_of (min_ttl_of (2 ^ 64 - 1) (view msg).answers) (view msg).name_servers)
        (view msg).additionals

  any_record : List Record → Bool
  any_record [] = false
  any_record (r ∷ rs) = true

  unfoldable pub has_records : Message → Bool
  unfolding any_record
  has_records msg =
      any_record (view msg).answers
      || any_record (view msg).name_servers
      || any_record (view msg).additionals

  -- `keys().next()`
  next_key : ℕ → List (CacheKey D × CacheEntry) → Option (CacheKey D)
  next_key pick entries = elim (get_elem? entries (pick % length entries)) [
    | none ↦ none
    | some (k, e) ↦ some k
  ]

  evict_key : CacheInner × MetricsRecorder → Option (CacheKey D) → CacheInner × MetricsRecorder
  evict_key s none = s
  evict_key (c, m) (some k) =
      (record c { entries = remove (key_eq D) k c.entries }, record_cache_eviction m)

  pub evict : ℕ → CacheInner × MetricsRecorder → CacheInner × MetricsRecorder
  unfolding evict_key next_key
  evict pick (c, m) =
      if leb c.config.capacity (length c.entries)
      then evict_key (c, m) (next_key pick c.entries)
      else (c, m)

  pub store : CacheKey D → CacheEntry → CacheInner × MetricsRecorder → CacheInner × MetricsRecorder
  unfolding update_metric
  store key entry (c, m) =
      update_metric (record c { entries = insert (key_eq D) key entry c.entries }, m)

  pub entry_of : CacheConfig → ℕ → Message → CacheEntry
  entry_of config now response = record {
    message = response;
    inserted_at = now;
    ttl = clamp_ttl config (min_ttl_secs response * nanos);
  }

  insert_key :
      ℕ
      → ℕ
      → Message
      → CacheInner × MetricsRecorder
      → Option (CacheKey D)
      → CacheInner × MetricsRecorder
  unfolding evict store entry_of
  insert_key now pick response s none = s
  insert_key now pick response (c, m) (some key) =
      if has_records response
      then store key (entry_of c.config now response) (evict pick (c, m))
      else (c, m)

  unfoldable pub insert_response :
      ℕ → ℕ → Message → Message → CacheInner × MetricsRecorder → CacheInner × MetricsRecorder
  unfolding insert_key
  insert_response now pick query response s = insert_key now pick response s (from_message D query)

  unfoldable pub flush : CacheInner × MetricsRecorder → CacheInner × MetricsRecorder
  unfolding update_metric
  flush (c, m) = update_metric (record c { entries = [] }, m)
