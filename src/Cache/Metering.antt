-- ===== src/Cache/Metering.antt =====
-- src/cache.rs: which of the shared counters a cache touches, and that they decide nothing.
use dotdns.Prelude.{
  ℕ, ◌-◌, ◌≡◌, refl, Bool-cases, if_both, inl, inr, Option, none, some, leb, length,
}
use dotdns.CacheKey.{CacheKey, from_message, key_eq}
use dotdns.Dns.{Dns}
use dotdns.Map.{lookup}
use dotdns.Metrics.{MetricsRecorder, set_cache_entries, record_cache_eviction}
use dotdns.Cache.{
  CacheEntry, CacheInner, update_metric, get_entry, get_key, get, next_key, evict_key, evict, store,
  insert_key, insert_response, has_records,
}

-- The counters of the queries.
pub record Tallies : Type 0 where
  pub total : ℕ
  pub hits : ℕ
  pub misses : ℕ
  pub blocked : ℕ

abbrev pub tallies : MetricsRecorder → Tallies
tallies m = record {
  total = m.total_queries;
  hits = m.cache_hits;
  misses = m.cache_misses;
  blocked = m.blocked_queries;
}

module _ (D : Dns) where
  open D use {Message}

  abbrev Keeps : MetricsRecorder → CacheInner D × MetricsRecorder → Type 0
  Keeps m s = tallies s.1 ≡ tallies m

  get_entry-Keeps :
      (now : ℕ) (key : CacheKey D) (c : CacheInner D) (m : MetricsRecorder)
      (o : Option (CacheEntry D))
      → Keeps m (get_entry D now key (c, m) o).0
  unfolding get_entry update_metric set_cache_entries
  get_entry-Keeps now key c m none = refl
  get_entry-Keeps now key c m (some entry) =
      if_both {A = (CacheInner D × MetricsRecorder) × Option Message} (λ x. Keeps m x.0)
        (leb entry.ttl (now - entry.inserted_at)) refl refl

  get_key-Keeps :
      (now : ℕ) (c : CacheInner D) (m : MetricsRecorder) (k : Option (CacheKey D))
      → Keeps m (get_key D now (c, m) k).0
  unfolding get_key
  get_key-Keeps now c m none = refl
  get_key-Keeps now c m (some key) = get_entry-Keeps now key c m (lookup (key_eq D) key c.entries)

  -- A look-up counts no query.
  pub tallies-get :
      (now : ℕ) (query : Message) (s : CacheInner D × MetricsRecorder)
      → tallies (get D now query s).0.1 ≡ tallies s.1
  unfolding get
  tallies-get now query (c, m) = get_key-Keeps now c m (from_message D query)

  evict_key-Keeps :
      (c : CacheInner D) (m : MetricsRecorder) (o : Option (CacheKey D))
      → Keeps m (evict_key D (c, m) o)
  unfolding evict_key record_cache_eviction
  evict_key-Keeps c m none = refl
  evict_key-Keeps c m (some k) = refl

  evict-Keeps : (pick : ℕ) (c : CacheInner D) (m : MetricsRecorder) → Keeps m (evict D pick (c, m))
  unfolding evict
  evict-Keeps pick c m =
      if_both (Keeps m) (leb c.config.capacity (length c.entries))
        (evict_key-Keeps c m (next_key D pick c.entries)) refl

  insert_key-Keeps :
      (now pick : ℕ) (response : Message) (c : CacheInner D) (m : MetricsRecorder)
      (k : Option (CacheKey D))
      → Keeps m (insert_key D now pick response (c, m) k)
  unfolding insert_key store update_metric set_cache_entries
  insert_key-Keeps now pick response c m none = refl
  insert_key-Keeps now pick response c m (some key) =
      if_both (Keeps m) (has_records D response) (evict-Keeps pick c m) refl

  -- An insertion counts no query.
  pub tallies-insert_response :
      (now pick : ℕ) (query response : Message) (s : CacheInner D × MetricsRecorder)
      → tallies (insert_response D now pick query response s).1 ≡ tallies s.1
  unfolding insert_response
  tallies-insert_response now pick query response (c, m) =
      insert_key-Keeps now pick response c m (from_message D query)

  get_entry-same :
      (now : ℕ) (key : CacheKey D) (c : CacheInner D) (m m' : MetricsRecorder)
      (o : Option (CacheEntry D))
      → (get_entry D now key (c, m) o).1 ≡ (get_entry D now key (c, m') o).1
  unfolding get_entry
  get_entry-same now key c m m' none = refl
  get_entry-same now key c m m' (some entry) =
      elim (Bool-cases (leb entry.ttl (now - entry.inserted_at))) [ inl e ↦ rw e | inr e ↦ rw e ]

  get_key-same :
      (now : ℕ) (c : CacheInner D) (m m' : MetricsRecorder) (k : Option (CacheKey D))
      → (get_key D now (c, m) k).1 ≡ (get_key D now (c, m') k).1
  unfolding get_key
  get_key-same now c m m' none = refl
  get_key-same now c m m' (some key) =
      get_entry-same now key c m m' (lookup (key_eq D) key c.entries)

  -- What a look-up finds does not depend on the counters.
  pub get-same :
      (now : ℕ) (query : Message) (c : CacheInner D) (m m' : MetricsRecorder)
      → (get D now query (c, m)).1 ≡ (get D now query (c, m')).1
  unfolding get
  get-same now query c m m' = get_key-same now c m m' (from_message D query)
