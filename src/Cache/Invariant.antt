-- ===== src/Cache/Invariant.antt =====
-- src/cache.rs: the cache holds a key once, keeps within its capacity, and reports its size.
use Prim.Native.Nat.{max}
use native.Mathlib.Nat.{mod-lt}
use dotdns.Prelude.{
  ℕ, ◌+◌, ◌-◌, ◌%◌, ◌≤◌, ◌<◌, ◌≡◌, refl, List, [], ◌∷◌, Option, none, some, length, get_elem?-some,
  leb, ltb, arith, inl, inr, Bool-cases, if_both,
}
use dotdns.CacheKey.{CacheKey, from_message, key_eq, key_Equality}
use dotdns.Dns.{Dns}
use dotdns.Map.{
  Distinct, lookup, remove, insert-Distinct, remove-Distinct, length-insert, length-remove,
  lookup-get_elem,
}
use dotdns.Metrics.{MetricsRecorder, set_cache_entries}
use dotdns.Cache.{
  CacheConfig, CacheEntry, CacheInner, update_metric, new_cache, get_entry, get_key, get, next_key,
  evict_key, evict, store, entry_of, insert_key, insert_response, flush, has_records,
}

module _ (D : Dns) where
  open D use {Message}

  abbrev State : Type 0
  State = CacheInner D × MetricsRecorder

  -- A capacity of 0 still lets one entry in.
  pub record IsValid (s : State) : Type 0 where
    pub distinct : Distinct (key_eq D) s.0.entries
    pub bounded : length s.0.entries ≤ max s.0.config.capacity 1
    pub gauge : s.1.cache_entries ≡ length s.0.entries

  remove-IsValid :
      (c : CacheInner D) (m : MetricsRecorder) (key : CacheKey D)
      → IsValid (c, m)
      → IsValid (update_metric D (record c { entries = remove (key_eq D) key c.entries }, m))
  unfolding update_metric set_cache_entries
  remove-IsValid c m key v = record {
    distinct = remove-Distinct (key_eq D) (key_Equality D) key c.entries v.distinct;
    bounded = omega (arith, length-remove (key_eq D) (key_Equality D) key c.entries, v.bounded);
    gauge = refl;
  }

  get_entry-IsValid :
      (now : ℕ) (key : CacheKey D) (c : CacheInner D) (m : MetricsRecorder)
      (o : Option (CacheEntry D))
      → IsValid (c, m)
      → IsValid (get_entry D now key (c, m) o).0
  unfolding get_entry
  get_entry-IsValid now key c m none v = v
  get_entry-IsValid now key c m (some entry) v =
      elim (Bool-cases (leb entry.ttl (now - entry.inserted_at))) [
        | inl e ↦ rw e (remove-IsValid c m key v)
        | inr e ↦ rw e v
      ]

  get_key-IsValid :
      (now : ℕ) (s : State) (k : Option (CacheKey D)) → IsValid s → IsValid (get_key D now s k).0
  unfolding get_key
  get_key-IsValid now (c, m) none v = v
  get_key-IsValid now (c, m) (some key) v =
      get_entry-IsValid now key c m (lookup (key_eq D) key c.entries) v

  -- After the eviction there is room for one entry.
  record Room (s : State) : Type 0 where
    distinct : Distinct (key_eq D) s.0.entries
    room : length s.0.entries + 1 ≤ max s.0.config.capacity 1

  next_key-found :
      (pick : ℕ) (entries : List (CacheKey D × CacheEntry D))
      → 0 < length entries
      → (k : CacheKey D) × (e : CacheEntry D) × (next_key D pick entries ≡ some k)
        × (lookup (key_eq D) k entries ≡ some e)
  unfolding next_key
  next_key-found pick entries h =
      let i = pick % length entries in
      let ((k, e), found) = get_elem?-some entries i (mod-lt pick h) in
      let (e', there) = lookup-get_elem (key_eq D) (key_Equality D) entries i k e found in
      (k, e', rw (found, next_key), there)

  -- Evicting nothing, or a key, from an empty cache.
  evict_empty-Room :
      (c : CacheInner D) (m : MetricsRecorder) (o : Option (CacheKey D))
      → IsValid (c, m)
      → length c.entries ≡ 0
      → Room (evict_key D (c, m) o)
  unfolding evict_key
  evict_empty-Room c m none v h = record { distinct = v.distinct; room = omega arith }
  evict_empty-Room c m (some k) v h = record {
    distinct = remove-Distinct (key_eq D) (key_Equality D) k c.entries v.distinct;
    room = omega (arith, length-remove (key_eq D) (key_Equality D) k c.entries);
  }

  evict_found-Room :
      (pick : ℕ) (c : CacheInner D) (m : MetricsRecorder)
      → IsValid (c, m)
      → 0 < length c.entries
      → Room (evict_key D (c, m) (next_key D pick c.entries))
  unfolding evict_key
  evict_found-Room pick c m v h =
      let (k, e, next, found) = next_key-found pick c.entries h in
      rw (next, evict_key)
        (record {
          distinct = remove-Distinct (key_eq D) (key_Equality D) k c.entries v.distinct;
          room = omega (
            arith,
            rw found at (length-remove (key_eq D) (key_Equality D) k c.entries),
            v.bounded,
          );
        })

  evict-Room :
      (pick : ℕ) (c : CacheInner D) (m : MetricsRecorder)
      → IsValid (c, m)
      → Room (evict D pick (c, m))
  unfolding evict
  evict-Room pick c m v = elim (Bool-cases (leb c.config.capacity (length c.entries))) [
    | inl full ↦ rw full (elim (Bool-cases (ltb 0 (length c.entries))) [
      | inl some_left ↦ evict_found-Room pick c m v (ground arith)
      | inr empty ↦ evict_empty-Room c m (next_key D pick c.entries) v (ground arith)
    ])
    | inr free ↦ rw free (record { distinct = v.distinct; room = ground arith })
  ]

  store-IsValid :
      (key : CacheKey D) (entry : CacheEntry D) (s : State) → Room s → IsValid (store D key entry s)
  unfolding store update_metric set_cache_entries
  store-IsValid key entry (c, m) r = record {
    distinct = insert-Distinct (key_eq D) (key_Equality D) key entry c.entries r.distinct;
    bounded = ground (arith, length-insert (key_eq D) (key_Equality D) key entry c.entries, r.room);
    gauge = refl;
  }

  insert_key-IsValid :
      (now pick : ℕ) (response : Message) (s : State) (k : Option (CacheKey D))
      → IsValid s
      → IsValid (insert_key D now pick response s k)
  unfolding insert_key
  insert_key-IsValid now pick response (c, m) none v = v
  insert_key-IsValid now pick response (c, m) (some key) v =
      if_both IsValid (has_records D response)
        (store-IsValid key (entry_of D c.config now response) (evict D pick (c, m))
          (evict-Room pick c m v))
        v

  -- The calls on a cache, with the times and the places that the environment chooses.
  pub data Call : Type 0 where
    get_call : ℕ → Message → Call
    insert_call : ℕ → ℕ → Message → Message → Call
    flush_call : Call

  pub step : Call → State → State
  step (get_call now q) s = (get D now q s).0
  step (insert_call now pick q r) s = insert_response D now pick q r s
  step flush_call s = flush D s

  pub run : List Call → State → State
  run [] s = s
  run (c ∷ cs) s = run cs (step c s)

  step-IsValid : (c : Call) (s : State) → IsValid s → IsValid (step c s)
  unfolding step get insert_response flush update_metric set_cache_entries
  step-IsValid (get_call now q) s v = get_key-IsValid now s (from_message D q) v
  step-IsValid (insert_call now pick q r) s v = insert_key-IsValid now pick r s (from_message D q) v
  step-IsValid flush_call s v = record { distinct = tt; bounded = omega arith; gauge = refl }

  run-IsValid : (cs : List Call) (s : State) → IsValid s → IsValid (run cs s)
  unfolding run
  run-IsValid [] s v = v
  run-IsValid (c ∷ cs) s v = run-IsValid cs (step c s) (step-IsValid c s v)

  -- After any calls on a new cache no key stands twice, the entries are at most the capacity (or
  -- one, at a capacity of 0), and the gauge of the metrics is their number.
  pub run-new_cache-IsValid :
      (config : CacheConfig) (m : MetricsRecorder) (cs : List Call)
      → IsValid (run cs (new_cache D config m))
  unfolding new_cache set_cache_entries
  run-new_cache-IsValid config m cs =
      run-IsValid cs _ (record { distinct = tt; bounded = omega arith; gauge = refl })
