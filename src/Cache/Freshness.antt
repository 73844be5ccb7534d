-- ===== src/Cache/Freshness.antt =====
-- src/cache.rs: what a lookup returns after an insertion, and the TTLs that it hands out.
use dotdns.Prelude.{
  ℕ, ◌-◌, ◌*◌, ◌/◌, ◌%◌, ◌^◌, ◌≤◌, ◌≡◌, true, Option, none, some, All, leb, arith, inl, inr,
  Bool-cases, if◌then◌else◌,
}
use dotdns.CacheKey.{CacheKey, from_message, key_eq, key_Equality}
use dotdns.Dns.{Dns}
use dotdns.Map.{lookup, lookup-insert}
use dotdns.Metrics.{MetricsRecorder}
use dotdns.Cache.{
  CacheConfig, CacheEntry, CacheInner, nanos, clamp_ttl, with_ttl, update_metric, remaining_secs,
  get_entry, get_key, get, min_ttl_secs, has_records, evict, store, entry_of, insert_key,
  insert_response,
}

-- The time to live of an entry obeys the configuration: at most `max_ttl`, at least `min_ttl` where
-- the two do not conflict, and the response's own wherever neither limit moves it.
pub clamp_ttl_bounds :
    (config : CacheConfig) (ttl low high : ℕ)
    → config.min_ttl ≡ some low
    → config.max_ttl ≡ some high
    → (clamp_ttl config ttl ≤ high)
      × (low ≤ high → low ≤ clamp_ttl config ttl)
      × (low ≤ ttl → ttl ≤ high → clamp_ttl config ttl ≡ ttl)
unfolding clamp_ttl
clamp_ttl_bounds config ttl low high l h =
    rw (l, h, clamp_ttl) (ground arith, λ p. ground arith, λ p q. ground arith)

module _ (D : Dns) where
  open D use {Message, view, Record}

  abbrev answer : ℕ → CacheEntry D → Option Message
  answer now entry =
      if leb entry.ttl (now - entry.inserted_at)
      then none
      else some (with_ttl D (remaining_secs D entry now) entry.message)

  get_entry-answer :
      (now : ℕ) (key : CacheKey D) (s : CacheInner D × MetricsRecorder) (entry : CacheEntry D)
      → (get_entry D now key s (some entry)).1 ≡ answer now entry
  unfolding get_entry
  get_entry-answer now key s entry = elim (Bool-cases (leb entry.ttl (now - entry.inserted_at))) [
    | inl e ↦ rw e
    | inr e ↦ rw e
  ]

  get_key-answer :
      (now : ℕ) (key : CacheKey D) (s : CacheInner D × MetricsRecorder) (entry : CacheEntry D)
      → lookup (key_eq D) key s.0.entries ≡ some entry
      → (get_key D now s (some key)).1 ≡ answer now entry
  unfolding get_key
  get_key-answer now key (c, m) entry h = rw (h, get_key) (get_entry-answer now key (c, m) entry)

  lookup-store :
      (key key' : CacheKey D) (entry : CacheEntry D) (s : CacheInner D × MetricsRecorder)
      → key_eq D key key' ≡ true
      → lookup (key_eq D) key' (store D key entry s).0.entries ≡ some entry
  unfolding store update_metric
  lookup-store key key' entry (c, m) same =
      rw (lookup-insert (key_eq D) (key_Equality D) key key' entry c.entries, same)

  insert_key-store :
      (now pick : ℕ) (response : Message) (c : CacheInner D) (m : MetricsRecorder)
      (key : CacheKey D)
      → has_records D response ≡ true
      → insert_key D now pick response (c, m) (some key)
        ≡ store D key (entry_of D c.config now response) (evict D pick (c, m))
  unfolding insert_key
  insert_key-store now pick response c m key has = rw has

  -- A lookup right after an insertion, `later - now` on: the response, with the rest of its time to
  -- live in seconds (as a `u32`) in each record, or nothing once that time is over.
  pub get-insert_response :
      (now pick later : ℕ) (query query' response : Message) (c : CacheInner D)
      (m : MetricsRecorder) (key key' : CacheKey D)
      → from_message D query ≡ some key
      → from_message D query' ≡ some key'
      → key_eq D key key' ≡ true
      → has_records D response ≡ true
      → let ttl : ℕ = clamp_ttl c.config (min_ttl_secs D response * nanos) in
        (get D later query' (insert_response D now pick query response (c, m))).1 ≡ (
          if leb ttl (later - now)
          then none
          else some (with_ttl D ((ttl - (later - now)) / nanos % 2 ^ 32) response))
  unfolding get insert_response entry_of remaining_secs
  get-insert_response now pick later query query' response c m key key' hq hq' same has =
      let entry = entry_of D c.config now response in
      rw (hq, hq', insert_key-store now pick response c m key has)
        (get_key-answer later key' _ entry (lookup-store key key' entry (evict D pick (c, m)) same))

  -- Every record of a message.
  abbrev pub Records : (Record → Type 0) → Message → Type 0
  Records P msg =
      All P (view msg).answers × All P (view msg).name_servers × All P (view msg).additionals
