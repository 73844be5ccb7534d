-- ===== src/Tests/Storing.antt =====
-- The file of the counters of src/metrics.rs, on the files of `Refreshing`. JSON is the list of the
-- counters.
use dotdns.Prelude.{◌≡◌, ◌≢◌, refl, [], ◌∷◌, Option, none, some, Result, ok, err}
use dotdns.Metrics.{PersistedMetrics}
use dotdns.Metrics.Stored.{StatsFiles, StatsJson, save_stats}
use dotdns.Metrics.Stored.Atomic.{Saved, save_stats-Saved}
use dotdns.Tests.Refreshing.{Files, put, put-same, put-other, no_files}
use dotdns.Text.{Text, codes, with_extension, without_extension, rsplit_once}

content : Option Text → Result Text Text
content none = err (codes "not found")
content (some body) = ok body

abbrev files : StatsFiles Files Text
unfolding content
files = record {
  read_to_string = λ f p. content (f p);
  create_dir_all = λ dir f. (f, none);
  write = λ p body f. (put p (some body) f, none);
  rename = λ from to f. (put to (f from) (put from none f), none);
  remove_file = λ p f. put p none f;
  read-create_dir_all = λ dir p f. refl;
  read-write = λ p body f h. rw (put-same p (some body) f) refl;
  read-write_other = λ p q body f n. rw (put-other p (some body) f q n) refl;
  read-rename = λ from to f h. rw (put-same to (f from) (put from none f)) refl;
  read-rename_failed = λ from to f e h. cc;
}

read_counters : Text → Result Text PersistedMetrics
read_counters (n0 ∷ n1 ∷ n2 ∷ n3 ∷ n4 ∷ n5 ∷ n6 ∷ n7 ∷ n8 ∷ n9 ∷ n10 ∷ n11 ∷ n12 ∷ n13 ∷ n14 ∷ []) =
    ok (record {
      total_queries = n0;
      cache_hits = n1;
      cache_misses = n2;
      blocked_queries = n3;
      upstream_failures = n4;
      upstream_successes = n5;
      upstream_timeouts = n6;
      cache_evictions = n7;
      accepted_connections = n8;
      tls_handshake_success = n9;
      tls_handshake_failures = n10;
      dns_read_failures = n11;
      dns_write_failures = n12;
      pending_follower_timeouts = n13;
      pending_follower_successes = n14;
    })
read_counters other = err (codes "corrupted")

abbrev json : StatsJson Text
unfolding read_counters
json = record {
  to_vec = λ m. ok (
      m.total_queries ∷ m.cache_hits ∷ m.cache_misses ∷ m.blocked_queries ∷ m.upstream_failures
      ∷ m.upstream_successes ∷ m.upstream_timeouts ∷ m.cache_evictions ∷ m.accepted_connections
      ∷ m.tls_handshake_success ∷ m.tls_handshake_failures ∷ m.dns_read_failures
      ∷ m.dns_write_failures ∷ m.pending_follower_timeouts ∷ m.pending_follower_successes ∷ []);
  from_str = read_counters;
  from_str-to_vec = λ m text h.
      let same : (m.total_queries ∷ m.cache_hits ∷ m.cache_misses ∷ m.blocked_queries
            ∷ m.upstream_failures ∷ m.upstream_successes ∷ m.upstream_timeouts ∷ m.cache_evictions
            ∷ m.accepted_connections ∷ m.tls_handshake_success ∷ m.tls_handshake_failures
            ∷ m.dns_read_failures ∷ m.dns_write_failures ∷ m.pending_follower_timeouts
            ∷ m.pending_follower_successes ∷ [])
          ≡ text =
        cc in
      rw⁻¹ same refl;
}

abbrev saved : PersistedMetrics
saved = record {
  total_queries = 0;
  cache_hits = 7;
  cache_misses = 14;
  blocked_queries = 21;
  upstream_failures = 28;
  upstream_successes = 35;
  upstream_timeouts = 42;
  cache_evictions = 49;
  accepted_connections = 56;
  tls_handshake_success = 63;
  tls_handshake_failures = 70;
  dns_read_failures = 77;
  dns_write_failures = 84;
  pending_follower_timeouts = 91;
  pending_follower_successes = 98;
}

abbrev path : Text
path = codes "/v/s.json"

other : with_extension (codes "tmp") path ≢ path
unfolding with_extension without_extension rsplit_once
other h = cc

save_stats-Saved_example :
    Saved files json path saved no_files (save_stats files json path saved no_files)
save_stats-Saved_example = save_stats-Saved files json path saved no_files other
