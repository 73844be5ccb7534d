-- ===== src/Tests/Caching.antt =====
-- The cache of src/cache.rs at work, on the messages of `Samples`.
use dotdns.Prelude.{
  ℕ, ◌-◌, ◌*◌, ◌/◌, ◌%◌, ◌^◌, ◌≡◌, refl, true, false, [], ◌∷◌, none, some, map, leb, if◌then◌else◌,
}
use dotdns.Cache.{
  CacheConfig, CacheInner, nanos, clamp_ttl, get, insert_response, with_ttl, min_ttl_secs,
  has_records, new_cache,
}
use dotdns.Cache.Freshness.{get-insert_response}
use dotdns.Cache.Invariant.{IsValid, get_call, insert_call, flush_call, run, run-new_cache-IsValid}
use dotdns.CacheKey.{CacheKey, from_message, key_Equality}
use dotdns.Dns.{View}
use dotdns.Metrics.{new}
use dotdns.Samples.{sample, question, answer, types}
use dotdns.Text.{codes}

abbrev config : CacheConfig
config = record { capacity = 1; min_ttl = none; max_ttl = some (60 * nanos) }

abbrev limits : CacheConfig
limits = record { capacity = 1; min_ttl = some (10 * nanos); max_ttl = some (60 * nanos) }

abbrev empty : CacheInner sample
empty = record { config = config; entries = [] }

abbrev key : CacheKey sample
key = record {
  name = codes "ads.example.";
  qtype = 1;
  qclass = 1;
  rd = true;
  do_bit = false;
  ecs = none;
}

question-key : from_message sample question ≡ some key
unfolding from_message
question-key = refl

answer-records : has_records sample answer ≡ true
unfolding has_records
answer-records = refl

run-new_cache-IsValid_example : IsValid sample (
    run sample
      (insert_call 5 0 question answer ∷ get_call 6 question ∷ flush_call ∷ [])
      (new_cache sample config (new 0)))
run-new_cache-IsValid_example =
    run-new_cache-IsValid sample config (new 0)
      (insert_call 5 0 question answer ∷ get_call 6 question ∷ flush_call ∷ [])

get-insert_response_example :
    let ttl : ℕ = clamp_ttl config (min_ttl_secs sample answer * nanos) in
    (get sample 7_000_000_000 question
      (insert_response sample 0 0 question answer (empty, new 0))).1
    ≡ (if leb ttl 7_000_000_000
        then none
        else some (with_ttl sample ((ttl - 7_000_000_000) / nanos % 2 ^ 32) answer))
get-insert_response_example =
    get-insert_response sample 0 0 7_000_000_000 question question answer empty (new 0) key key
      question-key question-key ((key_Equality sample).eq_refl key) answer-records

-- Seven seconds after the insertion 53 of the 60 seconds that `max_ttl` allows are left.
abbrev served : View types
served = record answer { answers = map (sample.set_ttl 53) answer.answers }
