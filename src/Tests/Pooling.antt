-- ===== src/Tests/Pooling.antt =====
-- The upstream pool of src/upstream.rs at work, on three upstreams of which the first fails.
use dotdns.Prelude.{
  ℕ, ◌+◌, ◌*◌, ◌^◌, ◌≡◌, refl, not, List, [], ◌∷◌, ◌++◌, none, ok, err, ◌==◌, if◌then◌else◌, arith,
}
use dotdns.Text.{codes}
use dotdns.Dot.{pop_fresh}
use dotdns.Dot.Idle.{Popped, pop_fresh-Popped}
use dotdns.Upstream.{
  UpstreamPool, Exchange, new_health, timeout, round_robin, degraded_at, attempt_order, query,
}
use dotdns.Upstream.Failover.{Answer, order_of, query-Answer, query-succeeds}
use dotdns.Upstream.Health.{
  Event, success, failure, after, failures_in_row, cooldown_end, after_lem,
}
use dotdns.Upstream.Order.{round, select, attempt_order_lem}

abbrev flapping : List Event
flapping = failure 300 ∷ failure 200 ∷ failure 100 ∷ success ∷ failure 50 ∷ []

after_lem_example :
    ((after flapping).consecutive_failures ≡ 3) × ((after flapping).degraded_until_ms ≡ 30_300)
unfolding failures_in_row cooldown_end
after_lem_example = after_lem flapping (omega arith)

abbrev pool : UpstreamPool
pool = record {
  names = codes "a" ∷ codes "b" ∷ codes "c" ∷ [];
  metrics = none;
  observability = none;
  policy = round_robin;
  round_robin_next = 4;
  health =
      new_health ∷ record { consecutive_failures = 3; degraded_until_ms = 500 } ∷ new_health ∷ [];
}

abbrev exchange : Exchange ℕ
exchange attempt idx = record {
  result = if idx == 0 then err timeout else ok idx;
  elapsed_ms = 5;
  now_ms = 100 + attempt;
}

attempt_order_lem_example :
    attempt_order pool 1 100
    ≡ select (λ i. not (degraded_at pool.health 100 i)) (round 1 3 0 3)
      ++ select (degraded_at pool.health 100) (round 1 3 0 3)
attempt_order_lem_example = attempt_order_lem pool 1 100

query-Answer_example : Answer exchange 0 (order_of pool 100) (query exchange 100 pool).1
query-Answer_example = query-Answer exchange 100 pool (omega arith)

answers_two : (b : ℕ) → (r : ℕ) × ((exchange b 2).result ≡ ok r)
answers_two b = (2, refl)

query-succeeds_example : (r : ℕ) × ((query exchange 100 pool).1 ≡ ok r)
query-succeeds_example = query-succeeds exchange 100 pool 2 (omega arith) answers_two

-- The newest connection, of number 3, is too old, as all before it are; the clock is at 40 seconds.
abbrev conns : List (ℕ × ℕ)
conns = (3, 9 * 10 ^ 9) ∷ (2, 8 * 10 ^ 9) ∷ []

pop_fresh-Popped_example : Popped (40 * 10 ^ 9) conns (pop_fresh (40 * 10 ^ 9) conns)
pop_fresh-Popped_example = pop_fresh-Popped (40 * 10 ^ 9) conns
