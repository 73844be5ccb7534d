-- ===== src/Observability/Capacity.antt =====
-- src/observability.rs: the bound of the client map.
use Prim.Native.Nat.{max}
use dotdns.Prelude.{
  ℕ, ◌+◌, ◌≤◌, ◌≡◌, inl, inr, ◌&&◌, Bool-cases, Option-cases, List, [], ◌∷◌, length, leb, ltb,
  arith,
}
use dotdns.Map.{
  lookup, insert, Distinct, insert-Distinct, remove-Distinct, length-insert, length-remove,
}
use dotdns.Net.{IpAddr, ip_eq, ip_Equality}
use dotdns.Stats.{ClientStats, new_client_stats, touch_activity}
use dotdns.Observability.{
  ObservabilityRegistry, next_tick, make_room, client_found, with_client,
  with_upstreams_and_capacity,
}
use dotdns.Text.{Text}
use dotdns.Observability.Clients.{Clients, make_room-full, make_room-free, recorded, added}

-- No client stands twice, and they are at most the capacity (or one, at a capacity of 0).
pub record IsBounded (r : ObservabilityRegistry) : Type 0 where
  pub distinct : Distinct ip_eq r.clients
  pub bounded : length r.clients ≤ max r.client_capacity 1

capacity-with_client :
    (f : ClientStats → ClientStats) (ip : IpAddr) (r : ObservabilityRegistry)
    → (with_client f ip r).client_capacity ≡ r.client_capacity
unfolding with_client client_found next_tick
capacity-with_client f ip r = elim (Option-cases (lookup ip_eq ip r.clients)) [
  | inl gone ↦ rw (gone, client_found)
  | inr (s, found) ↦ rw (found, client_found)
]

-- There is room for one more client.
room-bounded :
    (r : ObservabilityRegistry)
    → IsBounded r
    → Distinct ip_eq (make_room r.client_capacity r.clients)
      × (length (make_room r.client_capacity r.clients) + 1 ≤ max r.client_capacity 1)
room-bounded r b =
    elim (Bool-cases (leb r.client_capacity (length r.clients) && ltb 0 (length r.clients))) [
      | inl full ↦
          let (ip, s, held, least, e) =
            make_room-full r.client_capacity r.clients b.distinct (ground arith) (ground arith) in
          rw e (
            remove-Distinct ip_eq ip_Equality ip r.clients b.distinct,
            omega (arith, rw held at (length-remove ip_eq ip_Equality ip r.clients), b.bounded),
          )
      | inr free ↦ rw (make_room-free r.client_capacity r.clients free) (b.distinct, ground arith)
    ]

length-insert-le :
    (ip : IpAddr) (v : ClientStats) (l : Clients) → length (insert ip_eq ip v l) ≤ length l + 1
length-insert-le ip v l = elim (Option-cases (lookup ip_eq ip l)) [
  | inl gone ↦ omega (arith, rw gone at (length-insert ip_eq ip_Equality ip v l))
  | inr (s, found) ↦ omega (arith, rw found at (length-insert ip_eq ip_Equality ip v l))
]

with_client-IsBounded :
    (f : ClientStats → ClientStats) (ip : IpAddr) (r : ObservabilityRegistry)
    → IsBounded r
    → IsBounded (with_client f ip r)
with_client-IsBounded f ip r b = elim (Option-cases (lookup ip_eq ip r.clients)) [
  | inl gone ↦
      let l = make_room r.client_capacity r.clients in
      let v = f (touch_activity r.activity_clock new_client_stats) in
      let (d, room) = room-bounded r b in
      record {
        distinct = rw (added f ip r gone) (insert-Distinct ip_eq ip_Equality ip v l d);
        bounded =
            rw (added f ip r gone, capacity-with_client f ip r)
              (omega (arith, length-insert-le ip v l, room));
      }
  | inr (s, found) ↦
      let v = f (touch_activity r.activity_clock s) in
      record {
        distinct =
            rw (recorded f ip r s found)
              (insert-Distinct ip_eq ip_Equality ip v r.clients b.distinct);
        bounded =
            rw (recorded f ip r s found, capacity-with_client f ip r)
              (omega
                (arith, rw found at (length-insert ip_eq ip_Equality ip v r.clients), b.bounded));
      }
]

-- A sequence of recordings, each for a client.
pub record_all :
    List (IpAddr × (ClientStats → ClientStats)) → ObservabilityRegistry → ObservabilityRegistry
record_all [] r = r
record_all ((ip, f) ∷ rs) r = record_all rs (with_client f ip r)

record_all-IsBounded :
    (rs : List (IpAddr × (ClientStats → ClientStats))) (r : ObservabilityRegistry)
    → IsBounded r
    → IsBounded (record_all rs r)
unfolding record_all
record_all-IsBounded [] r b = b
record_all-IsBounded ((ip, f) ∷ rs) r b =
    record_all-IsBounded rs (with_client f ip r) (with_client-IsBounded f ip r b)

-- Whatever is recorded for whichever clients, no client stands twice in a registry, and it holds at
-- most as many clients as its capacity (or one, at a capacity of 0).
pub record_all-with_upstreams :
    (names : List Text) (capacity : ℕ) (rs : List (IpAddr × (ClientStats → ClientStats)))
    → IsBounded (record_all rs (with_upstreams_and_capacity names capacity))
unfolding with_upstreams_and_capacity
record_all-with_upstreams names capacity rs =
    record_all-IsBounded rs _ (record { distinct = tt; bounded = omega arith })
