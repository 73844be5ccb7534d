-- ===== src/Observability/Clients.antt =====
-- src/observability.rs, `with_client`: the client map stays within its capacity, and what room costs.
use dotdns.Prelude.{
  ℕ, ◌≤◌, ◌<◌, ◌≡◌, sym, ◌∙◌, ◌⊎◌, inl, inr, true, false, ◌&&◌, Bool-cases, Option-cases, List, [],
  ◌∷◌, none, some, All, length, leb, ltb, if◌then◌else◌, arith,
}
use dotdns.Map.{lookup, insert, remove, Distinct, lookup-cong, lookup-insert, lookup-remove}
use dotdns.Net.{IpAddr, ip_eq, ip_Equality}
use dotdns.Stats.{ClientStats, new_client_stats, touch_activity}
use dotdns.Observability.{
  ObservabilityRegistry, next_tick, oldest_of, oldest, evict_client, make_room, client_found,
  with_client,
}

abbrev pub Clients : Type 0
Clients = List (IpAddr × ClientStats)

-- The map has the statistics of this entry.
abbrev pub Holds : Clients → IpAddr × ClientStats → Type 0
Holds l e = lookup ip_eq e.0 l ≡ some e.1

Holds-cons :
    (ip : IpAddr) (s : ClientStats) (l es : Clients)
    → lookup ip_eq ip l ≡ none
    → All (Holds l) es
    → All (Holds ((ip, s) ∷ l)) es
unfolding lookup
Holds-cons ip s l [] gone h = tt
Holds-cons ip s l ((j, t) ∷ es) gone h = (
  elim (Bool-cases (ip_eq ip j)) [
    | inl e ↦ cc (sym gone ∙ lookup-cong ip_eq ip_Equality ip j l e ∙ h.0)
    | inr e ↦ rw e h.0
  ],
  Holds-cons ip s l es gone h.1,
)

Distinct-Holds : (l : Clients) → Distinct ip_eq l → All (Holds l) l
unfolding lookup
Distinct-Holds [] d = tt
Distinct-Holds ((ip, s) ∷ l) d =
    (rw (ip_Equality.eq_refl ip), Holds-cons ip s l l d.0 (Distinct-Holds l d.1))

-- No client of the list was active before the one with these statistics.
abbrev pub LeastActive : ClientStats → Clients → Type 0
LeastActive s l = All (λ e. s.last_activity ≤ e.1.last_activity) l

oldest_of-LeastActive :
    (l : Clients) (c : IpAddr × ClientStats) (rest : Clients)
    → Holds l c
    → All (Holds l) rest
    → (s : ClientStats) × Holds l (oldest_of c rest, s)
      × (s.last_activity ≤ c.1.last_activity)
      × LeastActive s rest
unfolding oldest_of
oldest_of-LeastActive l (ip, s) [] h hs = (s, h, omega arith, tt)
oldest_of-LeastActive l (ip, s) ((j, t) ∷ rest) h (k, hs) =
    elim (Bool-cases (ltb t.last_activity s.last_activity)) [
      | inl e ↦
          let (u, held, le, least) = oldest_of-LeastActive l (j, t) rest k hs in
          rw e (u, held, ground arith, (le, least))
      | inr e ↦
          let (u, held, le, least) = oldest_of-LeastActive l (ip, s) rest h hs in
          rw e (u, held, le, (ground arith, least))
    ]

-- At the capacity, room is made by the removal of a least recently active client.
pub make_room-full :
    (capacity : ℕ) (l : Clients)
    → Distinct ip_eq l
    → capacity ≤ length l
    → 0 < length l
    → (ip : IpAddr) × (s : ClientStats) × Holds l (ip, s)
      × LeastActive s l
      × (make_room capacity l ≡ remove ip_eq ip l)
unfolding make_room oldest evict_client
make_room-full capacity [] d full h = elim h [ ]
make_room-full capacity (c ∷ rest) d full h =
    let (held, helds) = Distinct-Holds (c ∷ rest) d in
    let (s, found, le, least) = oldest_of-LeastActive (c ∷ rest) c rest held helds in
    let test : (leb capacity (length (c ∷ rest)) && ltb 0 (length (c ∷ rest))) ≡ true =
      ground arith in
    (oldest_of c rest, s, found, (le, least), rw test)

pub make_room-free :
    (capacity : ℕ) (l : Clients)
    → (leb capacity (length l) && ltb 0 (length l)) ≡ false
    → make_room capacity l ≡ l
unfolding make_room
make_room-free capacity l h = rw h

-- The clients that a recording for a new one is added to: room is made or not.
abbrev Room : ObservabilityRegistry → Clients → Type 0
Room r l =
    (l ≡ r.clients)
    ⊎ ((ip : IpAddr) × (s : ClientStats) × Holds r.clients (ip, s)
        × LeastActive s r.clients
        × (l ≡ remove ip_eq ip r.clients))

make_room-Room :
    (r : ObservabilityRegistry)
    → Distinct ip_eq r.clients
    → Room r (make_room r.client_capacity r.clients)
make_room-Room r d =
    elim (Bool-cases (leb r.client_capacity (length r.clients) && ltb 0 (length r.clients))) [
      | inl full ↦ inr (make_room-full r.client_capacity r.clients d (ground arith) (ground arith))
      | inr free ↦ inl (make_room-free r.client_capacity r.clients free)
    ]

pub recorded :
    (f : ClientStats → ClientStats) (ip : IpAddr) (r : ObservabilityRegistry) (s : ClientStats)
    → lookup ip_eq ip r.clients ≡ some s
    → (with_client f ip r).clients
      ≡ insert ip_eq ip (f (touch_activity r.activity_clock s)) r.clients
unfolding with_client client_found next_tick
recorded f ip r s h = rw (h, client_found)

pub added :
    (f : ClientStats → ClientStats) (ip : IpAddr) (r : ObservabilityRegistry)
    → lookup ip_eq ip r.clients ≡ none
    → (with_client f ip r).clients
      ≡ insert ip_eq ip
          (f (touch_activity r.activity_clock new_client_stats))
          (make_room r.client_capacity r.clients)
unfolding with_client client_found next_tick
added f ip r h = rw (h, client_found)

-- What a recording for a client leaves of another: its statistics, or nothing where the recording
-- is the first for its client and the other was a least recently active one.
pub Kept : IpAddr → ObservabilityRegistry → IpAddr → Clients → Type 0
Kept ip r j after =
    (lookup ip_eq j after ≡ lookup ip_eq j r.clients)
    ⊎ ((s : ClientStats) × (lookup ip_eq ip r.clients ≡ none)
        × (lookup ip_eq j r.clients ≡ some s)
        × LeastActive s r.clients
        × (lookup ip_eq j after ≡ none))

Room-Kept :
    (ip j : IpAddr) (v : ClientStats) (r : ObservabilityRegistry) (l : Clients)
    → Distinct ip_eq r.clients
    → lookup ip_eq ip r.clients ≡ none
    → ip_eq ip j ≡ false
    → Room r l
    → Kept ip r j (insert ip_eq ip v l)
unfolding Kept
Room-Kept ip j v r l d gone other (inl e) =
    inl (lookup-insert ip_eq ip_Equality ip j v l ∙ rw (other, e))
Room-Kept ip j v r l d gone other (inr (k, s, held, least, e)) =
    let at_j : lookup ip_eq j (insert ip_eq ip v l)
        ≡ (if ip_eq k j then none else lookup ip_eq j r.clients) =
      rw (lookup-insert ip_eq ip_Equality ip j v l, other, e)
        (lookup-remove ip_eq ip_Equality k j r.clients d) in
    elim (Bool-cases (ip_eq k j)) [
      | inl same ↦ inr (
        s,
        gone,
        sym (lookup-cong ip_eq ip_Equality k j r.clients same) ∙ held,
        least,
        at_j ∙ rw same,
      )
      | inr diff ↦ inl (at_j ∙ rw diff)
    ]

-- A recording for one client changes the statistics of no other, but that the first recording for a
-- client may drop another one, and then one that was a least recently active.
pub with_client-Kept :
    (f : ClientStats → ClientStats) (ip j : IpAddr) (r : ObservabilityRegistry)
    → Distinct ip_eq r.clients
    → ip_eq ip j ≡ false
    → Kept ip r j (with_client f ip r).clients
unfolding Kept
with_client-Kept f ip j r d other = elim (Option-cases (lookup ip_eq ip r.clients)) [
  | inl gone ↦
      rw (added f ip r gone) (
        Room-Kept ip j _ r (make_room r.client_capacity r.clients) d gone other
          (make_room-Room r d))
  | inr (s, found) ↦
      inl
        (rw (recorded f ip r s found) (lookup-insert ip_eq ip_Equality ip j _ r.clients ∙ rw other))
]
