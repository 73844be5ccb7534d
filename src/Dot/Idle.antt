-- ===== src/Dot/Idle.antt =====
-- src/upstream.rs, `DotUpstream::checkout` and `checkin`: what is kept, and what is reused.
use dotdns.Prelude.{
  ℕ, ◌-◌, ◌≤◌, ◌<◌, ◌≡◌, ◌∙◌, refl, sym, ap, inl, inr, Bool-cases, Option-cases, true, List, [],
  ◌∷◌, ◌++◌, Option, none, some, some_inj, All, length, ltb, arith,
}
use dotdns.Dot.{
  max_idle_per_endpoint, idle_max_age, pop_fresh, checkout, checkin, or_default, push_if_room,
}
use dotdns.Map.{lookup, insert, lookup-insert}
use dotdns.Net.{SocketAddr, addr_eq, addr_Equality}

-- The calls on the idle connections, each with its time and endpoint.
pub data Call (Stream : Type 0) : Type 0 where
  out : ℕ → SocketAddr → Call Stream
  back : ℕ → SocketAddr → Stream → Call Stream

module _ {Stream : Type 0} where
  -- Too old to be reused.
  abbrev pub IsOld : ℕ → Stream × ℕ → Type 0
  IsOld now c = idle_max_age ≤ now - c.1

  -- What becomes of the idle connections of an endpoint: the newest that is young enough is taken, and
  -- those before it are dropped, or all are dropped.
  abbrev pub Popped : ℕ → List (Stream × ℕ) → List (Stream × ℕ) × Option Stream → Type 0
  Popped now conns (left, some stream) =
      (since : ℕ) × (old : List (Stream × ℕ)) × (conns ≡ old ++ ((stream, since) ∷ left))
      × All (IsOld now) old
      × (now - since < idle_max_age)
  Popped now conns (left, none) = (left ≡ []) × All (IsOld now) conns

  Popped-cons :
      (now : ℕ) (c : Stream × ℕ) (conns : List (Stream × ℕ))
      (out : List (Stream × ℕ) × Option Stream)
      → IsOld now c
      → Popped now conns out
      → Popped now (c ∷ conns) out
  Popped-cons now c conns (left, some stream) o (since, old, e, olds, young) =
      (since, c ∷ old, ap (◌∷◌ c) e, (o, olds), young)
  Popped-cons now c conns (left, none) o (e, olds) = (e, (o, olds))

  -- A connection is reused only if it has been idle for less than 30 seconds: of those of the endpoint
  -- the newest is taken if it is young enough, then the next, and each that is passed over is too old.
  pub pop_fresh-Popped :
      (now : ℕ) (conns : List (Stream × ℕ)) → Popped now conns (pop_fresh now conns)
  unfolding pop_fresh
  pop_fresh-Popped now [] = (refl, tt)
  pop_fresh-Popped now ((stream, since) ∷ conns) =
      elim (Bool-cases (ltb (now - since) idle_max_age)) [
        | inl young ↦ rw young (since, [], refl, tt, ground arith)
        | inr old ↦ rw old (
            Popped-cons now (stream, since) conns (pop_fresh now conns) (ground arith)
              (pop_fresh-Popped now conns))
      ]

  -- No endpoint has more idle connections than are allowed.
  abbrev pub IsBounded : List (SocketAddr × List (Stream × ℕ)) → Type 0
  IsBounded idle = All (λ e. length e.1 ≤ max_idle_per_endpoint) idle

  insert-IsBounded :
      (endpoint : SocketAddr) (conns : List (Stream × ℕ))
      (idle : List (SocketAddr × List (Stream × ℕ)))
      → length conns ≤ max_idle_per_endpoint
      → IsBounded idle
      → IsBounded (insert addr_eq endpoint conns idle)
  unfolding insert
  insert-IsBounded endpoint conns [] h b = (h, tt)
  insert-IsBounded endpoint conns ((a, cs) ∷ idle) h b = elim (Bool-cases (addr_eq a endpoint)) [
    | inl e ↦ rw e (h, b.1)
    | inr e ↦ rw e (b.0, insert-IsBounded endpoint conns idle h b.1)
  ]

  lookup-bounded :
      (endpoint : SocketAddr) (idle : List (SocketAddr × List (Stream × ℕ)))
      (conns : List (Stream × ℕ))
      → IsBounded idle
      → lookup addr_eq endpoint idle ≡ some conns
      → length conns ≤ max_idle_per_endpoint
  unfolding lookup
  lookup-bounded endpoint [] conns b h = cc
  lookup-bounded endpoint ((a, cs) ∷ idle) conns b h = elim (Bool-cases (addr_eq a endpoint)) [
    | inl e ↦ rw (some_inj (sym (rw e at h))) b.0
    | inr e ↦ lookup-bounded endpoint idle conns b.1 (rw e at h)
  ]

  pop_fresh-le :
      (now : ℕ) (conns : List (Stream × ℕ)) → length (pop_fresh now conns).0 ≤ length conns
  unfolding pop_fresh
  pop_fresh-le now [] = omega arith
  pop_fresh-le now ((stream, since) ∷ conns) = ground (arith, pop_fresh-le now conns)

  checkout-IsBounded :
      (now : ℕ) (endpoint : SocketAddr) (idle : List (SocketAddr × List (Stream × ℕ)))
      → IsBounded idle
      → IsBounded (checkout now endpoint idle).0
  unfolding checkout
  checkout-IsBounded now endpoint idle b = elim (Option-cases (lookup addr_eq endpoint idle)) [
    | inl e ↦ rw (e, checkout) b
    | inr (conns, e) ↦
        rw (e, checkout)
          (insert-IsBounded endpoint (pop_fresh now conns).0 idle
            (omega (arith, pop_fresh-le now conns, lookup-bounded endpoint idle conns b e)) b)
  ]

  push_if_room-bounded :
      (now : ℕ) (stream : Stream) (conns : List (Stream × ℕ))
      → length conns ≤ max_idle_per_endpoint
      → length (push_if_room now stream conns) ≤ max_idle_per_endpoint
  unfolding push_if_room
  push_if_room-bounded now stream conns h = ground arith

  checkin-IsBounded :
      (now : ℕ) (endpoint : SocketAddr) (stream : Stream)
      (idle : List (SocketAddr × List (Stream × ℕ)))
      → IsBounded idle
      → IsBounded (checkin now endpoint stream idle)
  unfolding checkin or_default
  checkin-IsBounded now endpoint stream idle b =
      elim (Option-cases (lookup addr_eq endpoint idle)) [
        | inl e ↦
            insert-IsBounded endpoint _ idle
              (rw (e, or_default) (push_if_room-bounded now stream [] (omega arith))) b
        | inr (conns, e) ↦
            insert-IsBounded endpoint _ idle
              (rw (e, or_default)
                (push_if_room-bounded now stream conns (lookup-bounded endpoint idle conns b e)))
              b
      ]

  unfoldable pub run :
      List (Call Stream)
      → List (SocketAddr × List (Stream × ℕ))
      → List (SocketAddr × List (Stream × ℕ))
  run [] idle = idle
  run (out now endpoint ∷ calls) idle = run calls (checkout now endpoint idle).0
  run (back now endpoint stream ∷ calls) idle = run calls (checkin now endpoint stream idle)

  -- Whatever is taken out and put back, no more than 8 idle connections are kept for an endpoint.
  pub run-IsBounded :
      (calls : List (Call Stream)) (idle : List (SocketAddr × List (Stream × ℕ)))
      → IsBounded idle
      → IsBounded (run calls idle)
  unfolding run
  run-IsBounded [] idle b = b
  run-IsBounded (out now endpoint ∷ calls) idle b =
      run-IsBounded calls (checkout now endpoint idle).0 (checkout-IsBounded now endpoint idle b)
  run-IsBounded (back now endpoint stream ∷ calls) idle b =
      run-IsBounded calls (checkin now endpoint stream idle)
        (checkin-IsBounded now endpoint stream idle b)

  lookup-same :
      (endpoint : SocketAddr) (conns : List (Stream × ℕ))
      (idle : List (SocketAddr × List (Stream × ℕ)))
      → lookup addr_eq endpoint (insert addr_eq endpoint conns idle) ≡ some conns
  lookup-same endpoint conns idle =
      lookup-insert addr_eq addr_Equality endpoint endpoint conns idle
      ∙ ground (arith, addr_Equality.eq_refl endpoint)

  -- A connection that is put back where there is room is the next one to be taken out, if that is
  -- within 30 seconds, and the endpoint has then the idle connections that it had before.
  pub checkout-checkin :
      (since now : ℕ) (endpoint : SocketAddr) (stream : Stream)
      (idle : List (SocketAddr × List (Stream × ℕ)))
      → now - since < idle_max_age
      → length (or_default (lookup addr_eq endpoint idle)) < max_idle_per_endpoint
      → ((checkout now endpoint (checkin since endpoint stream idle)).1 ≡ some stream)
        × (lookup addr_eq endpoint (checkout now endpoint (checkin since endpoint stream idle)).0
            ≡ some (or_default (lookup addr_eq endpoint idle)))
  unfolding checkout checkin push_if_room pop_fresh
  checkout-checkin since now endpoint stream idle young room =
      let conns = or_default (lookup addr_eq endpoint idle) in
      let fits : ltb (length conns) max_idle_per_endpoint ≡ true = ground arith in
      let fresh : ltb (now - since) idle_max_age ≡ true = ground arith in
      rw (fits, checkout, lookup-same, fresh) (refl, lookup-same endpoint conns _)
