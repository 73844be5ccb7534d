-- ===== src/Dot.antt =====
-- src/upstream.rs, `DotUpstream`: the idle connections that are kept for reuse, per endpoint. A
-- connection stands with the time, in nanoseconds, at which it became idle; the newest is first, where
-- the source has it last. One reading of the clock stands for those of one `checkout`, which runs
-- under the lock.
pub mod Idle
pub mod Query
use dotdns.Prelude.{
  ℕ, ◌-◌, ◌*◌, ◌^◌, List, [], ◌∷◌, Option, none, some, Result, ok, err, length, ltb, if◌then◌else◌,
}
use dotdns.Map.{lookup, insert}
use dotdns.Net.{SocketAddr, addr_eq}
use dotdns.Upstream.{UpstreamError}

abbrev pub max_idle_per_endpoint : ℕ
max_idle_per_endpoint = 8

abbrev pub idle_max_age : ℕ
idle_max_age = 30 * 10 ^ 9

module _ {Stream : Type 0} where
  -- `while let Some((stream, since)) = conns.pop()`
  unfoldable pub pop_fresh : ℕ → List (Stream × ℕ) → List (Stream × ℕ) × Option Stream
  pop_fresh now [] = ([], none)
  pop_fresh now ((stream, since) ∷ conns) =
      let later = pop_fresh now conns in
      if ltb (now - since) idle_max_age then (conns, some stream) else later

  unfoldable pub checkout :
      ℕ
      → SocketAddr
      → List (SocketAddr × List (Stream × ℕ))
      → List (SocketAddr × List (Stream × ℕ)) × Option Stream
  checkout now endpoint idle = elim (lookup addr_eq endpoint idle) [
    | none ↦ (idle, none)
    | some conns ↦
        let (left, found) = pop_fresh now conns in (insert addr_eq endpoint left idle, found)
  ]

  -- `entry(endpoint).or_default()`
  unfoldable pub or_default : Option (List (Stream × ℕ)) → List (Stream × ℕ)
  or_default none = []
  or_default (some conns) = conns

  push_if_room : ℕ → Stream → List (Stream × ℕ) → List (Stream × ℕ)
  push_if_room now stream conns =
      if ltb (length conns) max_idle_per_endpoint then (stream, now) ∷ conns else conns

  unfoldable pub checkin :
      ℕ
      → SocketAddr
      → Stream
      → List (SocketAddr × List (Stream × ℕ))
      → List (SocketAddr × List (Stream × ℕ))
  unfolding or_default push_if_room
  checkin now endpoint stream idle =
      insert addr_eq endpoint (push_if_room now stream (or_default (lookup addr_eq endpoint idle)))
        idle
