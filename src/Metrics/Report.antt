-- ===== src/Metrics/Report.antt =====
-- src/metrics.rs, `format_uptime` and `MetricsSnapshot::to_human_string`: the text of a status report.
use dotdns.Prelude.{
  ℕ, ◌+◌, ◌*◌, ◌/◌, ◌%◌, ◌≡◌, List, [], ◌∷◌, ◌++◌, map, ltb, ◌==◌, if◌then◌else◌, Bool-cases, inl,
  inr, arith,
}
use dotdns.Metrics.{MetricsSnapshot}
use dotdns.Text.{Text, codes, decimal, join}

-- A count with its unit, if it is not 0.
some_of : ℕ → ℕ → List (ℕ × ℕ)
some_of n unit = if ltb 0 n then (n, unit) ∷ [] else []

-- The counts that are written, each with the letter of its unit.
pub uptime_parts : ℕ → List (ℕ × ℕ)
unfolding some_of
uptime_parts secs =
    if ltb secs 60
    then (secs, b's') ∷ []
    else some_of (secs / 86400) b'd'
      ++ (some_of (secs % 86400 / 3600) b'h'
          ++ (some_of (secs % 3600 / 60) b'm' ++ some_of (secs % 60) b's'))

unfoldable pub format_uptime : ℕ → Text
unfolding join uptime_parts
format_uptime secs = join (codes " ") (map (λ p. decimal p.0 ++ (p.1 ∷ [])) (uptime_parts secs))

unfoldable pub line : Text → ℕ → Text
line label n = label ++ (codes ": " ++ decimal n)

unfoldable pub to_human_string : MetricsSnapshot → Text
unfolding join line format_uptime
to_human_string s = join (codes "\n") (
    (codes "uptime: " ++ format_uptime s.uptime_secs)
    ∷ line (codes "total queries") s.total_queries
    ∷ line (codes "cache hits") s.cache_hits
    ∷ line (codes "cache misses") s.cache_misses
    ∷ line (codes "blocked") s.blocked_queries
    ∷ line (codes "upstream failures") s.upstream_failures
    ∷ line (codes "upstream successes") s.upstream_successes
    ∷ line (codes "upstream timeouts") s.upstream_timeouts
    ∷ line (codes "cache entries") s.cache_entries
    ∷ line (codes "cache evictions") s.cache_evictions
    ∷ line (codes "accepted connections") s.accepted_connections
    ∷ line (codes "active connections") s.active_connections
    ∷ line (codes "tls handshake success") s.tls_handshake_success
    ∷ line (codes "tls handshake failures") s.tls_handshake_failures
    ∷ line (codes "dns read failures") s.dns_read_failures
    ∷ line (codes "dns write failures") s.dns_write_failures
    ∷ line (codes "pending leaders") s.pending_leaders
    ∷ line (codes "pending followers") s.pending_followers
    ∷ line (codes "pending follower timeouts") s.pending_follower_timeouts
    ∷ line (codes "pending follower successes") s.pending_follower_successes
    ∷ [])

-- The seconds in a unit, by its letter.
abbrev pub unit_secs : ℕ → ℕ
unit_secs unit =
    if unit == b'd' then 86400 else if unit == b'h' then 3600 else if unit == b'm' then 60 else 1

-- The seconds that the parts of an uptime stand for.
unfoldable pub read_parts : List (ℕ × ℕ) → ℕ
read_parts [] = 0
read_parts ((n, unit) ∷ parts) = n * unit_secs unit + read_parts parts

read_parts-append : (xs ys : List (ℕ × ℕ)) → read_parts (xs ++ ys) ≡ read_parts xs + read_parts ys
unfolding read_parts
read_parts-append [] ys = omega arith
read_parts-append ((n, unit) ∷ xs) ys = omega (arith, read_parts-append xs ys)

read_parts-some_of : (n unit : ℕ) → read_parts (some_of n unit) ≡ n * unit_secs unit
unfolding read_parts some_of
read_parts-some_of n unit = elim (Bool-cases (ltb 0 n)) [
  | inl e ↦ rw e (omega arith)
  | inr e ↦ let nothing : n ≡ 0 = ground arith in rw nothing (omega arith)
]

-- The parts of a written uptime stand for the whole of it, to the second.
pub read_parts-uptime_parts : (secs : ℕ) → read_parts (uptime_parts secs) ≡ secs
unfolding uptime_parts some_of read_parts
read_parts-uptime_parts secs = elim (Bool-cases (ltb secs 60)) [
  | inl e ↦ rw e (omega arith)
  | inr e ↦
      let d = some_of (secs / 86400) b'd' in
      let h = some_of (secs % 86400 / 3600) b'h' in
      let m = some_of (secs % 3600 / 60) b'm' in
      let s = some_of (secs % 60) b's' in
      rw e (
        omega (
          arith,
          read_parts-append d (h ++ (m ++ s)),
          read_parts-append h (m ++ s),
          read_parts-append m s,
          read_parts-some_of (secs / 86400) b'd',
          read_parts-some_of (secs % 86400 / 3600) b'h',
          read_parts-some_of (secs % 3600 / 60) b'm',
          read_parts-some_of (secs % 60) b's',
        ))
]
