-- ===== src/Transports/Failover.antt =====
-- src/upstream.rs: when a query of an upstream is answered, by TCP instead of UDP or by another endpoint.
use dotdns.Prelude.{
  ℕ, ◌+◌, ◌≤◌, ◌≡◌, refl, false, Bool-cases, List, [], ◌∷◌, ◌++◌, OneOf, ◌⊎◌, inl, inr, Result, ok,
  Result-cases, arith,
}
use dotdns.Server.Framing.{AsyncIo}
use dotdns.Text.{Text, codes}
use dotdns.Transports.{
  PlainUpstream, Sockets, new_plain, plain_udp_timeout_cap, is_truncated, query_udp, query_tcp,
  query_plain, show_error, try_endpoints,
}
use dotdns.Upstream.{UpstreamError}

-- A plain query over UDP and then TCP takes at most two seconds more than one over TCP alone.
pub new_plain-budget :
    (address : Text) (budget : ℕ)
    → ((new_plain address budget).udp_timeout ≤ budget)
      × ((new_plain address budget).udp_timeout + (new_plain address budget).tcp_timeout
          ≤ budget + plain_udp_timeout_cap)
unfolding new_plain
new_plain-budget address budget = (ground arith, ground arith)

module _ {R W Message : Type 0} (to_bytes : Message → Result Text (List ℕ))
    (from_bytes : List ℕ → Result Text Message) (tokio : AsyncIo R W) (sockets : Sockets (R × W))
    (u : PlainUpstream) (message : Message) where
  -- A plain query is answered if TCP answers it, whatever comes over UDP, and a truncated answer that comes
  -- over UDP is never returned.
  pub query_plain-answers :
      (by_tcp : Message)
      → query_tcp to_bytes from_bytes tokio sockets u message ≡ ok by_tcp
      → (answer : Message) × (query_plain to_bytes from_bytes tokio sockets u message ≡ ok answer)
        × ((answer ≡ by_tcp) ⊎ (is_truncated to_bytes from_bytes answer ≡ false))
  unfolding query_plain
  query_plain-answers by_tcp h =
      elim (Result-cases (query_udp to_bytes from_bytes tokio sockets u message)) [
        | inr (e, lost) ↦ (by_tcp, rw (query_plain, lost) h, inl refl)
        | inl (response, came) ↦ elim (Bool-cases (is_truncated to_bytes from_bytes response)) [
          | inl cut ↦ (by_tcp, rw (query_plain, came, cut) h, inl refl)
          | inr whole ↦ (response, rw (query_plain, came, whole) refl, inr whole)
        ]
      ]

module _ {E S M : Type 0} (show : E → Text) (none : Text)
    (attempt : E → S → S × Result UpstreamError M) where
  first_answers :
      (endpoint : E) (endpoints : List E) (errors : List Text) (s : S) (m : M)
      → (attempt endpoint s).1 ≡ ok m
      → (try_endpoints show none attempt (endpoint ∷ endpoints) errors s).1 ≡ ok m
  unfolding try_endpoints
  first_answers endpoint endpoints errors s m h = rw (try_endpoints, h) refl

  -- A query is answered if one of the endpoints always answers, whatever is tried before it.
  pub try_endpoints-answers :
      (works : E) (endpoints : List E) (errors : List Text) (s : S)
      → OneOf works endpoints
      → ((t : S) → (m : M) × ((attempt works t).1 ≡ ok m))
      → (m : M) × ((try_endpoints show none attempt endpoints errors s).1 ≡ ok m)
  unfolding try_endpoints
  try_endpoints-answers works [] errors s in_list always = elim in_list [ ]
  try_endpoints-answers works (endpoint ∷ endpoints) errors s (inl same) always =
      let (m, h) = always s in (m, first_answers endpoint endpoints errors s m (rw same at h))
  try_endpoints-answers works (endpoint ∷ endpoints) errors s (inr later) always =
      elim (Result-cases (attempt endpoint s).1) [
        | inl (m, h) ↦ (m, first_answers endpoint endpoints errors s m h)
        | inr (e, h) ↦
            let (m, answers) =
              try_endpoints-answers works endpoints
                (errors ++ ((show endpoint ++ (codes ": " ++ show_error e)) ∷ []))
                (attempt endpoint s).0 later always in
            (m, rw (try_endpoints, h) answers)
      ]
