-- ===== src/Resolution/Bootstrap/Matching.antt =====
-- src/upstream.rs, `query_bootstrap_dns`: which responses it believes, and that it comes to an end.
use dotdns.Prelude.{
  ℕ, ◌≡◌, OneOf, refl, inl, inr, true, false, Bool-cases, List, [], ◌∷◌, ◌++◌, some, Result, ok,
  err, Result-cases, Option-cases,
}
use dotdns.Dns.{Dns, response}
use dotdns.Net.{IpAddr, v4, v6}
use dotdns.Resolution.{Family, a, aaaa}
use dotdns.Resolution.Bootstrap.{BootstrapDns, Datagram, read_reply, receive}
use dotdns.Text.{Text}
use dotdns.Upstream.{UpstreamError, network, timeout}

-- `RecordType::A` and `RecordType::AAAA`
abbrev pub family_type : (D : Dns) → Family → D.RecordType
family_type D a = D.type_a
family_type D aaaa = D.type_aaaa

-- The address that a record of the family holds.
abbrev pub Holds : {D : Dns} → BootstrapDns D → Family → D.Record → IpAddr → Type 0
Holds proto a r ip = (n : ℕ) × (proto.as_a r ≡ some n) × (ip ≡ v4 n)
Holds proto aaaa r ip = (n : ℕ) × (proto.as_aaaa r ≡ some n) × (ip ≡ v6 n)

-- The addresses of the records that hold one, in their order.
pub data AddressesOf {D : Dns} (proto : BootstrapDns D) (family : Family)
    : List D.Record → List IpAddr → Type 0 where
  none_left : AddressesOf proto family [] []
  address_of :
      (r : D.Record) (rs : List D.Record) (ip : IpAddr) (ips : List IpAddr)
      → Holds proto family r ip
      → AddressesOf proto family rs ips
      → AddressesOf proto family (r ∷ rs) (ip ∷ ips)
  passed_over :
      (r : D.Record) (rs : List D.Record) (ips : List IpAddr)
      → ((ip : IpAddr) → ¬ Holds proto family r ip)
      → AddressesOf proto family rs ips
      → AddressesOf proto family (r ∷ rs) ips

module _ (D : Dns) (proto : BootstrapDns D) (from_bytes : List ℕ → Result Text D.Message)
    (query_id : ℕ) (name : D.Name) (family : Family) where
  open D use {Message, view}

  -- A response to the query: it has its identifier, and among its questions one for its name and type.
  pub record Answers (m : Message) : Type 0 where
    pub same_id : (view m).id ≡ query_id
    pub is_answer : (view m).message_type ≡ response
    pub question : D.Query
    pub asked : OneOf question (view m).queries
    pub same_type : D.type_eq (D.query_type question) (family_type D family) ≡ true
    pub same_name : D.name_eq (D.query_name question) name ≡ true

  -- The first response to the query among what is received before the deadline, and its addresses.
  pub data Accepted : List Datagram → List IpAddr → Type 0 where
    this :
        (datagram : Datagram) (later : List Datagram) (bytes : List ℕ) (m : Message)
        (ips : List IpAddr)
        → datagram.late ≡ false
        → datagram.received ≡ ok bytes
        → from_bytes bytes ≡ ok m
        → Answers m
        → AddressesOf proto family (view m).answers ips
        → Accepted (datagram ∷ later) ips
    passed :
        (datagram : Datagram) (later : List Datagram) (bytes : List ℕ) (ips : List IpAddr)
        → datagram.late ≡ false
        → datagram.received ≡ ok bytes
        → ((m : Message) → from_bytes bytes ≡ ok m → ¬ Answers m)
        → Accepted later ips
        → Accepted (datagram ∷ later) ips

  -- Once the deadline has passed, the loop ends.
  pub receive-ends :
      (before : List Datagram) (datagram : Datagram) (later : List Datagram)
      → datagram.late ≡ true
      → (out : Result UpstreamError (List IpAddr)) × (receive D proto from_bytes query_id name
            family
            (before ++ datagram ∷ later)
          ≡ some out)
  unfolding receive
  receive-ends [] datagram later late = (err timeout, rw late refl)
  receive-ends (first ∷ before) datagram later late = elim (Bool-cases first.late) [
    | inl h ↦ (err timeout, rw h refl)
    | inr in_time ↦ elim (Result-cases first.received) [
      | inr (e, h) ↦ (err (network e), rw (in_time, h) refl)
      | inl (bytes, came) ↦
          elim (Option-cases
            (read_reply D proto from_bytes query_id name family (from_bytes bytes))) [
              | inl passes ↦
                  let (out, ends) = receive-ends before datagram later late in
                  (out, rw (in_time, came, passes) ends)
              | inr (ips, reads) ↦ (ok ips, rw (in_time, came, reads) refl)
            ]
    ]
  ]
