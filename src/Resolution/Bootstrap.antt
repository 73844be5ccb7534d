-- ===== src/Resolution/Bootstrap.antt =====
-- src/upstream.rs, `query_bootstrap_dns`: a query to a bootstrap server, and the responses that it
-- accepts. The socket is a parameter, by the results of its calls.
pub mod Matching
use dotdns.Prelude.{
  ℕ, ◌==◌, ◌&&◌, ◌||◌, ◌≡◌, Bool, true, false, List, [], ◌∷◌, ◌++◌, Option, none, some, Result, ok,
  err, ◌>>=◌, ◌>>◌, map_err, if◌then◌else◌,
}
use mathlib.Core.Option
use dotdns.Dns.{Dns, MessageType, query, response}
use dotdns.Net.{IpAddr, v4, v6}
use dotdns.Resolution.{Family, a, aaaa}
use dotdns.Text.{Text, codes}
use dotdns.Upstream.{UpstreamError, network, timeout, serialization}

-- What hickory_proto has besides `Dns`: names from texts, questions, and the addresses of records.
pub record BootstrapDns (D : Dns) : Type 0 where
  pub query_op_code : D.OpCode
  pub from_str : Text → Result Text D.Name
  pub new_query : D.Name → D.RecordType → D.Query
  pub add_query : D.Query → D.Message → D.Message
  pub as_a : D.Record → Option ℕ
  pub as_aaaa : D.Record → Option ℕ

-- A round of the loop: whether the deadline has passed, and what is then received.
pub record Datagram : Type 0 where
  pub late : Bool
  pub received : Result Text (List ℕ)

-- The calls on the socket: to bind it, set its time-outs and connect it, to send, and to receive.
pub record BootstrapSocket : Type 0 where
  pub opened : Result Text (Unit {0})
  pub send : List ℕ → Result Text (Unit {0})
  pub recv : List Datagram

-- `x == y` on message types
unfoldable pub is_response : MessageType → Bool
is_response query = false
is_response response = true

module _ (D : Dns) (proto : BootstrapDns D) where
  open D use {Name, RecordType, Query, Record, Message, view}

  abbrev pub type_of : Family → RecordType
  type_of a = D.type_a
  type_of aaaa = D.type_aaaa

  unfoldable pub address : Family → Record → Option IpAddr
  address a r = Option.map v4 (proto.as_a r)
  address aaaa r = Option.map v6 (proto.as_aaaa r)

  unfoldable pub addresses : Family → List Record → List IpAddr
  unfolding address
  addresses family [] = []
  addresses family (r ∷ records) = elim (address family r) [
    | none ↦ addresses family records
    | some ip ↦ ip ∷ addresses family records
  ]

  unfoldable pub has_question : Name → Family → List Query → Bool
  has_question name family [] = false
  has_question name family (q ∷ qs) =
      (D.type_eq (D.query_type q) (type_of family) && D.name_eq (D.query_name q) name)
      || has_question name family qs

  module _ (from_bytes : List ℕ → Result Text Message) (query_id : ℕ) (name : Name)
      (family : Family) where
    -- Whether a message is the response to the query.
    unfoldable pub matches : Message → Bool
    unfolding is_response has_question
    matches m =
        (view m).id == query_id
        && is_response (view m).message_type
        && has_question name family (view m).queries

    -- `none` where the loop continues.
    unfoldable pub read_reply : Result Text Message → Option (List IpAddr)
    unfolding matches addresses
    read_reply (err e) = none
    read_reply (ok m) = if matches m then some (addresses family (view m).answers) else none

    -- The loop, which is `none` as long as it waits.
    unfoldable pub receive : List Datagram → Option (Result UpstreamError (List IpAddr))
    unfolding read_reply
    receive [] = none
    receive (datagram ∷ datagrams) = elim datagram.late [
      | true ↦ some (err timeout)
      | false ↦ elim datagram.received [
        | err e ↦ some (err (network e))
        | ok bytes ↦ elim (read_reply (from_bytes bytes)) [
          | some ips ↦ some (ok ips)
          | none ↦ receive datagrams
        ]
      ]
    ]

  name_or : Result Text Name → Result Text Name → Result Text Name
  name_or (ok name) other = ok name
  name_or (err e) other = other

  unfoldable pub bootstrap_query : ℕ → Name → Family → Message
  bootstrap_query query_id name family = proto.add_query (proto.new_query name (type_of family)) (
      D.set_recursion_desired true (
        D.set_op_code proto.query_op_code
          (D.set_message_type query (D.set_id query_id D.new_message))))

  unfoldable pub query_bootstrap_dns :
      (List ℕ → Result Text Message)
      → ℕ
      → BootstrapSocket
      → Text
      → Family
      → Option (Result UpstreamError (List IpAddr))
  unfolding name_or bootstrap_query receive
  query_bootstrap_dns from_bytes query_id socket host family =
      let sent : Result UpstreamError Name =
        map_err network socket.opened
        >> (map_err serialization
              (name_or (proto.from_str host) (proto.from_str (host ++ codes ".")))
            >>= λ name.
                map_err serialization (D.to_bytes (bootstrap_query query_id name family))
                >>= λ bytes. map_err network (socket.send bytes) >> ok name) in
      elim sent [
        | err e ↦ some (err e)
        | ok name ↦ receive from_bytes query_id name family socket.recv
      ]
