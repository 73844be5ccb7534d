-- ===== src/Server/Responses.antt =====
-- src/server.rs: the responses that the server makes itself; src/config.rs, `BlocklistConfig`.
use dotdns.Prelude.{Bool, ℕ, ◌-◌, ◌/◌, ◌^◌, min, List, [], ◌∷◌, Option, none, some, if◌then◌else◌}
use dotdns.Dns.{Dns, MessageType}
use dotdns.Text.{Text, codes}

pub data BlocklistResponseMode : Type 0 where
  null_ip no_data nx_domain : BlocklistResponseMode

-- Durations are numbers of nanoseconds.
pub record BlocklistConfig : Type 0 where
  pub paths : List Text
  pub urls : List Text
  pub allowlist_paths : List Text
  pub allowlist_urls : List Text
  pub download_dir : Text
  pub refresh_interval : Option ℕ
  pub download_timeout : ℕ
  pub enabled : Bool
  pub response_mode : BlocklistResponseMode
  pub blocked_ttl : ℕ

-- `blocked_ttl.as_secs().min(u32::MAX as u64) as u32`
abbrev pub blocked_secs : BlocklistConfig → ℕ
blocked_secs config = min (config.blocked_ttl / 10 ^ 9) (2 ^ 32 - 1)

module _ (D : Dns) where
  open D use {Message, view, Edns, Name, Query, ResponseCode}

  unfoldable pub set_edns_of : Option Edns → Message → Message
  set_edns_of none resp = resp
  set_edns_of (some edns) resp = D.set_edns edns resp

  unfoldable pub apply_query_meta : Message → Message → Message
  unfolding set_edns_of
  apply_query_meta query response =
      let v = view query in
      set_edns_of v.extensions (
        D.set_recursion_desired v.recursion_desired (
          D.set_op_code v.op_code
            (D.set_message_type MessageType.response (D.set_id v.id response))))

  unfoldable pub make_error_response : Message → ResponseCode → Message
  make_error_response query code = D.set_response_code code (apply_query_meta query D.new_message)

  abbrev pub blocked_soa : Name → ℕ → D.Record
  blocked_soa name ttl =
      let mname = D.from_ascii (codes "blocked.dotdns.") in
      let rname = D.from_ascii (codes "hostmaster.blocked.dotdns.") in
      D.from_rdata name ttl (D.rdata_soa mname rname 1 1800 900 604800 ttl)

  unfoldable pub add_blocked_soa : Message → Name → ℕ → Message
  add_blocked_soa response name ttl = D.add_name_server (blocked_soa name ttl) response

  unfoldable pub answer_null_ip : Query → ℕ → Message → Message
  answer_null_ip q ttl resp =
      let name = D.query_name q in
      if D.type_eq (D.query_type q) D.type_a
      then D.add_answer (D.from_rdata name ttl (D.rdata_a 0)) resp
      else if D.type_eq (D.query_type q) D.type_aaaa
      then D.add_answer (D.from_rdata name ttl (D.rdata_aaaa 0)) resp
      else add_blocked_soa resp name ttl

  unfoldable pub answer_blocked : BlocklistResponseMode → Query → ℕ → Message → Message
  answer_blocked null_ip q ttl resp = answer_null_ip q ttl (D.set_response_code D.no_error resp)
  answer_blocked no_data q ttl resp =
      add_blocked_soa (D.set_response_code D.no_error resp) (D.query_name q) ttl
  answer_blocked nx_domain q ttl resp =
      add_blocked_soa (D.set_response_code D.nx_domain resp) (D.query_name q) ttl

  unfoldable pub blocked_to : List Query → BlocklistConfig → Message → Message
  blocked_to [] config resp = D.set_response_code D.form_err resp
  blocked_to (q ∷ qs) config resp = answer_blocked config.response_mode q (blocked_secs config) resp

  unfoldable pub make_blocked_response : Message → BlocklistConfig → Message
  unfolding blocked_to
  make_blocked_response query config =
      blocked_to (view query).queries config (apply_query_meta query D.new_message)
