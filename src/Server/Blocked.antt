-- ===== src/Server/Blocked.antt =====
-- src/server.rs: what the server's own responses to a query hold.
use dotdns.Prelude.{
  ℕ, ◌≡◌, refl, ap, ◌∙◌, ◌/◌, ◌-◌, ◌^◌, min, List, [], ◌∷◌, ◌++◌, Option, none, some, inl, inr,
  true, false, Bool-cases,
}
use dotdns.Dns.{Dns, MessageType, View}
use dotdns.Server.Responses.{
  BlocklistResponseMode, null_ip, no_data, nx_domain, BlocklistConfig, blocked_secs, set_edns_of,
  apply_query_meta, make_error_response, add_blocked_soa, answer_null_ip, answer_blocked,
  blocked_to, make_blocked_response,
}
use dotdns.Text.{codes}

module _ (D : Dns) where
  open D use {Message, view, Edns, Name, Query, ResponseCode, Record}

  set_edns_of_view :
      (o : Option Edns) (m : Message)
      → (view m).extensions ≡ none
      → view (set_edns_of D o m) ≡ record (view m) { extensions = o }
  unfolding set_edns_of
  set_edns_of_view none m h = ap (λ o. record (view m) { extensions = o }) h
  set_edns_of_view (some e) m h = D.set_edns_view e m

  -- A new response to a query: its header is the query's, and its sections are empty.
  abbrev pub header : Message → View D.types
  header query = record (view D.new_message) {
    id = (view query).id;
    message_type = MessageType.response;
    op_code = (view query).op_code;
    recursion_desired = (view query).recursion_desired;
    extensions = (view query).extensions;
  }

  apply_query_meta_view :
      (query : Message) → view (apply_query_meta D query D.new_message) ≡ header query
  unfolding apply_query_meta
  apply_query_meta_view query =
      let v = view query in
      let m = D.set_recursion_desired v.recursion_desired (
        D.set_op_code v.op_code
          (D.set_message_type MessageType.response (D.set_id v.id D.new_message))) in
      let set : view m ≡ record (header query) { extensions = (view D.new_message).extensions } =
        simp (
          D.set_recursion_desired_view, D.set_op_code_view, D.set_message_type_view, D.set_id_view,
        ) in
      set_edns_of_view v.extensions m
        (ap {A = View D.types} (λ w. w.extensions) set ∙ D.new_message_extensions)
      ∙ ap {A = View D.types} (λ w. record w { extensions = v.extensions }) set

  -- An error response has the query's identifier, operation and EDNS, the code, and no records.
  pub make_error_response_view :
      (query : Message) (code : ResponseCode)
      → view (make_error_response D query code) ≡ record (header query) { response_code = code }
  unfolding make_error_response
  make_error_response_view query code =
      D.set_response_code_view code _
      ∙ ap {A = View D.types} (λ v. record v { response_code = code }) (apply_query_meta_view query)

  -- `RData::SOA` of a response without an address, written out.
  abbrev soa_of : Name → ℕ → Record
  soa_of name ttl = D.from_rdata name ttl (
      D.rdata_soa (D.from_ascii (codes "blocked.dotdns."))
        (D.from_ascii (codes "hostmaster.blocked.dotdns.")) 1 1800 900 604_800 ttl)

  -- What a mode puts into the code, the answers and the name servers of the response to a question.
  pub data Placed (q : Query) (ttl : ℕ)
      : BlocklistResponseMode → ResponseCode → List Record → List Record → Type 0 where
    ipv4 :
        D.type_eq (D.query_type q) D.type_a ≡ true
        → Placed q ttl null_ip D.no_error (D.from_rdata (D.query_name q) ttl (D.rdata_a 0) ∷ []) []
    ipv6 :
        D.type_eq (D.query_type q) D.type_a ≡ false
        → D.type_eq (D.query_type q) D.type_aaaa ≡ true
        → Placed q ttl null_ip D.no_error
            (D.from_rdata (D.query_name q) ttl (D.rdata_aaaa 0) ∷ [])
            []
    other :
        D.type_eq (D.query_type q) D.type_a ≡ false
        → D.type_eq (D.query_type q) D.type_aaaa ≡ false
        → Placed q ttl null_ip D.no_error [] (soa_of (D.query_name q) ttl ∷ [])
    empty : Placed q ttl no_data D.no_error [] (soa_of (D.query_name q) ttl ∷ [])
    missing : Placed q ttl nx_domain D.nx_domain [] (soa_of (D.query_name q) ttl ∷ [])

  -- The whole of a response: the header of a query, the records of `Placed`, and nothing else.
  pub record Sinkhole (query : Message) (mode : BlocklistResponseMode) (q : Query) (ttl : ℕ)
      (v : View D.types) : Type 0 where
    pub same_id : v.id ≡ (view query).id
    pub response_type : v.message_type ≡ MessageType.response
    pub same_op_code : v.op_code ≡ (view query).op_code
    pub same_recursion : v.recursion_desired ≡ (view query).recursion_desired
    pub same_edns : v.extensions ≡ (view query).extensions
    pub no_queries : v.queries ≡ []
    pub placed : Placed q ttl mode v.response_code v.answers v.name_servers
    pub no_additionals : v.additionals ≡ []

  -- A header with a code and one record in the answers or the name servers.
  filled : Message → ResponseCode → List Record → List Record → View D.types
  filled query code answers name_servers = record (header query) {
    response_code = code;
    answers = answers;
    name_servers = name_servers;
  }

  filled-Sinkhole :
      (query m : Message) (mode : BlocklistResponseMode) (q : Query) (ttl : ℕ) (code : ResponseCode)
      (answers name_servers : List Record)
      → view m ≡ filled query code answers name_servers
      → Placed q ttl mode code answers name_servers
      → Sinkhole query mode q ttl (view m)
  unfolding filled
  filled-Sinkhole query m mode q ttl code answers name_servers h p = rw h (record {
    same_id = refl;
    response_type = refl;
    same_op_code = refl;
    same_recursion = refl;
    same_edns = refl;
    no_queries = D.new_message_queries;
    placed = p;
    no_additionals = D.new_message_additionals;
  })

  added_answer :
      (query m : Message) (code : ResponseCode) (r : Record)
      → view m ≡ header query
      → view (D.add_answer r (D.set_response_code code m)) ≡ filled query code (r ∷ []) []
  unfolding filled
  added_answer query m code r h =
      D.add_answer_view _ _
      ∙ ap {A = View D.types} (λ v. record v { answers = v.answers ++ (r ∷ []) })
          (D.set_response_code_view code m
            ∙ ap {A = View D.types} (λ v. record v { response_code = code }) h)
      ∙ ap (λ a. record (header query) { response_code = code; answers = a ++ (r ∷ []) })
          D.new_message_answers
      ∙ ap (λ n. filled query code (r ∷ []) n) D.new_message_name_servers

  added_soa :
      (query m : Message) (code : ResponseCode) (name : Name) (ttl : ℕ)
      → view m ≡ header query
      → view (add_blocked_soa D (D.set_response_code code m) name ttl)
        ≡ filled query code [] (soa_of name ttl ∷ [])
  unfolding filled add_blocked_soa
  added_soa query m code name ttl h =
      let r = soa_of name ttl in
      D.add_name_server_view _ _
      ∙ ap {A = View D.types} (λ v. record v { name_servers = v.name_servers ++ (r ∷ []) })
          (D.set_response_code_view code m
            ∙ ap {A = View D.types} (λ v. record v { response_code = code }) h)
      ∙ ap (λ n. record (header query) { response_code = code; name_servers = n ++ (r ∷ []) })
          D.new_message_name_servers
      ∙ ap (λ a. filled query code a (r ∷ [])) D.new_message_answers

  answer_null_ip-Sinkhole :
      (query m : Message) (q : Query) (ttl : ℕ)
      → view m ≡ header query
      → Sinkhole query null_ip q ttl
          (view (answer_null_ip D q ttl (D.set_response_code D.no_error m)))
  unfolding answer_null_ip
  answer_null_ip-Sinkhole query m q ttl h =
      let answered = λ (r : Record). added_answer query m D.no_error r h in
      elim (Bool-cases (D.type_eq (D.query_type q) D.type_a)) [
        | inl a ↦ rw a (filled-Sinkhole query _ null_ip q ttl _ _ _ (answered _) (ipv4 a))
        | inr n ↦ elim (Bool-cases (D.type_eq (D.query_type q) D.type_aaaa)) [
          | inl a ↦ rw (n, a) (filled-Sinkhole query _ null_ip q ttl _ _ _ (answered _) (ipv6 n a))
          | inr k ↦
              rw (n, k)
                (filled-Sinkhole query _ null_ip q ttl _ _ _
                  (added_soa query m D.no_error (D.query_name q) ttl h) (other n k))
        ]
      ]

  answer_blocked-Sinkhole :
      (query m : Message) (mode : BlocklistResponseMode) (q : Query) (ttl : ℕ)
      → view m ≡ header query
      → Sinkhole query mode q ttl (view (answer_blocked D mode q ttl m))
  unfolding answer_blocked
  answer_blocked-Sinkhole query m null_ip q ttl h = answer_null_ip-Sinkhole query m q ttl h
  answer_blocked-Sinkhole query m no_data q ttl h =
      filled-Sinkhole query _ no_data q ttl _ _ _
        (added_soa query m D.no_error (D.query_name q) ttl h) empty
  answer_blocked-Sinkhole query m nx_domain q ttl h =
      filled-Sinkhole query _ nx_domain q ttl _ _ _
        (added_soa query m D.nx_domain (D.query_name q) ttl h) missing

  -- The response to a blocked question has the identifier, the operation, the recursion flag and the
  -- EDNS of the query. In the mode null_ip it answers a question of type A with 0.0.0.0 and one of
  -- type AAAA with ::, and any other question with no answer; in the other modes it has no answer,
  -- and in nx_domain the code NXDomain. Where it has no answer it has one name server, the SOA of
  -- the blocked zone; the time to live is the configured one in whole seconds, at most 2^32 - 1.
  pub make_blocked_response-Sinkhole :
      (query : Message) (config : BlocklistConfig) (q : Query) (qs : List Query)
      → (view query).queries ≡ q ∷ qs
      → Sinkhole query config.response_mode q
          (min (config.blocked_ttl / 10 ^ 9) (2 ^ 32 - 1))
          (view (make_blocked_response D query config))
  unfolding make_blocked_response blocked_to
  make_blocked_response-Sinkhole query config q qs h =
      rw (h, blocked_to)
        (answer_blocked-Sinkhole query _ config.response_mode q (blocked_secs config)
          (apply_query_meta_view query))
