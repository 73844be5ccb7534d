-- ===== src/Dns.antt =====
-- The DNS messages of the crate `hickory_proto`, as far as the program uses them: a parameter of
-- the model. A message is seen through `view`, which collects what its accessors return; the law of
-- each setter, taken from the crate's documentation, says which part of the view it replaces.
use dotdns.Prelude.{ℕ, ◌≡◌, Bool, List, [], ◌∷◌, ◌++◌, Option, none, some, Result}
use dotdns.Map.{Equality}
use dotdns.Net.{IpAddr}
use dotdns.Text.{Text}

pub data MessageType : Type 0 where
  query response : MessageType

pub record Types : Type 1 where
  pub Name : Type 0
  pub RecordType : Type 0
  pub DnsClass : Type 0
  pub Query : Type 0
  pub Record : Type 0
  pub RData : Type 0
  pub Edns : Type 0
  pub EdnsOption : Type 0
  pub ClientSubnet : Type 0
  pub OpCode : Type 0
  pub ResponseCode : Type 0

pub record View (T : Types) : Type 0 where
  pub id : ℕ
  pub message_type : MessageType
  pub op_code : T.OpCode
  pub recursion_desired : Bool
  pub response_code : T.ResponseCode
  pub queries : List T.Query
  pub answers : List T.Record
  pub name_servers : List T.Record
  pub additionals : List T.Record
  pub extensions : Option T.Edns

pub record Dns : Type 1 where
  pub types : Types
  pub open types use *
  pub Message : Type 0
  pub view : Message → View types
  -- Questions, and the equality of what a cache key holds.
  pub query_name : Query → Name
  pub query_type : Query → RecordType
  pub query_class : Query → DnsClass
  pub to_utf8 : Name → Text
  pub name_eq : Name → Name → Bool
  pub name_Equality : Equality name_eq
  pub type_eq : RecordType → RecordType → Bool
  pub type_Equality : Equality type_eq
  pub class_eq : DnsClass → DnsClass → Bool
  pub class_Equality : Equality class_eq
  pub type_a : RecordType
  pub type_aaaa : RecordType
  -- EDNS: `option` is `edns.option(EdnsCode::Subnet)`, `as_subnet` the pattern
  -- `EdnsOption::Subnet(_)`, and `insert_subnet` inserts such an option.
  pub new_edns : Edns
  pub dnssec_ok : Edns → Bool
  pub option : Edns → Option EdnsOption
  pub as_subnet : EdnsOption → Option ClientSubnet
  pub subnet : ClientSubnet → EdnsOption
  pub subnet_bytes : ClientSubnet → Option (List ℕ)
  -- `ClientSubnet::new(address, source_prefix, scope_prefix)`
  pub new_subnet : IpAddr → ℕ → ℕ → ClientSubnet
  pub insert_subnet : ClientSubnet → Edns → Edns
  pub as_subnet-subnet : (s : ClientSubnet) → as_subnet (subnet s) ≡ some s
  pub option-insert_subnet :
      (s : ClientSubnet) (e : Edns) → option (insert_subnet s e) ≡ some (subnet s)
  pub dnssec_ok-insert_subnet :
      (s : ClientSubnet) (e : Edns) → dnssec_ok (insert_subnet s e) ≡ dnssec_ok e
  -- Resource records.
  pub from_rdata : Name → ℕ → RData → Record
  pub rdata_a : ℕ → RData
  pub rdata_aaaa : ℕ → RData
  -- `SOA::new(mname, rname, serial, refresh, retry, expire, minimum)`
  pub rdata_soa : Name → Name → ℕ → ℕ → ℕ → ℕ → ℕ → RData
  -- `Name::from_ascii` on a text that is a valid name.
  pub from_ascii : Text → Name
  pub ttl : Record → ℕ
  pub rdata : Record → RData
  pub set_ttl : ℕ → Record → Record
  pub ttl-set_ttl : (n : ℕ) (r : Record) → ttl (set_ttl n r) ≡ n
  pub rdata-set_ttl : (n : ℕ) (r : Record) → rdata (set_ttl n r) ≡ rdata r
  pub ttl-from_rdata : (m : Name) (n : ℕ) (d : RData) → ttl (from_rdata m n d) ≡ n
  pub rdata-from_rdata : (m : Name) (n : ℕ) (d : RData) → rdata (from_rdata m n d) ≡ d
  -- Messages.
  pub no_error : ResponseCode
  pub form_err : ResponseCode
  pub serv_fail : ResponseCode
  pub nx_domain : ResponseCode
  pub new_message : Message
  pub set_id : ℕ → Message → Message
  pub set_message_type : MessageType → Message → Message
  pub set_op_code : OpCode → Message → Message
  pub set_recursion_desired : Bool → Message → Message
  pub set_response_code : ResponseCode → Message → Message
  pub set_edns : Edns → Message → Message
  pub add_answer : Record → Message → Message
  pub add_name_server : Record → Message → Message
  -- Assignment through `answers_mut()` and its kin.
  pub put_answers : List Record → Message → Message
  pub put_name_servers : List Record → Message → Message
  pub put_additionals : List Record → Message → Message
  -- The wire format, or the error's text.
  pub to_bytes : Message → Result Text (List ℕ)
  pub new_message_queries : (view new_message).queries ≡ []
  pub new_message_answers : (view new_message).answers ≡ []
  pub new_message_name_servers : (view new_message).name_servers ≡ []
  pub new_message_additionals : (view new_message).additionals ≡ []
  pub new_message_extensions : (view new_message).extensions ≡ none
  pub set_id_view : (x : ℕ) (m : Message) → view (set_id x m) ≡ record (view m) { id = x }
  pub set_message_type_view :
      (x : MessageType) (m : Message)
      → view (set_message_type x m) ≡ record (view m) { message_type = x }
  pub set_op_code_view :
      (x : OpCode) (m : Message) → view (set_op_code x m) ≡ record (view m) { op_code = x }
  pub set_recursion_desired_view :
      (x : Bool) (m : Message)
      → view (set_recursion_desired x m) ≡ record (view m) { recursion_desired = x }
  pub set_response_code_view :
      (x : ResponseCode) (m : Message)
      → view (set_response_code x m) ≡ record (view m) { response_code = x }
  pub set_edns_view :
      (x : Edns) (m : Message) → view (set_edns x m) ≡ record (view m) { extensions = some x }
  pub add_answer_view :
      (x : Record) (m : Message)
      → view (add_answer x m) ≡ record (view m) { answers = (view m).answers ++ (x ∷ []) }
  pub add_name_server_view :
      (x : Record) (m : Message)
      → view (add_name_server x m)
        ≡ record (view m) { name_servers = (view m).name_servers ++ (x ∷ []) }
  pub put_answers_view :
      (x : List Record) (m : Message) → view (put_answers x m) ≡ record (view m) { answers = x }
  pub put_name_servers_view :
      (x : List Record) (m : Message)
      → view (put_name_servers x m) ≡ record (view m) { name_servers = x }
  pub put_additionals_view :
      (x : List Record) (m : Message)
      → view (put_additionals x m) ≡ record (view m) { additionals = x }
