-- ===== src/Samples.antt =====
-- Concrete messages: an instance of the interface of `Dns` whose messages are what `view` shows, with
-- names as texts and codes as numbers. The tests run the program's operations on it.
use dotdns.Prelude.{ℕ, refl, Bool, true, false, [], ◌∷◌, ◌++◌, Option, none, some, ok, ◌==◌, arith}
use dotdns.Dns.{Types, View, Dns, MessageType}
use dotdns.Map.{Equality}
use dotdns.Net.{IpAddr}
use dotdns.Text.{Text, codes, eq_text}
use dotdns.Text.Laws.{text_Equality}

pub data RData : Type 0 where
  a aaaa : ℕ → RData
  soa : Text → Text → ℕ → RData

-- The `DO` bit and the subnet option.
pub record Edns : Type 0 where
  pub dnssec_ok : Bool
  pub subnet : Option (IpAddr × ℕ × ℕ)

pub record Record : Type 0 where
  pub name : Text
  pub ttl : ℕ
  pub rdata : RData

abbrev pub types : Types
types = record {
  Name = Text;
  RecordType = ℕ;
  DnsClass = ℕ;
  Query = Text × ℕ × ℕ;
  Record = Record;
  RData = RData;
  Edns = Edns;
  EdnsOption = IpAddr × ℕ × ℕ;
  ClientSubnet = IpAddr × ℕ × ℕ;
  OpCode = ℕ;
  ResponseCode = ℕ;
}

pub num_Equality : Equality ◌==◌
num_Equality = record {
  eq_refl = λ n. ground arith;
  eq_sym = λ m n h. ground arith;
  eq_trans = λ m n k h g. ground arith;
}

abbrev pub empty_view : View types
empty_view = record {
  id = 0;
  message_type = MessageType.query;
  op_code = 0;
  recursion_desired = false;
  response_code = 0;
  queries = [];
  answers = [];
  name_servers = [];
  additionals = [];
  extensions = none;
}

abbrev pub sample : Dns
sample = record {
  types = types;
  Message = View types;
  view = λ m. m;
  query_name = λ q. q.0;
  query_type = λ q. q.1;
  query_class = λ q. q.2;
  to_utf8 = λ n. n;
  name_eq = eq_text;
  name_Equality = text_Equality;
  type_eq = ◌==◌;
  type_Equality = num_Equality;
  class_eq = ◌==◌;
  class_Equality = num_Equality;
  type_a = 1;
  type_aaaa = 28;
  new_edns = record { dnssec_ok = false; subnet = none };
  dnssec_ok = λ e. e.dnssec_ok;
  option = λ e. e.subnet;
  as_subnet = λ o. some o;
  subnet = λ s. s;
  subnet_bytes = λ s. some (s.1 ∷ []);
  new_subnet = λ ip p q. (ip, p, q);
  insert_subnet = λ s e. record e { subnet = some s };
  as_subnet-subnet = λ s. refl;
  option-insert_subnet = λ s e. refl;
  dnssec_ok-insert_subnet = λ s e. refl;
  from_rdata = λ n t d. record { name = n; ttl = t; rdata = d };
  rdata_a = RData.a;
  rdata_aaaa = RData.aaaa;
  rdata_soa = λ m r s f t e n. RData.soa m r n;
  from_ascii = λ t. t;
  ttl = λ r. r.ttl;
  rdata = λ r. r.rdata;
  set_ttl = λ n r. record r { ttl = n };
  ttl-set_ttl = λ n r. refl;
  rdata-set_ttl = λ n r. refl;
  ttl-from_rdata = λ m n d. refl;
  rdata-from_rdata = λ m n d. refl;
  no_error = 0;
  form_err = 1;
  serv_fail = 2;
  nx_domain = 3;
  new_message = empty_view;
  set_id = λ x m. record m { id = x };
  set_message_type = λ x m. record m { message_type = x };
  set_op_code = λ x m. record m { op_code = x };
  set_recursion_desired = λ x m. record m { recursion_desired = x };
  set_response_code = λ x m. record m { response_code = x };
  set_edns = λ x m. record m { extensions = some x };
  add_answer = λ x m. record m { answers = m.answers ++ (x ∷ []) };
  add_name_server = λ x m. record m { name_servers = m.name_servers ++ (x ∷ []) };
  put_answers = λ x m. record m { answers = x };
  put_name_servers = λ x m. record m { name_servers = x };
  put_additionals = λ x m. record m { additionals = x };
  to_bytes = λ m. ok (m.id ∷ []);
  new_message_queries = refl;
  new_message_answers = refl;
  new_message_name_servers = refl;
  new_message_additionals = refl;
  new_message_extensions = refl;
  set_id_view = λ x m. refl;
  set_message_type_view = λ x m. refl;
  set_op_code_view = λ x m. refl;
  set_recursion_desired_view = λ x m. refl;
  set_response_code_view = λ x m. refl;
  set_edns_view = λ x m. refl;
  add_answer_view = λ x m. refl;
  add_name_server_view = λ x m. refl;
  put_answers_view = λ x m. refl;
  put_name_servers_view = λ x m. refl;
  put_additionals_view = λ x m. refl;
}

-- The question `ads.example. A IN`, and an answer with a record that lives for 300 seconds.
abbrev pub question : View types
question = record empty_view {
  id = 7;
  recursion_desired = true;
  queries = (codes "ads.example.", 1, 1) ∷ [];
}

abbrev pub answer : View types
answer = record empty_view {
  message_type = MessageType.response;
  queries = question.queries;
  answers = record { name = codes "ads.example."; ttl = 300; rdata = RData.a 16909060 } ∷ [];
}
