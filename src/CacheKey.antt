-- ===== src/CacheKey.antt =====
-- src/cache.rs, `CacheKey`: what a cached answer is found by.
use dotdns.Prelude.{
  ap, sym, ◌∙◌, ◌≡◌, refl, Bool, true, false, not, ◌&&◌, List, [], ◌∷◌, Option, none, some, arith,
  ℕ,
}
use dotdns.Dns.{Dns}
use dotdns.Map.{Equality}
use dotdns.Text.{eq_text}
use dotdns.Text.Laws.{eq_text_refl, eq_text_sound}

module _ (D : Dns) where
  open D use {Message, view, Name, RecordType, DnsClass, Edns}

  pub record CacheKey : Type 0 where
    pub name : Name
    pub qtype : RecordType
    pub qclass : DnsClass
    pub rd : Bool
    pub do_bit : Bool
    pub ecs : Option (List ℕ)

  do_bit_of : Option Edns → Bool
  do_bit_of none = false
  do_bit_of (some e) = D.dnssec_ok e

  ecs_of : Option Edns → Option (List ℕ)
  ecs_of none = none
  ecs_of (some e) = elim (D.option e) [
    | none ↦ none
    | some o ↦ elim (D.as_subnet o) [ none ↦ none | some s ↦ D.subnet_bytes s ]
  ]

  key_of : Message → List D.Query → Option CacheKey
  unfolding do_bit_of ecs_of
  key_of msg [] = none
  key_of msg (q ∷ qs) = some (record {
    name = D.query_name q;
    qtype = D.query_type q;
    qclass = D.query_class q;
    rd = (view msg).recursion_desired;
    do_bit = do_bit_of (view msg).extensions;
    ecs = ecs_of (view msg).extensions;
  })

  unfoldable pub from_message : Message → Option CacheKey
  unfolding key_of
  from_message msg = key_of msg (view msg).queries

  eq_bool : Bool → Bool → Bool
  eq_bool true b = b
  eq_bool false b = not b

  eq_ecs : Option (List ℕ) → Option (List ℕ) → Bool
  eq_ecs none none = true
  eq_ecs (some a) (some b) = eq_text a b
  eq_ecs _ _ = false

  -- The derived `PartialEq`.
  unfoldable pub key_eq : CacheKey → CacheKey → Bool
  unfolding eq_bool eq_ecs
  key_eq a b =
      D.name_eq a.name b.name
      && D.type_eq a.qtype b.qtype
      && D.class_eq a.qclass b.qclass
      && eq_bool a.rd b.rd
      && eq_bool a.do_bit b.do_bit
      && eq_ecs a.ecs b.ecs

  eq_bool_sound : (a b : Bool) → eq_bool a b ≡ true → a ≡ b
  unfolding eq_bool
  eq_bool_sound true true h = refl
  eq_bool_sound true false h = cc
  eq_bool_sound false true h = cc
  eq_bool_sound false false h = refl

  eq_bool_refl : (a : Bool) → eq_bool a a ≡ true
  unfolding eq_bool
  eq_bool_refl true = refl
  eq_bool_refl false = refl

  eq_ecs_sound : (a b : Option (List ℕ)) → eq_ecs a b ≡ true → a ≡ b
  unfolding eq_ecs
  eq_ecs_sound none none h = refl
  eq_ecs_sound none (some b) h = cc
  eq_ecs_sound (some a) none h = cc
  eq_ecs_sound (some a) (some b) h = ap some (eq_text_sound a b h)

  eq_ecs_refl : (a : Option (List ℕ)) → eq_ecs a a ≡ true
  unfolding eq_ecs
  eq_ecs_refl none = refl
  eq_ecs_refl (some a) = eq_text_refl a

  -- What two equal keys share, part by part.
  record Same (a b : CacheKey) : Type 0 where
    same_name : D.name_eq a.name b.name ≡ true
    same_type : D.type_eq a.qtype b.qtype ≡ true
    same_class : D.class_eq a.qclass b.qclass ≡ true
    same_rd : a.rd ≡ b.rd
    same_do : a.do_bit ≡ b.do_bit
    same_ecs : a.ecs ≡ b.ecs

  key_eq-Same : (a b : CacheKey) → key_eq a b ≡ true → Same a b
  unfolding key_eq
  key_eq-Same a b h = record {
    same_name = ground arith;
    same_type = ground arith;
    same_class = ground arith;
    same_rd = eq_bool_sound a.rd b.rd (ground arith);
    same_do = eq_bool_sound a.do_bit b.do_bit (ground arith);
    same_ecs = eq_ecs_sound a.ecs b.ecs (ground arith);
  }

  Same-key_eq : (a b : CacheKey) → Same a b → key_eq a b ≡ true
  unfolding key_eq
  Same-key_eq a b s =
      rw (s.same_name, s.same_type, s.same_class, s.same_rd, s.same_do, s.same_ecs)
        (rw (eq_bool_refl b.rd, eq_bool_refl b.do_bit, eq_ecs_refl b.ecs))

  -- Key equality is an equivalence, as the hash map needs, since the equalities of its parts are.
  pub key_Equality : Equality key_eq
  key_Equality = record {
    eq_refl = λ a. Same-key_eq a a (record {
      same_name = D.name_Equality.eq_refl a.name;
      same_type = D.type_Equality.eq_refl a.qtype;
      same_class = D.class_Equality.eq_refl a.qclass;
      same_rd = refl;
      same_do = refl;
      same_ecs = refl;
    });
    eq_sym = λ a b h.
        let s = key_eq-Same a b h in
        Same-key_eq b a (record {
          same_name = D.name_Equality.eq_sym a.name b.name s.same_name;
          same_type = D.type_Equality.eq_sym a.qtype b.qtype s.same_type;
          same_class = D.class_Equality.eq_sym a.qclass b.qclass s.same_class;
          same_rd = sym s.same_rd;
          same_do = sym s.same_do;
          same_ecs = sym s.same_ecs;
        });
    eq_trans = λ a b c h k.
        let s = key_eq-Same a b h in
        let t = key_eq-Same b c k in
        Same-key_eq a c (record {
          same_name = D.name_Equality.eq_trans a.name b.name c.name s.same_name t.same_name;
          same_type = D.type_Equality.eq_trans a.qtype b.qtype c.qtype s.same_type t.same_type;
          same_class =
              D.class_Equality.eq_trans a.qclass b.qclass c.qclass s.same_class t.same_class;
          same_rd = s.same_rd ∙ t.same_rd;
          same_do = s.same_do ∙ t.same_do;
          same_ecs = s.same_ecs ∙ t.same_ecs;
        });
  }
