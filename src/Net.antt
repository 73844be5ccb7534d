-- ===== src/Net.antt =====
-- `std::net`: IP addresses as numbers of 32 and 128 bits, and socket addresses.
use dotdns.Prelude.{ℕ, ◌≡◌, Bool, true, false, ◌==◌, ◌&&◌, arith}
use dotdns.Map.{Equality}

pub data IpAddr : Type 0 where
  v4 : ℕ → IpAddr
  v6 : ℕ → IpAddr

unfoldable pub ip_eq : IpAddr → IpAddr → Bool
ip_eq (v4 a) (v4 b) = a == b
ip_eq (v6 a) (v6 b) = a == b
ip_eq _ _ = false

ip_eq_sound : (a b : IpAddr) → ip_eq a b ≡ true → a ≡ b
unfolding ip_eq
ip_eq_sound (v4 a) (v4 b) h = ground arith
ip_eq_sound (v6 a) (v6 b) h = ground arith
ip_eq_sound (v4 a) (v6 b) h = cc
ip_eq_sound (v6 a) (v4 b) h = cc

ip_eq_refl : (a : IpAddr) → ip_eq a a ≡ true
unfolding ip_eq
ip_eq_refl (v4 a) = ground arith
ip_eq_refl (v6 a) = ground arith

pub ip_Equality : Equality ip_eq
ip_Equality = record {
  eq_refl = ip_eq_refl;
  eq_sym = λ a b h. rw (ip_eq_sound a b h) (ip_eq_refl b);
  eq_trans = λ a b c h k. rw (ip_eq_sound a b h) k;
}

pub record SocketAddr : Type 0 where
  pub ip : IpAddr
  pub port : ℕ

unfoldable pub addr_eq : SocketAddr → SocketAddr → Bool
addr_eq a b = ip_eq a.ip b.ip && a.port == b.port

addr_eq_sound : (a b : SocketAddr) → addr_eq a b ≡ true → a ≡ b
unfolding addr_eq
addr_eq_sound a b h = ground (arith, ip_eq_sound a.ip b.ip)

addr_eq_refl : (a : SocketAddr) → addr_eq a a ≡ true
unfolding addr_eq
addr_eq_refl a = ground (arith, ip_eq_refl a.ip)

pub addr_Equality : Equality addr_eq
addr_Equality = record {
  eq_refl = addr_eq_refl;
  eq_sym = λ a b h. rw (addr_eq_sound a b h) (addr_eq_refl b);
  eq_trans = λ a b c h k. rw (addr_eq_sound a b h) k;
}
