-- ===== src/Ip/Addr.antt =====
-- `std::net::IpAddr`: four octets, or eight 16-bit segments.
use rust_whois.Prelude.{ℕ, ◌<◌}

pub record Ipv4 : Type 0 where
  pub o0 : ℕ
  pub o1 : ℕ
  pub o2 : ℕ
  pub o3 : ℕ

pub record Ipv6 : Type 0 where
  pub s0 : ℕ
  pub s1 : ℕ
  pub s2 : ℕ
  pub s3 : ℕ
  pub s4 : ℕ
  pub s5 : ℕ
  pub s6 : ℕ
  pub s7 : ℕ

pub data IpAddr : Type 0 where
  v4 : Ipv4 → IpAddr
  v6 : Ipv6 → IpAddr

-- The octets are bytes.
pub record IsBytes (a : Ipv4) : Type 0 where
  pub b0 : a.o0 < 256
  pub b1 : a.o1 < 256
  pub b2 : a.o2 < 256
  pub b3 : a.o3 < 256

-- The segments are 16-bit numbers.
pub record IsWords (a : Ipv6) : Type 0 where
  pub w0 : a.s0 < 65536
  pub w1 : a.s1 < 65536
  pub w2 : a.s2 < 65536
  pub w3 : a.s3 < 65536
  pub w4 : a.s4 < 65536
  pub w5 : a.s5 < 65536
  pub w6 : a.s6 < 65536
  pub w7 : a.s7 < 65536
