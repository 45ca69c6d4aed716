-- ===== src/Floats/Exact.antt =====
-- Numbers that meet the assumptions on floats, to run the model with: whole numbers, a quotient
-- rounded down, and the identity for the logarithm.
use fcam_gateway.Prelude.{ℕ, ◌+◌, ◌*◌, ◌/◌, ◌≤◌, ◌≡◌, true, false, leb, ltb, arith}
use native.Mathlib.Nat.{mul-le-mul_left}
use fcam_gateway.Floats.{Floats}

pub ltb-leb : (a b : ℕ) → ltb a b ≡ true → leb a b ≡ true
ltb-leb a b h = ground arith

pub leb-not_ltb : (a b : ℕ) → leb a b ≡ true → ltb b a ≡ false
leb-not_ltb a b h = ground arith

pub not_ltb-leb : (a b : ℕ) → leb a a ≡ true → leb b b ≡ true → ltb a b ≡ false → leb b a ≡ true
not_ltb-leb a b h k l = ground arith

pub no_nan : (a b : ℕ) → leb a a ≡ false → (ltb a b ≡ false) × (ltb b a ≡ false)
no_nan a b h = ground arith

pub mul-le_left :
    (a b : ℕ) → leb 0 a ≡ true → ltb 0 b ≡ true → leb b 1 ≡ true → leb (a * b) a ≡ true
mul-le_left a b h p k =
    let e : b ≤ 1 = ground arith in let m : a * b ≤ a * 1 = mul-le-mul_left a e in ground arith

pub leb_of_le : (m n : ℕ) → m ≤ n → leb m n ≡ true
leb_of_le m n h = ground arith

pub zero_leb : (n : ℕ) → leb 0 n ≡ true
zero_leb n = ground arith

abbrev pub exact : Floats
exact = record {
  Float = ℕ;
  of_ℕ = λ n. n;
  lit = λ n d. n / d;
  seconds = λ n. n / 1000000;
  le = leb;
  lt = ltb;
  add = ◌+◌;
  mul = ◌*◌;
  div = ◌/◌;
  log1p = λ n. n;
  half_pow = λ n. 1;
  lt_le = ltb-leb;
  le-not_lt = leb-not_ltb;
  not_lt-le = not_ltb-leb;
  nan-not_lt = no_nan;
  of_ℕ_mono = leb_of_le;
  lit_nonneg = λ n d. zero_leb (n / d);
  mul-le_left = mul-le_left;
}
