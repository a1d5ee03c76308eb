-- ===== src/Base/Integers.antt =====
-- Integers over the native numbers, for the signed fields, and their Boolean tests.
use Prim.Native.Nat.{ℕ}
use mathlib.Core.Path.{◌≡◌, ap}
use mathlib.Core.Bool.{Bool, true, false}
use native.Mathlib.Omega.{arith}
use tadori.Base.Tests.{ltb, ◌==◌, ==_iff}

-- `negsuc n` is the integer -(n + 1).
pub data ℤ : Type 0 where
  pos negsuc : ℕ → ℤ

abbrev pub int_ltb : ℤ → ℤ → Bool
int_ltb (pos a) (pos b) = ltb a b
int_ltb (pos a) (negsuc b) = false
int_ltb (negsuc a) (pos b) = true
int_ltb (negsuc a) (negsuc b) = ltb b a

abbrev pub int_eqb : ℤ → ℤ → Bool
int_eqb (pos a) (pos b) = a == b
int_eqb (pos a) (negsuc b) = false
int_eqb (negsuc a) (pos b) = false
int_eqb (negsuc a) (negsuc b) = a == b

-- `a` is at most `b`.
infix 50 ◌≤ℤ◌
abbrev pub ◌≤ℤ◌ : ℤ → ℤ → Type 0
a ≤ℤ b = int_ltb b a ≡ false

pub ≤ℤ_trans : (a b c : ℤ) → a ≤ℤ b → b ≤ℤ c → a ≤ℤ c
≤ℤ_trans (pos a) (pos b) (pos c) g h = ground arith
≤ℤ_trans (pos a) (pos b) (negsuc c) g h = ground arith
≤ℤ_trans (pos a) (negsuc b) c g h = absurd (ground arith)
≤ℤ_trans (negsuc a) (pos b) (pos c) g h = ground arith
≤ℤ_trans (negsuc a) (pos b) (negsuc c) g h = absurd (ground arith)
≤ℤ_trans (negsuc a) (negsuc b) (pos c) g h = ground arith
≤ℤ_trans (negsuc a) (negsuc b) (negsuc c) g h = ground arith

pub int_ltb→≤ℤ : (a b : ℤ) → int_ltb a b ≡ true → a ≤ℤ b
int_ltb→≤ℤ (pos a) (pos b) h = ground arith
int_ltb→≤ℤ (pos a) (negsuc b) h = ground arith
int_ltb→≤ℤ (negsuc a) (pos b) h = ground arith
int_ltb→≤ℤ (negsuc a) (negsuc b) h = ground arith

pub int_eqb→≡ : (a b : ℤ) → int_eqb a b ≡ true → a ≡ b
int_eqb→≡ (pos a) (pos b) h = ap pos ((==_iff a b).0 h)
int_eqb→≡ (pos a) (negsuc b) h = absurd (ground arith)
int_eqb→≡ (negsuc a) (pos b) h = absurd (ground arith)
int_eqb→≡ (negsuc a) (negsuc b) h = ap negsuc ((==_iff a b).0 h)

pub int_eqb_refl : (a : ℤ) → int_eqb a a ≡ true
int_eqb_refl (pos a) = ground arith
int_eqb_refl (negsuc a) = ground arith

pub int_eqb→≤ℤ : (a b : ℤ) → int_eqb a b ≡ true → b ≤ℤ a
int_eqb→≤ℤ (pos a) (pos b) h = ground arith
int_eqb→≤ℤ (pos a) (negsuc b) h = absurd (ground arith)
int_eqb→≤ℤ (negsuc a) (pos b) h = absurd (ground arith)
int_eqb→≤ℤ (negsuc a) (negsuc b) h = ground arith

-- What lies between two bounds that are equal is equal to them.
pub ≤ℤ_between : (a b c : ℤ) → a ≤ℤ b → b ≤ℤ c → int_eqb c a ≡ true → int_eqb b a ≡ true
≤ℤ_between (pos a) (pos b) (pos c) g h e = ground arith
≤ℤ_between (pos a) (pos b) (negsuc c) g h e = absurd (ground arith)
≤ℤ_between (pos a) (negsuc b) c g h e = absurd (ground arith)
≤ℤ_between (negsuc a) (pos b) (pos c) g h e = absurd (ground arith)
≤ℤ_between (negsuc a) (pos b) (negsuc c) g h e = absurd (ground arith)
≤ℤ_between (negsuc a) (negsuc b) (pos c) g h e = absurd (ground arith)
≤ℤ_between (negsuc a) (negsuc b) (negsuc c) g h e = ground arith
