-- ===== src/Base/Int.antt =====
-- C's `int` as an integer. Results of system calls are compared with 0 and with the negated
-- error numbers of newlib's errno.h.
use Prim.Native.Nat.{ℕ}
use mathlib.Core.Bool.{Bool, true, false}
use repair_box_psx_hdd_setup.Base.Tests.{◌==◌}

-- `negsuc n` is -(n + 1).
pub data ℤ : Type 0 where
  pos : ℕ → ℤ
  negsuc : ℕ → ℤ

-- `value < 0`
abbrev pub is_negative : ℤ → Bool
is_negative (pos n) = false
is_negative (negsuc n) = true

-- `a == b`
infix 50 ◌==ℤ◌
abbrev pub ◌==ℤ◌ : ℤ → ℤ → Bool
pos a ==ℤ pos b = a == b
pos a ==ℤ negsuc b = false
negsuc a ==ℤ pos b = false
negsuc a ==ℤ negsuc b = a == b

-- Negated error numbers: EPERM 1, ENOENT 2, EIO 5, E2BIG 7, EBUSY 16, EISDIR 21, EINVAL 22,
-- EFBIG 27, ENAMETOOLONG 91, ELOOP 92, EILSEQ 138.
abbrev pub eperm : ℤ
eperm = negsuc 0

abbrev pub enoent : ℤ
enoent = negsuc 1

abbrev pub eio : ℤ
eio = negsuc 4

abbrev pub ebusy : ℤ
ebusy = negsuc 15

abbrev pub einval : ℤ
einval = negsuc 21

abbrev pub eloop : ℤ
eloop = negsuc 91

abbrev pub enametoolong : ℤ
enametoolong = negsuc 90

abbrev pub eisdir : ℤ
eisdir = negsuc 20

abbrev pub e2big : ℤ
e2big = negsuc 6

abbrev pub efbig : ℤ
efbig = negsuc 26

abbrev pub eilseq : ℤ
eilseq = negsuc 137
