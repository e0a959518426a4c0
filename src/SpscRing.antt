-- ===== src/SpscRing.antt =====
-- firmware/include/spscring.h: the indices of the change log's ring, which run freely in 32 bits. A
-- capacity is a power of two, so the mask with `cap - 1` is the remainder.
pub mod Queue
pub mod Refine
use cardiag.Base.{
  Option, if◌then◌else◌, leb, ltb, none, some, sub32, suc, u32, zero, ℕ, ◌%◌, ◌*◌, ◌+◌, ◌/◌, ◌==◌,
}

-- `struct SpscRing`
pub record SpscRing : Type 0 where
  pub head : ℕ
  pub tail : ℕ
  pub cap : ℕ

-- The loop of `spscPow2Floor`; 32 doublings are enough for a 32-bit number.
unfoldable pub double_loop : ℕ → ℕ → ℕ → ℕ
double_loop zero n p = p
double_loop (suc fuel) n p =
    let rest = double_loop fuel n (p * 2) in if leb p (n / 2) then rest else p

-- `spscPow2Floor`
unfoldable pub spsc_pow2_floor : ℕ → ℕ
spsc_pow2_floor n = if n == 0 then 0 else double_loop 32 n 1

-- `spscInit`
unfoldable pub spsc_init : ℕ → SpscRing
spsc_init cap = record { head = 0; tail = 0; cap = spsc_pow2_floor cap }

-- `spscReserve`
unfoldable pub spsc_reserve : SpscRing → Option ℕ
spsc_reserve r =
    if r.cap == 0
    then none
    else if leb r.cap (sub32 r.head r.tail)
    then none
    else some (r.head % r.cap)

-- `spscPublish`
unfoldable pub spsc_publish : SpscRing → SpscRing
spsc_publish r = record r { head = u32 (r.head + 1) }

-- `spscCount`
abbrev pub spsc_count : SpscRing → ℕ
spsc_count r = sub32 r.head r.tail

-- `spscSlot`
abbrev pub spsc_slot : SpscRing → ℕ → ℕ
spsc_slot r i = u32 (r.tail + i) % r.cap

-- `spscConsume`, without the number that it returns.
unfoldable pub spsc_consume : SpscRing → ℕ → SpscRing
spsc_consume r n = record r {
  tail = u32 (r.tail + (if ltb (spsc_count r) n then spsc_count r else n));
}
