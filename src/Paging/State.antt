-- ===== src/Paging/State.antt =====
-- What the page table walkers of kernel/mem work on: the allocator's state, whose memory holds the
-- page tables, and the walker's own data; and the macros of include/x86-64/paging.h, include/types.h
-- and include/kernel/mem/buddy.h. An access that panics ends in `none`.
use advanced_operating_syste.Prelude.Int.{pos, negsuc, ℤ}
use advanced_operating_syste.Buddy.State.{Pages, kernel_vma, page_size}
use advanced_operating_syste.Str.Memory.{Memory}
use advanced_operating_syste.Prelude.{
  Bool, Option, if◌then◌else◌, leb, ltb, none, some, ℕ, ◌%◌, ◌*◌, ◌+◌, ◌-◌, ◌/◌, ◌==◌, ◌^◌,
}

-- A walker's `udata` stands beside the pages. Physical memory appears from KERNEL_VMA on.
pub record World (A : Type 0) : Type 0 where
  pub pages : Pages
  pub udata : A

abbrev pub user_lim : ℕ
user_lim = 0x800000000000

-- `x & (1 << bit)`.
abbrev pub has_bit : ℕ → ℕ → Bool
has_bit bit x = (x / 2 ^ bit) % 2 == 1

-- PAGE_PRESENT and PAGE_HUGE.
abbrev pub is_present : ℕ → Bool
is_present entry = has_bit 0 entry

abbrev pub is_huge : ℕ → Bool
is_huge entry = has_bit 7 entry

-- PAGE_ADDR: `x & ~0xFFFF000000000FFF`.
abbrev pub page_addr : ℕ → ℕ
page_addr entry = (entry % 2 ^ 48) / page_size * page_size

-- KADDR and PADDR.
abbrev pub kaddr : ℕ → ℕ → Option ℕ
kaddr npages pa = if leb npages (pa / page_size) then none else some (pa + kernel_vma)

abbrev pub paddr : ℕ → Option ℕ
paddr kva = if ltb kva kernel_vma then none else some (kva - kernel_vma)

abbrev pub pa2page : ℕ → ℕ → Option ℕ
pa2page npages pa = if leb npages (pa / page_size) then none else some (pa / page_size)

abbrev pub round_down : ℕ → ℕ → ℕ
round_down a n = a - a % n

-- The addition wraps as `uintptr_t` does.
abbrev pub round_up : ℕ → ℕ → ℕ
round_up a n = round_down ((a + n + (2 ^ 64 - 1)) % 2 ^ 64) n

-- A `physaddr_t` in memory: eight bytes, the lowest first.
unfoldable pub load64 : Memory → ℕ → ℕ
load64 m a =
    m a
    + 2 ^ 8
      * (m (a + 1)
          + 2 ^ 8
            * (m (a + 2)
                + 2 ^ 8
                  * (m (a + 3)
                      + 2 ^ 8
                        * (m (a + 4)
                            + 2 ^ 8 * (m (a + 5) + 2 ^ 8 * (m (a + 6) + 2 ^ 8 * m (a + 7)))))))

-- `*entry`.
abbrev pub entry_at : {A : Type 0} → World A → ℕ → ℕ
entry_at w entry = load64 w.pages.memory entry

-- The result of a callback: an int, where a negative one stops the walk.
abbrev pub Reply : Type 0 → Type 0
Reply A = Option (ℤ × World A)

-- `if (ret < 0) return ret;`
abbrev pub and_go_on : {A : Type 0} → Reply A → (World A → Reply A) → Reply A
and_go_on none f = none
and_go_on (some (negsuc n, w)) f = some (negsuc n, w)
and_go_on (some (pos n, w)) f = f w
