-- ===== src/Paging/Frame.antt =====
-- The page that page_lookup of kernel/mem/lookup.c makes of the entry it found.
use advanced_operating_syste.Paging.{sign_extend}
use advanced_operating_syste.Paging.Lookup.{page_behind, Found, lookup_result}
use advanced_operating_syste.Paging.State.{pa2page, page_addr, load64, user_lim}
use advanced_operating_syste.Paging.Lookup.{found_page}
use advanced_operating_syste.Buddy.State.{kernel_vma, Pages}
use advanced_operating_syste.Prelude.{
  if◌then◌else◌, leb, ltb, zero, ◌/◌, ◌==◌, false, ◌^◌, Bool-cases, Option, arith, inl, inr, none,
  refl, some, suc, true, ℕ, ◌%◌, ◌+◌, ◌-◌, ◌<◌, ◌≡◌,
}

-- The page number in an entry: its bits from 12 to 47.
abbrev pub page_number : ℕ → ℕ
page_number entry = entry / 4096 % 2 ^ 36

-- A page that has to be in the array of pages.
abbrev pub numbered : ℕ → ℕ → Option ℕ → Option Found
numbered npages page store = if ltb page npages then some (some page, store) else none

-- The page of an entry at `entry` with the value `value`. Without a store, or with NULL in it, an
-- address in the kernel's half stands for the physical one; otherwise the store takes `entry`.
abbrev pub page_of_entry : ℕ → Option ℕ → ℕ → ℕ → Option Found
page_of_entry npages none entry value = numbered npages (page_number value % 2 ^ 35) none
page_of_entry npages (some zero) entry value =
    numbered npages (page_number value % 2 ^ 35) (some zero)
page_of_entry npages (some (suc old)) entry value = numbered npages (page_number value) (some entry)

-- The page that a translation stands for.
abbrev pub found_at : Pages → Option ℕ → Option (Option ℕ) → Option Found
found_at s store none = none
found_at s store (some none) = some (none, store)
found_at s store (some (some entry)) = page_of_entry s.npages store entry (load64 s.memory entry)

-- What page_lookup makes of the value of an entry, in any of the three ways.
kernel_half :
    (npages value : ℕ)
    → (store : Option ℕ)
    → found_page (page_behind npages (sign_extend (page_addr value))) store
      ≡ numbered npages (page_number value % 2 ^ 35) store
kernel_half npages value store = elim (Bool-cases (ltb (page_addr value) user_lim)) [
  | inl low ↦
      let user : leb kernel_vma (page_addr value) ≡ false = ground arith in
      let same : page_addr value / 4096 ≡ page_number value % 2 ^ 35 = ground arith in
      rw (low, user) (place (page_addr value) (page_number value % 2 ^ 35) same)
  | inr high ↦
      let sum : ℕ = page_addr value % 2 ^ 48 + 0xffff000000000000 in
      let kernel : leb kernel_vma sum ≡ true = ground arith in
      let above : ltb sum kernel_vma ≡ false = ground arith in
      let same : (sum - kernel_vma) / 4096 ≡ page_number value % 2 ^ 35 = ground arith in
      rw (high, kernel, above) (place (sum - kernel_vma) (page_number value % 2 ^ 35) same)
]
  where
    place :
        (pa page : ℕ)
        → pa / 4096 ≡ page
        → found_page (pa2page npages pa) store ≡ numbered npages page store
    place pa page same = elim (Bool-cases (leb npages (pa / 4096))) [
      | inl out ↦ let past : ltb page npages ≡ false = ground arith in rw (out, past) refl
      | inr fits ↦
          let before : ltb page npages ≡ true = ground arith in rw (fits, before, same) refl
    ]

any_half :
    (npages value : ℕ)
    → npages < 2 ^ 31
    → (store : Option ℕ)
    → found_page (pa2page npages (sign_extend (page_addr value))) store
      ≡ numbered npages (page_number value) store
any_half npages value small store = elim (Bool-cases (ltb (page_addr value) user_lim)) [
  | inl low ↦
      let same : page_addr value / 4096 ≡ page_number value = ground arith in
      rw low (elim (Bool-cases (leb npages (page_addr value / 4096))) [
        | inl out ↦
            let past : ltb (page_number value) npages ≡ false = ground arith in rw (out, past) refl
        | inr fits ↦
            let before : ltb (page_number value) npages ≡ true = ground arith in
            rw (fits, before, same) refl
      ])
  | inr high ↦
      let sum : ℕ = page_addr value % 2 ^ 48 + 0xffff000000000000 in
      let out : leb npages (sum / 4096) ≡ true = ground (arith, small) in
      let past : ltb (page_number value) npages ≡ false = ground (arith, small) in
      rw (high, out, past) refl
]

pub lookup_result-page_of_entry :
    (s : Pages) (entry : ℕ) (store : Option ℕ)
    → s.npages < 2 ^ 31
    → 0 < entry
    → lookup_result s entry store ≡ page_of_entry s.npages store entry (load64 s.memory entry)
unfolding lookup_result
lookup_result-page_of_entry s entry none small real =
    let away : (entry == 0) ≡ false = ground arith in
    rw away (kernel_half s.npages (load64 s.memory entry) none)
lookup_result-page_of_entry s entry (some zero) small real =
    let away : (entry == 0) ≡ false = ground arith in
    rw away (kernel_half s.npages (load64 s.memory entry) (some zero))
lookup_result-page_of_entry s entry (some (suc old)) small real =
    let away : (entry == 0) ≡ false = ground arith in
    let given : (suc old == 0) ≡ false = ground arith in
    rw (away, given) (any_half s.npages (load64 s.memory entry) small (some entry))
