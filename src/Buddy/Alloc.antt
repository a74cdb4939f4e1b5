-- ===== src/Buddy/Alloc.antt =====
-- page_alloc of kernel/mem/buddy.c.
use advanced_operating_syste.Buddy.Invariant.{
  span, free_in, pow_two_pos, IsApart, IsFreeLists, IsBuddy, IsHeld,
}
use advanced_operating_syste.Prelude.{
  Bool, Bool-cases, [], ap, inl, inr, none, ◌∙◌, ◌⊎◌, List, Option, arith, count, false,
  if◌then◌else◌, leb, not, refl, some, ℕ, ◌&&◌, ◌*◌, ◌+◌, ◌<◌, ◌^◌, ◌≡◌, ◌≤◌,
}
use advanced_operating_syste.LinkedList.Store.{Links}
use advanced_operating_syste.Str.Memory.{Memory, within}
use advanced_operating_syste.Str.Move.{memset, memset_lem}
use advanced_operating_syste.Buddy.{page_alloc, take_page, alloc_zero, buddy_find}
use advanced_operating_syste.Buddy.State.{
  Pages, update, update_self, page_index, page2pa, kernel_vma, page_size,
}
use advanced_operating_syste.Buddy.Hold.{relinked, list_del-Drops, IsAvailable}
use advanced_operating_syste.Buddy.Split.{SameData, IsAvailable-IsChunk}
use advanced_operating_syste.Buddy.Find.{Finds, buddy_find-Finds}

-- The `2 ^ k` pages from `page` on are one allocated chunk: marked used, inside the array, aligned,
-- and clear of every free chunk.
pub record IsAllocated (s : Pages) (lists : ℕ → List ℕ) (page k : ℕ) : Type 0 where
  pub used : s.pp_free page ≡ false
  pub order : s.pp_order page ≡ k
  pub aligned : (c : ℕ) × (page ≡ c * 2 ^ k)
  pub within : page + 2 ^ k ≤ s.npages
  pub unlisted : (j : ℕ) → j < 10 → count page (lists j) ≡ 0
  pub apart : IsApart lists page k

-- The memory behind `page` after an allocation.
abbrev pub zeroed_memory : ℕ → Pages → ℕ → Memory
zeroed_memory alloc_flags s page =
    if alloc_zero alloc_flags && not (s.pp_zero page)
    then memset (page2pa page + kernel_vma) 0 page_size s.memory
    else s.memory

abbrev taken : ℕ → Pages → ℕ → Links → Pages
taken alloc_flags s page g = record s {
  links = g;
  pp_free = update s.pp_free page false;
  memory = zeroed_memory alloc_flags s page;
}

module _ (alloc_flags : ℕ) (s : Pages) (lists : ℕ → List ℕ) (p k : ℕ) (g : Links) where
  taken-IsBuddy :
      IsHeld (relinked s g) lists p k
      → IsBuddy (taken alloc_flags s p g) lists × IsAllocated (taken alloc_flags s p g) lists p k
  taken-IsBuddy v = (
    record {
      lists_in_order = record {
        rings = o.rings;
        chunk = λ q j jb i.
            let c = o.chunk q j jb i in
            record {
              free = ground (arith, v.unlisted j jb, c.free);
              order = c.order;
              aligned = c.aligned;
              within = c.within;
            };
        apart = o.apart;
      };
      listed = λ q f. v.listed q (λ e. ground (arith, e)) (ground arith);
    },
    record {
      used = update_self s.pp_free p false;
      order = v.held.order;
      aligned = v.held.aligned;
      within = v.held.within;
      unlisted = v.unlisted;
      apart = v.held_apart;
    },
  )
    where
      o : IsFreeLists (relinked s g) lists
      o = v.lists_in_order

-- The byte at `a` after an allocation of `page`.
abbrev pub cleared : ℕ → Pages → ℕ → ℕ → ℕ
cleared alloc_flags s page a =
    if alloc_zero alloc_flags && not (s.pp_zero page)
    then (if within (page2pa page + kernel_vma) page_size a then 0 else s.memory a)
    else s.memory a

zeroed-cleared :
    (alloc_flags : ℕ) (s : Pages) (page a : ℕ)
    → zeroed_memory alloc_flags s page a ≡ cleared alloc_flags s page a
zeroed-cleared alloc_flags s page a =
    elim (Bool-cases (alloc_zero alloc_flags && not (s.pp_zero page))) [
      | inl e ↦ rw e (memset_lem page_size (page2pa page + kernel_vma) 0 s.memory a (omega arith))
      | inr n ↦ rw n refl
    ]

cleared-same :
    (alloc_flags : ℕ) (s t : Pages) (page a : ℕ)
    → SameData s t
    → cleared alloc_flags t page a ≡ cleared alloc_flags s page a
cleared-same alloc_flags s t page a same =
    let flag : t.pp_zero page ≡ s.pp_zero page = ap (λ (f : ℕ → Bool). f page) same.pp_zero in
    let byte : t.memory a ≡ s.memory a = ap (λ (f : ℕ → ℕ). f a) same.memory in rw (flag, byte) refl

-- What an allocation promises: no panic, the first page of a chunk of order `k` that was free, now
-- marked used and clear of all free chunks, the free lists in order with exactly the pages of that
-- chunk gone, and its memory cleared if that was asked for and the page is not known to be clear.
abbrev pub Allocates : Option (ℕ × Pages) → ℕ → Pages → ℕ → (Option ℕ → ℕ) → Type 0
Allocates run alloc_flags s k total =
    (page : ℕ) × (t : Pages) × (lists : ℕ → List ℕ) × (run ≡ some (page, t))
    × IsBuddy t lists
    × IsAllocated t lists page k
    × ((w : Option ℕ) → total w ≡ free_in lists w + span k page w)
    × (t.npages ≡ s.npages)
    × ((a : ℕ) → t.memory a ≡ cleared alloc_flags s page a)

take_page-Allocates :
    (alloc_flags : ℕ) (s : Pages) (p k : ℕ) (total : Option ℕ → ℕ)
    → IsAvailable s p k total
    → Allocates (take_page alloc_flags p s) alloc_flags s k total
unfolding take_page
take_page-Allocates alloc_flags s p k total a =
    let c = IsAvailable-IsChunk s p k total a in
    let (g, lists, ran, v, e, quiet) = list_del-Drops s p k total a in
    let (w, allocated) = taken-IsBuddy alloc_flags s lists p k g v in
    let index : page_index p ≡ p = omega arith in
    let inside : leb s.npages p ≡ false = ground (arith, c.within, pow_two_pos k) in
    (
      p,
      taken alloc_flags s p g,
      lists,
      elim (Bool-cases (alloc_zero alloc_flags && not (s.pp_zero p))) [
        | inl zero_it ↦ rw (c.free, index, inside, zero_it, ran) refl
        | inr leave_it ↦ rw (c.free, index, inside, leave_it, ran) refl
      ],
      w,
      allocated,
      e,
      refl,
      zeroed-cleared alloc_flags s p,
    )

-- With the free lists in order, `page_alloc` fails only when all of them are empty, and then it
-- panics. Otherwise it returns a single page (order 0, whatever the flags), which is marked used and
-- clear of all free chunks. The free lists stay in order, and what they held before is what they
-- hold now and that page: it was free, and it is the only page that they lose (`free_in` counts the
-- free chunks that hold a page, and all free pages). The page's memory is cleared where ALLOC_ZERO
-- asks for it and `pp_zero` is not set. No other byte changes.
pub page_alloc-Allocates :
    (alloc_flags : ℕ) (s : Pages) (lists : ℕ → List ℕ)
    → IsBuddy s lists
    → (((k : ℕ) → k < 10 → lists k ≡ []) × (page_alloc alloc_flags s ≡ none))
      ⊎ Allocates (page_alloc alloc_flags s) alloc_flags s 0 (free_in lists)
unfolding page_alloc
page_alloc-Allocates alloc_flags s lists v = go (buddy_find-Finds s lists 0 v (omega arith))
  where
    go :
        Finds (buddy_find 0 s) s lists 0 0
        → (((k : ℕ) → k < 10 → lists k ≡ []) × (page_alloc alloc_flags s ≡ none))
          ⊎ Allocates (page_alloc alloc_flags s) alloc_flags s 0 (free_in lists)
    go (inl (empty, ran)) = inl (λ k b. empty k (omega arith) b, rw ran refl)
    go (inr (p, t, ran, a, same)) =
        let (page, u, left, took, w, allocated, total, pages, bytes) =
          take_page-Allocates alloc_flags t p 0 (free_in lists) a in
        inr (
          page,
          u,
          left,
          rw ran took,
          w,
          allocated,
          total,
          pages ∙ same.npages,
          λ x. bytes x ∙ cleared-same alloc_flags s t page x same,
        )
