-- ===== src/Paging/Translate.antt =====
-- page_lookup of kernel/mem/lookup.c against the translation of an address level by level.
use advanced_operating_syste.Paging.Frame.{lookup_result-page_of_entry, found_at}
use advanced_operating_syste.Paging.{
  page_dir_span, pdpt_span, pml4_walk_range, descend, page_table_span, pdir_walk_range,
  pdpt_walk_range, pml4e_step, walk_page_range, entry_of, call, Callback, walk_table, next_base,
  pte_step, dir_step, ptbl_walk_range,
}
use advanced_operating_syste.Paging.Lookup.{
  below, lookup_pde, lookup_reply, translate, lookup_result, page_lookup, next_in_page,
  translate_pt, lookup_pte, loop_once, lookup_walker, translate_dir,
}
use advanced_operating_syste.Paging.State.{
  page_addr, round_up, kaddr, round_down, is_huge, entry_at, load64, is_present, Reply, and_go_on,
  World, user_lim,
}
use advanced_operating_syste.Buddy.State.{kernel_vma, Pages, page_size}
use advanced_operating_syste.Prelude.{
  Bool, leb, ◌&&◌, ◌/◌, Option-cases, false, ◌^◌, Bool-cases, Option, ap, arith, inl, inr, none,
  refl, some, suc, true, ℕ, ◌%◌, ◌+◌, ◌-◌, ◌<◌, ◌∙◌, ◌≡◌, ◌≤◌,
}
use advanced_operating_syste.Prelude.Int.{pos}

-- The walk's reply for a translation.
abbrev replied : World ℕ → Option (Option ℕ) → Reply ℕ
replied w none = none
replied w (some none) = some (pos 0, w)
replied w (some (some entry)) = some (pos 0, record w { udata = entry })

replied-go_on :
    (w : World ℕ) (r : Option (Option ℕ))
    → and_go_on (replied w r) (λ w. some (pos 0, w)) ≡ replied w r
replied-go_on w none = refl
replied-go_on w (some none) = refl
replied-go_on w (some (some entry)) = refl

module _ (fuel va : ℕ) (aligned : va % 4096 ≡ 0) (inside : va + 4096 ≤ user_lim) (w : World ℕ) where
  once :
      (span : ℕ) (body : ℕ → ℕ → World ℕ → Reply ℕ) (end : ℕ) (r : Option (Option ℕ))
      → va < end
      → end ≤ va + 4095
      → next_base span va end ≡ end
      → body va end w ≡ replied w r
      → walk_table (suc (suc fuel)) span body va end w ≡ replied w r
  once span body end r l h e ran =
      loop_once fuel span body va end w l (omega (arith, h, inside)) e
      ∙ ap (λ (x : Reply ℕ). and_go_on x (λ w. some (pos 0, w))) ran
      ∙ replied-go_on w r

  ptbl_lookup :
      (ptbl end : ℕ)
      → va < end
      → end ≤ va + 4095
      → ptbl_walk_range (suc (suc fuel)) lookup_walker ptbl va end w
        ≡ replied w (translate_pt w.pages ptbl va)
  unfolding ptbl_walk_range pte_step lookup_walker lookup_pte
  ptbl_lookup ptbl end l h =
      once page_size (pte_step lookup_walker ptbl) end (translate_pt w.pages ptbl va) l h
        (next_in_page va end aligned l h inside).0
        (elim (Bool-cases (is_present (load64 w.pages.memory (entry_of ptbl page_size va)))) [
          | inl there ↦ rw (there, there) refl
          | inr hole ↦ rw (hole, hole) refl
        ])

  -- The table below a present entry.
  descend_lookup :
      (walk : ℕ → ℕ → ℕ → World ℕ → Reply ℕ) (next : ℕ → Option (Option ℕ)) (entry end : ℕ)
      → ((t : ℕ) → walk t va (end - 1) w ≡ replied w (next t))
      → descend walk none entry va end w ≡ replied w (below w.pages (entry_at w entry) next)
  descend_lookup walk next entry end lower =
      elim (Option-cases (kaddr w.pages.npages (page_addr (entry_at w entry)))) [
        | inl panics ↦ rw panics refl
        | inr (t, e) ↦ rw (e, lower t) (replied-go_on w (next t))
      ]

  dir_lookup :
      (walk : ℕ → ℕ → ℕ → World ℕ → Reply ℕ) (next : ℕ → Option (Option ℕ))
      (callback : Option (Callback ℕ)) (span table end : ℕ)
      → ((entry base end : ℕ) → call callback entry base end w ≡ some (pos 0, w))
      → ((t : ℕ) → walk t va (end - 1) w ≡ replied w (next t))
      → dir_step walk callback none none span table va end w
        ≡ replied w (translate_dir w.pages true span next table va)
  unfolding dir_step translate_dir
  dir_lookup walk next callback span table end quiet lower =
      let entry = entry_of table span va in
      rw (quiet entry va (end - 1)) (elim (Bool-cases (is_present (entry_at w entry))) [
        | inr hole ↦ rw hole refl
        | inl there ↦ elim (Bool-cases (is_huge (entry_at w entry))) [
          | inl huge ↦ rw (there, huge) refl
          | inr small ↦ rw (there, small) (descend_lookup walk next entry end lower)
        ]
      ])

  pml4_step_lookup :
      (walk : ℕ → ℕ → ℕ → World ℕ → Reply ℕ) (next : ℕ → Option (Option ℕ)) (table end : ℕ)
      → ((t : ℕ) → walk t va (end - 1) w ≡ replied w (next t))
      → pml4e_step walk lookup_walker table va end w
        ≡ replied w (translate_dir w.pages false pdpt_span next table va)
  unfolding pml4e_step translate_dir lookup_walker
  pml4_step_lookup walk next table end lower =
      let entry = entry_of table pdpt_span va in
      elim (Bool-cases (is_present (entry_at w entry))) [
        | inr hole ↦ rw hole refl
        | inl there ↦ rw there (descend_lookup walk next entry end lower)
      ]

  pdir_lookup :
      (pdir end : ℕ)
      → va + 1 < end
      → end ≤ va + 4095
      → pdir_walk_range (suc (suc fuel)) lookup_walker pdir va end w
        ≡ replied w
            (translate_dir w.pages true page_table_span (λ t. translate_pt w.pages t va) pdir va)
  unfolding pdir_walk_range lookup_walker
  pdir_lookup pdir end l h =
      once page_table_span
        (dir_step (ptbl_walk_range (suc (suc fuel)) lookup_walker) (some lookup_pde) none none
          page_table_span pdir)
        end (translate_dir w.pages true page_table_span (λ t. translate_pt w.pages t va) pdir va)
        (omega (arith, l)) h (next_in_page va end aligned (omega (arith, l)) h inside).1
        (dir_lookup (ptbl_walk_range (suc (suc fuel)) lookup_walker)
          (λ t. translate_pt w.pages t va) (some lookup_pde) page_table_span pdir end
          (λ entry a b. refl) (λ t. ptbl_lookup t (end - 1) (omega (arith, l)) (omega (arith, h))))

  abbrev translate_pdir : ℕ → Option (Option ℕ)
  translate_pdir pdir =
      translate_dir w.pages true page_table_span (λ t. translate_pt w.pages t va) pdir va

  pdpt_lookup :
      (pdpt end : ℕ)
      → va + 2 < end
      → end ≤ va + 4095
      → pdpt_walk_range (suc (suc fuel)) lookup_walker pdpt va end w
        ≡ replied w (translate_dir w.pages true page_dir_span translate_pdir pdpt va)
  unfolding pdpt_walk_range lookup_walker
  pdpt_lookup pdpt end l h =
      once page_dir_span
        (dir_step (pdir_walk_range (suc (suc fuel)) lookup_walker) none none none page_dir_span
          pdpt)
        end (translate_dir w.pages true page_dir_span translate_pdir pdpt va) (omega (arith, l)) h
        (next_in_page va end aligned (omega (arith, l)) h inside).2
        (dir_lookup (pdir_walk_range (suc (suc fuel)) lookup_walker) translate_pdir none
          page_dir_span pdpt end (λ entry a b. refl)
          (λ t. pdir_lookup t (end - 1) (omega (arith, l)) (omega (arith, h))))

  walk_lookup :
      (pml4 : ℕ)
      → walk_page_range (suc (suc fuel)) lookup_walker pml4 va (va + 4096) w
        ≡ replied w (translate w.pages pml4 va)
  unfolding walk_page_range pml4_walk_range translate
  walk_lookup pml4 =
      let first : round_down va page_size ≡ va = omega (arith, aligned) in
      let last : (round_up (va + 4096) page_size + (2 ^ 64 - 1)) % 2 ^ 64 ≡ va + 4095 =
        omega (arith, aligned, inside) in
      rw (first, last)
        (once pdpt_span
          (pml4e_step (pdpt_walk_range (suc (suc fuel)) lookup_walker) lookup_walker pml4)
          (va + 4095) (translate w.pages pml4 va) (omega arith) (omega arith)
          (next_in_page va (va + 4095) aligned (omega arith) (omega arith) inside).3
          (pml4_step_lookup (pdpt_walk_range (suc (suc fuel)) lookup_walker)
            (λ pdpt. translate_dir w.pages true page_dir_span translate_pdir pdpt va) pml4
            (va + 4095) (λ t. pdpt_lookup t (va + 4095 - 1) (omega arith) (omega arith))))

-- An entry that a translation gives is not at NULL.
abbrev Nonnull : Option (Option ℕ) → Type 0
Nonnull r = (entry : ℕ) → r ≡ some (some entry) → 0 < entry

below-Nonnull :
    (s : Pages) (entry : ℕ) (next : ℕ → Option (Option ℕ))
    → ((t : ℕ) → 0 < t → Nonnull (next t))
    → Nonnull (below s entry next)
below-Nonnull s entry next n e h = elim (Bool-cases (leb s.npages (page_addr entry / 4096))) [
  | inl out ↦ absurd (cc (rw out at h))
  | inr fits ↦ n (page_addr entry + kernel_vma) (omega arith) e (rw fits at h)
]

translate_dir-Nonnull :
    (s : Pages) (huge : Bool) (span : ℕ) (next : ℕ → Option (Option ℕ)) (table va : ℕ)
    → ((t : ℕ) → 0 < t → Nonnull (next t))
    → Nonnull (translate_dir s huge span next table va)
unfolding translate_dir
translate_dir-Nonnull s huge span next table va n e h =
    let entry = load64 s.memory (entry_of table span va) in
    elim (Bool-cases (is_present entry)) [
      | inr hole ↦ absurd (cc (rw hole at h))
      | inl there ↦ elim (Bool-cases (huge && is_huge entry)) [
        | inl big ↦ absurd (cc (rw (there, big) at h))
        | inr small ↦ below-Nonnull s entry next n e (rw (there, small) at h)
      ]
    ]

translate_pt-Nonnull : (s : Pages) (table va : ℕ) → 0 < table → Nonnull (translate_pt s table va)
translate_pt-Nonnull s table va t e h =
    elim (Bool-cases (is_present (load64 s.memory (entry_of table page_size va)))) [
      | inr hole ↦ absurd (cc (rw hole at h))
      | inl there ↦
          let same : e ≡ entry_of table page_size va = cc (rw there at h) in omega (arith, same, t)
    ]

translate-Nonnull : (s : Pages) (pml4 va : ℕ) → Nonnull (translate s pml4 va)
unfolding translate
translate-Nonnull s pml4 va =
    let pt = λ (t : ℕ). translate_pt s t va in
    let dir = λ (t : ℕ). translate_dir s true page_table_span pt t va in
    translate_dir-Nonnull s false pdpt_span (λ t. translate_dir s true page_dir_span dir t va) pml4
      va
      (λ t _. translate_dir-Nonnull s true page_dir_span dir t va (λ t _.
        translate_dir-Nonnull s true page_table_span pt t va
          (λ t h. translate_pt-Nonnull s t va h)))

replied_result :
    (s : Pages) (store : Option ℕ) (r : Option ℕ)
    → s.npages < 2 ^ 31
    → Nonnull (some r)
    → lookup_reply store (replied (record { pages = s; udata = 0 }) (some r))
      ≡ found_at s store (some r)
unfolding lookup_result
replied_result s store none small real = refl
replied_result s store (some entry) small real =
    lookup_result-page_of_entry s entry store small (real entry refl)

-- `page_lookup` of a page-aligned user address, with less than 2 ^ 31 pages, is the translation of
-- the address level by level: it panics where a table lies outside memory, and gives NULL where a level
-- has no present entry or a huge page stands. Else it gives the page whose number the last entry
-- holds, and panics if there is no such page; a number in the kernel's half counts from there, unless
-- `entry_store` is given and does not point to NULL, when it points to the entry afterwards. The walk
-- ends with two rounds for each level.
pub page_lookup-translate :
    (fuel : ℕ) (s : Pages) (pml4 va : ℕ) (store : Option ℕ)
    → va % 4096 ≡ 0
    → va + 4096 ≤ user_lim
    → s.npages < 2 ^ 31
    → page_lookup (suc (suc fuel)) pml4 va store s ≡ found_at s store (translate s pml4 va)
unfolding page_lookup
page_lookup-translate fuel s pml4 va store aligned inside small =
    let start : World ℕ = record { pages = s; udata = 0 } in
    let plain : (va + 4096) % 2 ^ 64 ≡ va + 4096 = omega arith in
    rw (plain, walk_lookup fuel va aligned inside start pml4)
      (elim (Option-cases (translate s pml4 va)) [
        | inl panics ↦ rw panics refl
        | inr (r, e) ↦
            rw e (replied_result s store r small (λ x h. translate-Nonnull s pml4 va x (e ∙ h)))
      ])
