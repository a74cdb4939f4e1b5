-- ===== src/Lib.antt =====
-- A verification library of the kernel: models of its C code, and the theorems that make it
-- correct.
--
-- Parts and files. Each model stands next to the code by name: a C function `f` is the definition
-- `f`, a struct is a record with the fields' names, a loop of `f` is a definition of its own.
--
-- LinkedList models lib/list.c and include/list.h, the circular doubly linked list under every
-- other part. `Links` is a store of `next` and `prev` fields over node addresses; an operation is
-- a function of the store that ends in `none` where the C code would follow NULL. Chain defines
-- what a well linked ring is, Insert, Delete and Walk prove the operations.
--
-- Str models lib/string.c, over a memory of bytes. Scan, Move, Compare, Copy and Number follow the
-- groups of functions. memset and memmove are the C loops (the branch without inline
-- assembly).
--
-- Buddy models kernel/mem/buddy.c, with struct page_info of include/paging.h, the address
-- functions of include/kernel/mem/buddy.h and remove_swap_page of kernel/dev/swap_util.c. `Pages`
-- is the state: the fields of the page array, its length, the list nodes and the memory behind the
-- pages. Failed assertions, panics and accesses outside the array end in `none`. State lays out
-- the list nodes, Rings and Invariant say what holds between calls (`IsBuddy`: the free list of
-- each order is well linked, holds aligned free chunks of that order inside the array, no two
-- chunks meet, and every page marked free heads a chunk on its list), Hold, Remove and Place take
-- chunks off lists and put them back, and Split, Find, Alloc, Pair, Merge, Join, Partner, Climb, Idle,
-- Free, Decref and Count follow the functions.
--
-- Vma models find_vma and task_find_vma of kernel/vma/find.c, and insert_vma of
-- kernel/vma/insert.c. Tree says what a search tree of disjoint areas is, Find and Owner prove the
-- lookup, Place, Order and Insert the part of insert_vma before the balancing, over a store of tree
-- nodes. Space puts the descent together with the balanced tree of Rbtree and the sorted list of
-- LinkedList; Sorted is about the order of the areas, Descent, Hang and Enlist follow the steps of
-- insert_vma, and Whole proves it.
--
-- Rbtree models lib/rbtree.c and include/rbtree.h over a store of nodes with parent pointers
-- (Store); Remove has the functions that take nodes out. Tree says when nodes hang together as a
-- tree, and what stands around a subtree; Rotate and Turn prove the rotation, Colors defines
-- red-black trees, Mend, Lined, Bent, Straighten and Round follow the branches of the loop of
-- rb_balance, Plug, Loop and Rounds put the rounds together, and Balance proves the function.
--
-- Paging models kernel/mem/walk.c and kernel/mem/lookup.c: the walk over the four levels of page
-- tables, which lie in the memory of the allocator's state, with the callbacks of struct
-- page_walker as functions of the state, and page_lookup. The loop that the four walks share is
-- one definition, and so is the body that pdir_walk_range and pdpt_walk_range share. State has the
-- macros on addresses and entries, Ranges proves which ranges a walk's rounds get, Frame
-- says which page an entry stands for, and Translate proves the lookup.
--
-- Spinlock models kernel/spinlock.c as the steps of any number of CPUs on one lock, in any order. The
-- message of a panic, which reads the number of the owner, is left out.
--
-- Sched models the run queues of kernel/sched: sched.c, sched_util.c and the counters of
-- task_util.c, over the lists of LinkedList. A task is the address of its list node. Transfer and
-- Migrate follow a task from one queue to another, Balance proves the load balancing, NextQueue
-- the splice of the next queue into the run queue, and Try and Yield that sched_yield finds a
-- task.
--
-- Slab models kernel/mem/slab.c and kernel/mem/kmem.c over the lists of LinkedList; a list node
-- stands at the address of its field. What it asks of the memory behind is the record PageOps of
-- State; Pages fills it from Buddy and Paging. Trio is about the three rings that an operation
-- works on, Take proves slab_alloc, Held and Free prove slab_free.
--
-- Format models lib/printfmt.c: the interpreter of format strings as a step function on a cursor
-- (the format that is left, the arguments that are left, and the flags at `reswitch`), its
-- conversions in Print, and vsnprintf in Buffer. The calls of `putch` are a list of characters.
-- Digits proves printnum, RoundTrip reads its text back by strtol, and Pieces proves what a format
-- of Spec prints.
--
-- Prelude holds the names, tests and list functions that the parts share.
--
-- How the parts meet. The buddy allocator calls the list functions on its free lists, its swap list
-- and its list of pages to be zeroed, through `on_links`; its proofs use the list theorems only
-- (Rings), and frame what the other lists keep. page_alloc clears pages with the memset of Str.
-- insert_vma balances the tree by rb_balance, and its proof uses the theorem of Rbtree and those of the
-- lists. The page table walks read the memory behind the allocator's pages. The slabs take their pages
-- through PageOps, and their theorems hold for any filling of it; that slab_free finds the page of an
-- empty slab and can free it is a hypothesis.
--
-- Numbers. Addresses, sizes and page indices are natural numbers; where buddy.c keeps a page index in
-- an int, the array is taken to have less than 2 ^ 31 pages. `pp_ref` keeps its 16 bits,
-- `pp_order` its 7 and the counts of pages their 64; a subtraction that would wrap in an index is
-- an explicit check. memset counts in an int of 32 bits; the other string functions are taken to
-- work on less than 2 ^ 31 bytes, and so is the count of vsnprintf. The theorems on strcat, vsnprintf,
-- page_lookup, sched_yield and the count of free pages have the bounds they need as hypotheses.
--
-- Fuel. A loop or recursion that is not structural takes fuel and ends in `none` without it; each
-- theorem about it gives an amount that is enough: the length of the list for the walks over
-- lists, the ten orders for buddy_split and buddy_merge, the number of nodes for descents in a
-- tree and the nodes above the new one for rb_balance, the length of a string for the string
-- functions, two rounds more than whole spans for each level of a page table walk, 64 calls for
-- printnum, the length of a format for vprintfmt, and the number of tasks for the run queues.
--
-- Not modelled. The locks around the buddy operations are left out of Buddy: its operations run
-- one after the other. Of the allocator, buddy_migrate and buddy_map_chunk, which fill the lists
-- at start-up, and the functions that print. Of the areas, all that builds on insert_vma.
-- Of rb_remove, no theorem: it does not keep a red-black tree. Of the page tables, the callbacks
-- that change entries. Of the scheduler, the tasks behind the queues (their states, PIDs and
-- zombies). Of the slabs, no theorem about a new slab (slab_alloc_chunk). Swapping is left out;
-- drivers, interrupt controllers, the boot code and the console are device input and output.
pub mod Prelude
pub mod LinkedList
pub mod Str
pub mod Buddy
pub mod Vma
pub mod Paging
pub mod Format
pub mod Spinlock
pub mod Sched
pub mod Slab
pub mod Rbtree
