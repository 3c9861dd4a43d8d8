-- ===== src/Memory/Tests.antt =====
-- Examples for the page map of os/memory.c.
use ece695os_lab.Prelude.{
  [], ◌∷◌, has, false, ◌/◌, ◌-◌, arith, ℕ, ◌≡◌, ◌+◌, ◌*◌, ◌^◌, refl, some, none, Option, ◌==◌,
  if◌then◌else◌,
}
use ece695os_lab.Memory.{
  Memory, module_init, alloc_page, free_page, free_pte, translate_user_to_system, setup_pte,
  pte_to_page, get_operand_address, page_size,
}
use ece695os_lab.Memory.Holders.{PagesReach, Shared, module_init-Shared}

abbrev empty : Memory
empty = record { pagestart = 0; freemapmax = 0; nfreepages = 0; freepages = λ i. 0; mapnum = 0 }

-- 40 pages, of which the system takes the first two.
abbrev fresh : Memory
fresh = module_init (40 * page_size) (page_size + 4) empty

module_init_count : fresh.nfreepages ≡ 38
unfolding module_init
module_init_count = refl

module_init_map : fresh.freepages 1 ≡ 0xff
unfolding module_init
module_init_map = refl

abbrev page_of : Option (ℕ × Memory) → ℕ
page_of none = 0
page_of (some (page, m)) = page

abbrev memory_of : Option (ℕ × Memory) → Memory
memory_of none = empty
memory_of (some (page, m)) = m

abbrev later : Memory
later = memory_of (alloc_page fresh)

fresh_alloc : alloc_page fresh ≡ some (2, later)
unfolding module_init alloc_page
fresh_alloc = refl

module_init-Shared_example :
    Shared later (2 ∷ []) ((page_size + 4 + page_size - 4) / page_size) (40 * page_size / page_size)
    × ((p : ℕ) × (m' : Memory) × (alloc_page later ≡ some (p, m')) × (has p (2 ∷ []) ≡ false))
module_init-Shared_example =
    module_init-Shared (40 * page_size) (page_size + 4) empty refl (omega arith) (omega arith)
      (omega arith) (PagesReach.alloc PagesReach.start fresh_alloc (λ e. absurd (omega arith)))

-- The lowest free page is handed out.
alloc_page_lowest : page_of (alloc_page fresh) ≡ 2
unfolding module_init alloc_page
alloc_page_lowest = refl

alloc_page_none : alloc_page empty ≡ some (0, empty)
unfolding alloc_page
alloc_page_none = refl

free_page_map : (free_page 33 empty).freepages 1 ≡ 2
unfolding free_page
free_page_map = refl

free_pte_map : (free_pte (33 * page_size + 3) empty).freepages 1 ≡ 2
unfolding free_pte
free_pte_map = refl

setup_pte_lem : setup_pte 5 ≡ 5 * page_size + 1
unfolding setup_pte
setup_pte_lem = refl

-- The result is an address, not a page number.
pte_to_page_lem : pte_to_page (5 * page_size + 1) ≡ 5 * page_size
unfolding pte_to_page
pte_to_page_lem = refl

translate_lem :
    translate_user_to_system 2 (λ i. 7 * page_size + 1) (page_size + 12) ≡ 7 * page_size + 12
unfolding translate_user_to_system
translate_lem = refl

-- `lw r2, -4(r3)` with 100 in r3.
get_operand_address_lem :
    get_operand_address
      (λ i. if i == 13 then 100 else 0)
      (0x23 * 2 ^ 26 + 3 * 2 ^ 21 + 2 * 2 ^ 16 + 0xfffc)
    ≡ 96
unfolding get_operand_address
get_operand_address_lem = refl
