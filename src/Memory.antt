-- ===== src/Memory.antt =====
-- The page map of os/memory.c: one bit for each page, in 32-bit words, and page table entries.
mod Tests
pub mod Copy
pub mod Bits
pub mod Masks
pub mod Pages
pub mod Alloc
pub mod Init
pub mod Holders
use Prim.Native.Nat.{bit_and, bit_or, bit_xor}
use ece695os_lab.Prelude.{
  ℕ, zero, suc, ◌+◌, ◌-◌, ◌*◌, ◌/◌, ◌%◌, ◌^◌, Option, none, some, ◌==◌, ltb, leb, if◌then◌else◌,
  update,
}

abbrev pub page_size : ℕ
page_size = 2 ^ 16

abbrev pub max_pages : ℕ
max_pages = 0x10000

abbrev pub pte_valid : ℕ
pte_valid = 1

-- `~(VALID | DIRTY | REFERENCED)`
abbrev pub pte_mask : ℕ
pte_mask = 0xfffffff8

-- The static variables of memory.c; `mapnum` is the static variable of `MemoryAllocPage`. Words and
-- `int`s are bit patterns below 2 ^ 32.
pub record Memory : Type 0 where
  pub pagestart : ℕ
  pub freemapmax : ℕ
  pub nfreepages : ℕ
  pub freepages : ℕ → ℕ
  pub mapnum : ℕ

abbrev pub invert : ℕ → ℕ
invert n = bit_xor n 0xffffffff

abbrev pub shift_left : ℕ → ℕ → ℕ
shift_left b k = b * 2 ^ k % 2 ^ 32

-- `MemorySetFreemap` at a page number that is not negative.
pub set_freemap : ℕ → ℕ → Memory → Memory
set_freemap p b m =
    let wd = p / 32 in
    let bitnum = p % 32 in
    record m {
      freepages =
          update m.freepages wd (
            bit_or (bit_and (m.freepages wd) (invert (shift_left 1 bitnum))) (shift_left b bitnum));
    }

-- The two loops of `MemoryModuleInit`, with the rounds that are left.
clear_map : ℕ → ℕ → Memory → Memory
clear_map zero i m = m
clear_map (suc k) i m = clear_map k (suc i) (record m { freepages = update m.freepages i 0 })

free_range : ℕ → ℕ → Memory → Memory
free_range zero page m = m
free_range (suc k) page m =
    free_range k (suc page)
      (set_freemap page 1 (record m { nfreepages = (m.nfreepages + 1) % 2 ^ 32 }))

-- `MemoryModuleInit`; the arguments are `MemoryGetSize ()` and `lastosaddress`.
pub module_init : ℕ → ℕ → Memory → Memory
unfolding clear_map free_range set_freemap
module_init size lastosaddress m =
    let maxpage = size / page_size in
    let start = (lastosaddress + page_size - 4) / page_size in
    let m1 = record m { pagestart = start; freemapmax = (maxpage + 31) / 32 } in
    let m2 = clear_map m1.freemapmax 0 m1 in
    free_range (maxpage - start) start (record m2 { nfreepages = 0 })

-- The search for a word with a free page, on fuel; `none` is a search that does not end.
pub find_word : ℕ → Memory → Option Memory
find_word zero m = none
find_word (suc fuel) m =
    let n = m.mapnum + 1 in
    let rest = find_word fuel (record m { mapnum = if leb m.freemapmax n then 0 else n }) in
    if m.freepages m.mapnum == 0 then rest else some m

-- The lowest bit of the word that is set, from `bitnum` on, on fuel.
pub find_bit : ℕ → ℕ → ℕ → Option ℕ
find_bit zero v bitnum = none
find_bit (suc fuel) v bitnum =
    let rest = find_bit fuel v (suc bitnum) in
    if bit_and v (shift_left 1 bitnum) == 0 then rest else some bitnum

-- The page taken from the word at `mapnum`.
pub take_page : ℕ → Memory → ℕ × Memory
take_page bitnum m = (
  m.mapnum * 32 + bitnum,
  record m {
    freepages =
        update m.freepages m.mapnum (bit_and (m.freepages m.mapnum) (invert (shift_left 1 bitnum)));
    nfreepages = (m.nfreepages + 2 ^ 32 - 1) % 2 ^ 32;
  },
)

-- `MemoryAllocPage`: 0 when no page is free. The search is given a round for each word and one
-- more; `none` is a search that does not end.
unfoldable pub alloc_page : Memory → Option (ℕ × Memory)
unfolding find_word find_bit take_page
alloc_page m = if m.nfreepages == 0 then some (0, m) else elim (find_word (m.freemapmax + 1) m) [
  | none ↦ none
  | some m' ↦ elim (find_bit 32 (m'.freepages m'.mapnum) 0) [
    | none ↦ none
    | some bitnum ↦ some (take_page bitnum m')
  ]
]

pub free_page : ℕ → Memory → Memory
unfolding set_freemap
free_page page m =
    let m' = set_freemap page 1 m in record m' { nfreepages = (m'.nfreepages + 1) % 2 ^ 32 }

-- `MemoryTranslateUserToSystem`: `npages` and `pagetable` are those of the process.
unfoldable pub translate_user_to_system : ℕ → (ℕ → ℕ) → ℕ → ℕ
translate_user_to_system npages pagetable addr =
    let page = addr / page_size in
    let offset = addr % page_size in
    if ltb npages page then 0 else (bit_and (pagetable page) pte_mask + offset) % 2 ^ 32

pub setup_pte : ℕ → ℕ
setup_pte page = bit_or (page * page_size % 2 ^ 32) pte_valid

pub pte_to_page : ℕ → ℕ
pte_to_page pte = bit_and pte pte_mask

pub free_pte : ℕ → Memory → Memory
unfolding free_page
free_pte pte m = free_page (bit_and pte pte_mask / page_size) m

-- `MemoryGetOperandAddress`: `frame` is the saved frame of the process.
pub get_operand_address : (ℕ → ℕ) → ℕ → ℕ
get_operand_address frame instr =
    let opcode = instr / 2 ^ 26 % 64 in
    if ltb opcode 0x20
    then 0xffffffff
    else if ltb 0x2f opcode
    then 0xffffffff
    else if 0x3404 / 2 ^ (opcode - 0x20) % 2 == 1
    then 0xffffffff
    else let reg = instr / 2 ^ 21 % 32 in
      let low = instr % 2 ^ 16 in
      let offset = if bit_and low 0x8000 == 0 then low else bit_or low 0xffff0000 in
      (frame (10 + reg) + offset) % 2 ^ 32
