-- ===== src/Paging/Tables.antt =====
-- src/paging.c: the page tables, which the kernel reaches through the last entry of its directory.
-- Memory is seen as 32-bit words: `frames p j` is the word `j` of the physical page `p`.
use pygmali_os.Base.{
  ℕ, ◌+◌, ◌-◌, min, ◌*◌, ◌/◌, ◌%◌, ◌^◌, not, ◌&&◌, ◌||◌, List, ◌∷◌, ◌==◌, leb, if◌then◌else◌, u32,
  sub32, shl, shr, bit_and, bit_or,
}
use pygmali_os.Base.{Option, none, some}
use pygmali_os.Paging.{page_size, test_bit, set_bit, clear_bit, alloc_raw_page, free_raw_page}

-- A node of the list of pages of a process.
pub record PageNode : Type 0 where
  pub physical_page : ℕ
  pub virtual_page : ℕ

-- The list of pages of a process, and the physical pages of its list of tables.
pub record PageLists : Type 0 where
  pub pagelist : List PageNode
  pub tablelist : List ℕ

-- What the kernel asks the processor for.
pub data Effect : Type 0 where
  invlpg : ℕ → Effect

-- `root` is the page of the directory, `bitmap` is that of physical pages, and `virt_bitmap` that of
-- virtual pages, the current process' or the kernel's. Without a current process `lists` is nothing.
pub record Space : Type 0 where
  pub frames : ℕ → ℕ → ℕ
  pub root : ℕ
  pub bitmap : List ℕ
  pub virt_bitmap : List ℕ
  pub lists : Option PageLists
  pub effects : List Effect

-- The translation of the processor: the directory, a table, and the offset in the page.
unfoldable pub translate : Space → ℕ → Option ℕ
translate s virt =
    let pde = s.frames s.root (virt / 2 ^ 22) in
    let pte = s.frames (pde / 4096) (virt / 4096 % 1024) in
    if pde % 2 == 1 && pte % 2 == 1 then some (pte / 4096 * 4096 + virt % 4096) else none

-- Reading and writing a word, and clearing a page, at an address that is translated. Without a
-- translation the kernel faults, and there is no result.
unfoldable pub load : Space → ℕ → Option ℕ
load s virt = elim (translate s virt) [
  | none ↦ none
  | some a ↦ some (s.frames (a / 4096) (a % 4096 / 4))
]

abbrev pub put_word : Space → ℕ → ℕ → ℕ → Space
put_word s page j word = record s {
  frames = λ p i. if p == page && i == j then word else s.frames p i;
}

unfoldable pub store : Space → ℕ → ℕ → Option Space
store s virt word = elim (translate s virt) [
  | none ↦ none
  | some a ↦ some (put_word s (a / 4096) (a % 4096 / 4) word)
]

unfoldable pub clear_page : Space → ℕ → Option Space
clear_page s virt = elim (translate s virt) [
  | none ↦ none
  | some a ↦ some (record s { frames = λ p i. if p == a / 4096 then 0 else s.frames p i })
]

-- A word of which the bytes `from` to `to` of its page are zero, those of them that are in it.
abbrev pub cleared_word : ℕ → ℕ → ℕ → ℕ → ℕ
cleared_word from to j word =
    let before = 2 ^ (8 * min 4 (from - 4 * j)) in
    let behind = 2 ^ (8 * min 4 (to - 4 * j)) in word % before + word / behind * behind

-- The bytes `from` to `to` of the page of an address are set to zero.
unfoldable pub clear_bytes : Space → ℕ → ℕ → ℕ → Option Space
clear_bytes s virt from to = elim (translate s virt) [
  | none ↦ none
  | some a ↦ some (record s {
    frames = λ p i. if p == a / 4096 then cleared_word from to i (s.frames p i) else s.frames p i;
  })
]

-- `memset((void*)virtaddr, 0, 4096)`: a page, or the end of one and the beginning of the next. A page
-- of them that is not translated is a fault inside the kernel, and there is no result.
unfoldable pub memset_page : Space → ℕ → Option Space
memset_page s virt =
    let offset = virt % 4096 in
    let both : Option Space = elim (clear_bytes s virt offset 4096) [
      | none ↦ none
      | some s' ↦ clear_bytes s' (u32 (virt + 4096)) 0 offset
    ] in
    if offset == 0 then clear_page s virt else both

abbrev pub does : Effect → Space → Space
does e s = record s { effects = e ∷ s.effects }

unfoldable pub get_page_table_virtual : ℕ → ℕ
get_page_table_virtual dir_index = u32 (0xFFC00000 + dir_index * page_size)

-- The word `j` of a table at an address.
abbrev pub element : ℕ → ℕ → ℕ
element table j = u32 (table + 4 * j)

unfoldable pub phys_from_virt : Space → ℕ → Option ℕ
phys_from_virt s virt =
    let dir_index = shr virt 22 in
    let table_index = bit_and (shr virt 12) 0x3FF in
    let offset = bit_and virt 0xFFF in
    elim (load s (element (get_page_table_virtual dir_index) table_index)) [
      | none ↦ none
      | some entry ↦
          some (if bit_and entry 1 == 0 then 0 else bit_or (bit_and entry 0xFFFFF000) offset)
    ]

-- The page that was found becomes the table `tablenum`, and is cleared.
unfoldable pub enter_table : ℕ → ℕ × List ℕ → Space → Option (ℕ × Space)
enter_table tablenum (physaddr, bitmap) s =
    let s = record s { bitmap = bitmap } in
    elim (store s (element (get_page_table_virtual 1023) tablenum) (bit_or physaddr 3)) [
      | none ↦ none
      | some s' ↦
          elim (clear_page (does (invlpg (0xFFC00000 + shl tablenum 12)) s')
            (get_page_table_virtual tablenum)) [ none ↦ none | some s'' ↦ some (physaddr, s'') ]
    ]

unfoldable pub create_new_table : Space → ℕ → Option (ℕ × Space)
create_new_table s addr = enter_table (bit_and (shr addr 22) 0x3FF) (alloc_raw_page s.bitmap) s

abbrev pub list_table : ℕ → Option PageLists → Option PageLists
list_table phys_table none = none
list_table phys_table (some lists) =
    some (record lists { tablelist = phys_table ∷ lists.tablelist })

abbrev pub list_page : ℕ → ℕ → Option PageLists → Option PageLists
list_page virtaddr physaddr none = none
list_page virtaddr physaddr (some lists) =
    let page : PageNode = record { physical_page = physaddr; virtual_page = virtaddr } in
    some (record lists { pagelist = page ∷ lists.pagelist })

abbrev pub user_of : Option PageLists → ℕ
user_of none = 0
user_of (some lists) = 1

-- What `map_page` does when the directory has no table for the address.
unfoldable pub ensure_table : Space → ℕ → ℕ → Option Space
ensure_table s virtaddr entry =
    if bit_and entry 1 == 0
    then elim (create_new_table s virtaddr) [
      | none ↦ none
      | some (phys_table, s') ↦ some (record s' { lists = list_table phys_table s'.lists })
    ]
    else some s

-- The entry of the page is written, and 4096 bytes from the address on are cleared through it.
unfoldable pub set_entry : Space → ℕ → ℕ → Option Space
set_entry s virtaddr physaddr =
    let s = record s { lists = list_page virtaddr physaddr s.lists } in
    let table = bit_and (get_page_table_virtual (bit_and (shr virtaddr 22) 0x3FF)) 0xFFFFF000 in
    let word = bit_or (bit_or physaddr 3) (shl (user_of s.lists) 2) in
    elim (store s (element table (bit_and (shr virtaddr 12) 0x3FF)) word) [
      | none ↦ none
      | some s' ↦ memset_page (does (invlpg virtaddr) s') virtaddr
    ]

unfoldable pub map_page : Space → ℕ → ℕ → Option Space
map_page s virtaddr physaddr =
    let dir_index = bit_and (shr virtaddr 22) 0x3FF in
    elim (load s (element (get_page_table_virtual 1023) dir_index)) [
      | none ↦ none
      | some entry ↦ elim (ensure_table s virtaddr entry) [
        | none ↦ none
        | some s' ↦ set_entry s' virtaddr physaddr
      ]
    ]

-- The bit of a page in the bitmap of virtual pages.
abbrev pub virt_index : Space → ℕ → ℕ
virt_index s addr = elim s.lists [ none ↦ sub32 addr 0xC0000000 / 4096 | some lists ↦ addr / 4096 ]

-- What is returned, and the memory afterwards.
unfoldable pub alloc_page : Space → ℕ → Option (ℕ × Space)
alloc_page s virt_addr =
    let i = virt_index s virt_addr in
    let s' = record s { virt_bitmap = clear_bit s.virt_bitmap i } in
    let (phys_addr, bitmap) = alloc_raw_page s'.bitmap in
    let mapped = map_page (record s' { bitmap = bitmap }) virt_addr phys_addr in
    if test_bit s.virt_bitmap i
    then elim mapped [ none ↦ none | some s'' ↦ some (0, s'') ]
    else some (1, s)

-- Behind the first test of `free_page`.
unfoldable pub unmap : Space → ℕ → Option Space
unmap s addr =
    let table_offset = bit_and (shr addr 12) 1023 in
    let s = record s { virt_bitmap = set_bit s.virt_bitmap (virt_index s addr) } in
    let table = bit_and (get_page_table_virtual (shr addr 22)) 0xFFFFF000 in
    elim (load s (element table table_offset)) [
      | none ↦ none
      | some entry ↦ elim (store s (element table table_offset) 0) [
        | none ↦ none
        | some s' ↦ some (
            does (invlpg addr)
              (record s' { bitmap = free_raw_page (bit_and entry 0xFFFFF000) s'.bitmap }))
      ]
    ]

unfoldable pub free_page : Space → ℕ → Option Space
free_page s addr =
    let rest = unmap s addr in
    if bit_and (get_page_table_virtual (shr addr 22)) 1 == 0 then some s else rest

-- What the handler of page faults does: the kernel stops, the process is ended, or the page is
-- allocated.
pub data Answer : Type 0 where
  panic kill_process : Answer
  allocated : Option (ℕ × Space) → Answer

unfoldable pub page_fault_handler : Space → ℕ → ℕ → Answer
page_fault_handler s pageaddr errcode =
    let is_user = not (bit_and errcode 4 == 0) in
    let present = not (bit_and errcode 1 == 0) in
    if present && not is_user
    then panic
    else if (present || leb 0xC0000000 pageaddr) && is_user
    then kill_process
    else allocated (alloc_page s pageaddr)
