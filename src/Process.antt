-- ===== src/Process.antt =====
-- src/process.c: the list of the processes, which is meant to be a ring, and the scheduler. The
-- memory of the nodes is a function from addresses, and a null pointer is 0.
pub mod Ring
pub mod First
pub mod Turns
pub mod Kill
mod Pids
mod Tests
use pygmali_os.Base.{
  ℕ, zero, suc, ◌+◌, ◌-◌, ◌*◌, ◌/◌, ◌%◌, ◌^◌, Bool, true, false, not, List, [], ◌∷◌, ◌++◌, ◌==◌,
  if◌then◌else◌, get_or, set, u8, sub32, shl, bit_and, bit_or,
}
use pygmali_os.Base.{Option, none, some}

pub record Regs : Type 0 where
  pub edi : ℕ
  pub esi : ℕ
  pub ebp : ℕ
  pub esp : ℕ
  pub ebx : ℕ
  pub edx : ℕ
  pub ecx : ℕ
  pub eax : ℕ
  pub eip : ℕ
  pub cs : ℕ
  pub eflags : ℕ
  pub useresp : ℕ
  pub ss : ℕ

pub record PageNode : Type 0 where
  pub physical_page : ℕ
  pub virtual_page : ℕ
  pub next_page : ℕ

pub record Process : Type 0 where
  pub page_directory : ℕ
  pub kernel_stack_base : ℕ
  pub registers : Regs
  pub pid : ℕ
  pub name : ℕ
  pub pagelist : ℕ
  pub tablelist : ℕ
  pub page_bitmap : ℕ

pub record ProcessNode : Type 0 where
  pub p : Process
  pub next : ℕ

-- The globals, and the nodes in memory. `pages` are the nodes of the lists of pages.
pub record Processes : Type 0 where
  pub first_time : Bool
  pub process_list : ℕ
  pub current_process : ℕ
  pub process_count : ℕ
  pub nodes : ℕ → ProcessNode
  pub pages : ℕ → PageNode

-- The calls that leave the module, in order.
pub data Effect : Type 0 where
  pit_timer : Effect
  update_tss_esp switch_page_directory kfree free_raw_page : ℕ → Effect
  context_switch : Regs → Effect

unfoldable pub put_node : ℕ → ProcessNode → Processes → Processes
put_node at node s = record s { nodes = λ a. if a == at then node else s.nodes a }

-- `at->next = next` and `at->p = p`
unfoldable pub put_next : ℕ → ℕ → Processes → Processes
put_next at next s = put_node at (record (s.nodes at) { next = next }) s

unfoldable pub put_process : ℕ → Process → Processes → Processes
put_process at p s = put_node at (record (s.nodes at) { p = p }) s

abbrev pub next_of : Processes → ℕ → ℕ
next_of s at = (s.nodes at).next

-- The loop of `create_process` over the pids, with `n` of them left: the pid, the base of its stack
-- in the kernel, and the bitmap. In `bitmap & (1<<i%8)==0` the comparison binds first.
unfoldable pub choose_pid : ℕ → ℕ → List ℕ → Option ((ℕ × ℕ) × List ℕ)
choose_pid zero i pid_bitmap = none
choose_pid (suc n) i pid_bitmap =
    let byte = get_or pid_bitmap (i / 8) 0 in
    let test = if shl 1 (i % 8) == 0 then 1 else 0 in
    let rest = choose_pid n (i + 1) pid_bitmap in
    if not (bit_and byte test == 0)
    then some (
      (i, sub32 0xC0C00000 (i * 0x2000)),
      set pid_bitmap (i / 8) (u8 (bit_or byte (shl 1 (i % 8)))),
    )
    else rest

-- `while(tail->next != process_list)`, with `fuel` rounds left.
unfoldable pub find_tail : ℕ → ℕ → Processes → Option ℕ
find_tail zero tail s = none
find_tail (suc fuel) tail s =
    let rest = find_tail fuel (next_of s tail) s in
    if next_of s tail == s.process_list then some tail else rest

abbrev pub append_node : ℕ → Processes → Option ℕ → Option Processes
append_node node s none = none
append_node node s (some tail) =
    let s = put_next tail node s in some (put_next node s.process_list s)

-- `node->next= &node`: `local` is the address of the variable.
abbrev first_node : ℕ → ℕ → Processes → Processes
first_node node local s =
    let s = record s { process_list = node } in
    let s = put_next node local s in record s { current_process = node }

-- `node` is the address that `kmalloc` returns.
unfoldable pub add_process : ℕ → ℕ → ℕ → Process → Processes → Option Processes
add_process fuel node local p s =
    let s = record s { process_count = s.process_count + 1 } in
    let s = put_process node p s in
    let appended = append_node node s (find_tail fuel s.process_list s) in
    if s.process_list == 0 then some (first_node node local s) else appended

-- What the first interrupt of the timer makes of the registers.
abbrev pub user_registers : Regs → Regs
user_registers r = record r { cs = 0x1B; eip = 0; eflags = 0x202; useresp = 0xBFFFFFFF }

unfoldable pub schedule : Regs → Processes → Processes × List Effect
schedule registers s =
    let registers = if s.first_time then user_registers registers else registers in
    let s = record s { first_time = false } in
    let at = s.current_process in
    let s = put_process at (record ((s.nodes at).p) { registers = registers }) s in
    let s = record s { current_process = next_of s s.current_process } in
    let p = (s.nodes s.current_process).p in
    (
      s,
      pit_timer
          ∷ update_tss_esp p.kernel_stack_base
          ∷ switch_page_directory p.page_directory
          ∷ context_switch p.registers
          ∷ [],
    )

abbrev advance_current : ℕ → Processes → Processes × List Effect
advance_current cur s =
    let s = record s { current_process = next_of s cur } in
    (s, switch_page_directory (s.nodes s.current_process).p.page_directory ∷ [])

-- What a round of the loop of `kill_process` does to a node whose pid is the one that is looked for.
unfoldable pub unlink_later : ℕ → ℕ → Processes → Processes × List Effect
unlink_later prev cur s =
    let s = put_next prev (next_of s cur) s in
    let s = if cur == s.process_list then record s { process_list = next_of s cur } else s in
    if cur == s.current_process then advance_current cur s else (s, [])

unfoldable pub unlink : ℕ → ℕ → Processes → Processes × List Effect
unlink prev cur s =
    if cur == prev
    then (record s { process_list = 0; current_process = 0 }, [])
    else unlink_later prev cur s

-- The loop, with `fuel` rounds left: `cur` behind it.
unfoldable pub kill_from : ℕ → ℕ → ℕ → ℕ → Processes → Option (ℕ × Processes × List Effect)
kill_from zero pid prev cur s = none
kill_from (suc fuel) pid prev cur s =
    let (s, effects) = if (s.nodes cur).p.pid == pid then unlink prev cur s else (s, []) in
    let next = next_of s cur in
    let rest = kill_from fuel pid cur next s in
    if next == s.process_list
    then some (next, s, effects)
    else elim rest [ none ↦ none | some (last, s', more) ↦ some (last, s', effects ++ more) ]

-- A list of pages up to its last node, whose page is not freed.
unfoldable pub free_pages : ℕ → ℕ → Processes → Option (List Effect)
free_pages zero at s = none
free_pages (suc fuel) at s =
    let node = s.pages at in
    let rest = free_pages fuel node.next_page s in
    if node.next_page == 0 then some (kfree at ∷ []) else elim rest [
      | none ↦ none
      | some more ↦ some (free_raw_page node.physical_page ∷ kfree at ∷ more)
    ]

-- `cur` behind the loop is given up.
unfoldable pub give_up : ℕ → ℕ → Processes → List Effect → Option (Processes × List Effect)
give_up fuel cur s effects =
    let p = (s.nodes cur).p in
    elim (free_pages fuel p.pagelist s) [
      | none ↦ none
      | some pages ↦ elim (free_pages fuel p.tablelist s) [
        | none ↦ none
        | some tables ↦ some (
          s,
          effects
              ++ (kfree p.name ∷ pages)
              ++ tables
              ++ (free_raw_page p.page_directory ∷ kfree cur ∷ []),
        )
      ]
    ]

unfoldable pub kill_process : ℕ → ℕ → Processes → Option (Processes × List Effect)
kill_process fuel pid s =
    if s.process_list == 0
    then some (s, [])
    else elim (kill_from fuel pid s.process_list s.process_list s) [
      | none ↦ none
      | some (cur, s', effects) ↦ give_up fuel cur s' effects
    ]
