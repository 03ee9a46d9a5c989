-- ===== src/Process/Tests.antt =====
-- A ring of two processes.
use pygmali_os.Base.{
  ℕ, zero, suc, ◌*◌, ◌<◌, ◌≡◌, ◌≢◌, refl, arith, false, List, [], ◌∷◌, ◌==◌, if◌then◌else◌, length,
}
use pygmali_os.Process.{Regs, Process, Processes, next_of}
use pygmali_os.Process.Ring.{Ring, at}
use pygmali_os.Process.Turns.{Turn}

abbrev zeroed : Regs
zeroed = record {
  edi = 0;
  esi = 0;
  ebp = 0;
  esp = 0;
  ebx = 0;
  edx = 0;
  ecx = 0;
  eax = 0;
  eip = 0;
  cs = 0x1B;
  eflags = 0x202;
  useresp = 0;
  ss = 0x23;
}

abbrev later : Regs
later = record zeroed { eax = 7; eip = 0x1000 }

abbrev process : ℕ → Process
process pid = record {
  page_directory = pid * 4096;
  kernel_stack_base = 0xC0C00000;
  registers = zeroed;
  pid = pid;
  name = 0;
  pagelist = 0;
  tablelist = 0;
  page_bitmap = 0;
}

abbrev two : Processes
two = record {
  first_time = false;
  process_list = 16;
  current_process = 32;
  process_count = 2;
  nodes = λ a. record { p = process (if a == 16 then 1 else 2); next = if a == 16 then 32 else 16 };
  pages = λ a. record { physical_page = 0; virtual_page = 0; next_page = 0 };
}

abbrev both : List ℕ
both = 16 ∷ 32 ∷ []

two-Ring : Ring two both
two-Ring = record {
  inhabited = omega arith;
  head = refl;
  follows = follows_both;
  closes = refl;
  apart = apart_both;
  non_null = non_null_both;
}
  where
    follows_both : (i : ℕ) → suc i < 2 → next_of two (at both i) ≡ at both (suc i)
    follows_both zero l = refl
    follows_both (suc i) l = absurd (omega arith)

    apart_both : (i j : ℕ) → i < 2 → j < 2 → at both i ≡ at both j → i ≡ j
    apart_both zero zero l k e = refl
    apart_both zero (suc zero) l k e = absurd (omega arith)
    apart_both (suc zero) zero l k e = absurd (omega arith)
    apart_both (suc zero) (suc zero) l k e = refl
    apart_both (suc (suc i)) j l k e = absurd (omega arith)
    apart_both i (suc (suc j)) l k e = absurd (omega arith)

    non_null_both : (i : ℕ) → i < 2 → 0 < at both i
    non_null_both zero l = omega arith
    non_null_both (suc zero) l = omega arith
    non_null_both (suc (suc i)) l = absurd (omega arith)

two-Turn : Turn two both 1
two-Turn = record { ring = two-Ring; inside = omega arith; current = refl }

fresh_node : (i : ℕ) → i < length both → at both i ≢ 48
fresh_node zero l e = absurd (omega arith)
fresh_node (suc zero) l e = absurd (omega arith)
fresh_node (suc (suc i)) l e = absurd (omega arith)

abbrev no_processes : Processes
no_processes = record two { process_list = 0; current_process = 0; process_count = 0 }
