-- ===== src/Syscalls/Tests.antt =====
-- Buffers of a program, and a rectangle of two by two pixels.
use pygmali_os.Base.{ℕ, ◌+◌, ◌<◌, ◌≡◌, ◌↔◌, arith, true, false, []}
use pygmali_os.Syscalls.{RegStack, kernel_base, is_user_address, syscall_handler}
use pygmali_os.Syscalls.Addresses.{
  services, needs_buffer, is_user_address-inside, syscall_handler-falls,
}

is_user_address-inside_example :
    (is_user_address 0x1000 7 ≡ true) ↔ ((i : ℕ) → i < 7 → 0x1000 + i < kernel_base)
is_user_address-inside_example = is_user_address-inside 0x1000 7 (omega arith) (omega arith)

abbrev asked : RegStack
asked = record { edi = 0; esi = 0; ebp = 0; esp = 0; ebx = 0x1000; edx = 0x2000; ecx = 7; eax = 4 }

syscall_handler-falls_example :
    ((is_user_address 0x1000 7 ≡ true) → syscall_handler asked ≡ services 5 4 asked)
    × ((is_user_address 0x1000 7 ≡ false) → needs_buffer 4 ≡ true → syscall_handler asked ≡ [])
syscall_handler-falls_example = syscall_handler-falls asked
