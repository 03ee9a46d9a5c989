-- ===== src/Descriptors/Tests.antt =====
-- Descriptors at fixed inputs.
use pygmali_os.Base.{
  ℕ, ◌+◌, ◌*◌, ◌%◌, ◌^◌, ◌<◌, get_or, ◌≡◌, refl, arith, [], ◌∷◌, replicate, take, drop,
}
use pygmali_os.Descriptors.Gdt.{init_gdt}
use pygmali_os.Descriptors.Idt.{decode_gate}
use pygmali_os.Descriptors.Gates.{
  Wrapper, write_to_buffer_wrapper, update_time_wrapper, pit_timer_wrapper, syscall_handler_wrapper,
  exception_wrapper, init_idt, gate_to, handler, init_idt-gates,
}

kernel_code :
    take 8 (drop 8 (init_gdt 0xC0109000 (replicate 48 0)))
    ≡ 0xFF ∷ 0xFF ∷ 0 ∷ 0 ∷ 0 ∷ 0x9A ∷ 0xCF ∷ 0 ∷ []
unfolding init_gdt
kernel_code = refl

-- Routines of 16 bytes one after the other.
abbrev address : Wrapper → ℕ
address write_to_buffer_wrapper = 0xC0101000
address update_time_wrapper = 0xC0101010
address pit_timer_wrapper = 0xC0101020
address syscall_handler_wrapper = 0xC0101030
address (exception_wrapper n) = 0xC0101040 + (n % 32) * 16

address_bound : (w : Wrapper) → address w < 2 ^ 32
address_bound write_to_buffer_wrapper = omega arith
address_bound update_time_wrapper = omega arith
address_bound pit_timer_wrapper = omega arith
address_bound syscall_handler_wrapper = omega arith
address_bound (exception_wrapper n) = omega arith

init_idt-gates_example :
    decode_gate (get_or (init_idt address (replicate 256 0)) 14 0) ≡ gate_to address (handler 14)
init_idt-gates_example = init_idt-gates address 14 address_bound (omega arith)
