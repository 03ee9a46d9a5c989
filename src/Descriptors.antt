-- ===== src/Descriptors.antt =====
-- src/gdt.c and src/idt.c: the descriptor tables of the processor.
pub mod Gdt
pub mod Idt
pub mod Gates
mod Tests
