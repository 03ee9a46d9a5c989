-- ===== src/Syscalls/Rectangles.antt =====
-- `syscall_print_rect` of src/syscalls.c: the pixels that it draws.
