-- ===== src/Syscalls/Addresses.antt =====
-- Which addresses the handler of src/syscalls.c lets pass, and what it runs behind the test.
use pygmali_os.Base.{
  ℕ, zero, suc, ◌+◌, ◌-◌, ◌^◌, ◌≤◌, ◌<◌, ◌≡◌, ◌↔◌, refl, arith, Bool, true, false, ◌||◌, List, [],
  ◌∷◌, ◌++◌, ◌==◌, leb, u32, sub32,
}
use pygmali_os.Syscalls.{
  RegStack, Service, kernel_base, is_user_address, syscall_handler, switch, get_key, get_key_array,
  print_rect, read_directory_names, read, write, set_file_size, create_file, create_dir, delete,
}

last_byte :
    (addr len : ℕ) → 0 < len → addr + len ≤ 2 ^ 32 → sub32 (u32 (addr + len)) 1 ≡ addr + len - 1
last_byte addr len l h = omega arith

-- A buffer of one byte or more that does not reach past the end of the address space is let pass exactly if all of its
-- bytes lie below the kernel.
pub is_user_address-inside :
    (addr len : ℕ)
    → 0 < len
    → addr + len ≤ 2 ^ 32
    → (is_user_address addr len ≡ true) ↔ ((i : ℕ) → i < len → addr + i < kernel_base)
unfolding is_user_address
is_user_address-inside addr len l h =
    let end = last_byte addr len l h in
    (
      λ passes i k. ground (arith, end),
      λ below.
          let first = below 0 l in
          let last = below (len - 1) (omega arith) in
          let low : leb kernel_base addr ≡ false = ground arith in
          let high : leb kernel_base (sub32 (u32 (addr + len)) 1) ≡ false = ground (arith, end) in
          rw (is_user_address, low, high) refl,
    )

-- A buffer that does reach past it, and ends below the kernel again, is let pass as well.
is_user_address-wrapped :
    (addr len : ℕ)
    → addr < kernel_base
    → 2 ^ 32 < addr + len
    → addr + len ≤ 2 ^ 32 + kernel_base
    → is_user_address addr len ≡ true
unfolding is_user_address
is_user_address-wrapped addr len low over below = ground arith

-- What the case of one number does by itself.
abbrev pub service : ℕ → RegStack → List Service
service zero r = get_key r.ebx r.ecx ∷ []
service (suc zero) r = get_key_array r.ebx r.ecx ∷ []
service (suc (suc zero)) r = print_rect r.ebx r.ecx r.edx r.esi r.edi ∷ []
service (suc (suc (suc zero))) r = read_directory_names r.edx r.ebx r.ecx ∷ []
service (suc (suc (suc (suc zero)))) r = read r.edx r.ebx r.ecx ∷ set_file_size r.edx ∷ []
service (suc (suc (suc (suc (suc zero))))) r = write r.ebx r.ecx r.edx ∷ []
service (suc (suc (suc (suc (suc (suc zero)))))) r = create_file r.edx ∷ []
service (suc (suc (suc (suc (suc (suc (suc zero))))))) r = create_dir r.edx ∷ []
service (suc (suc (suc (suc (suc (suc (suc (suc zero)))))))) r = delete r.edx ∷ []
service n r = []

-- The services of `k` numbers from `n` on.
abbrev pub services : ℕ → ℕ → RegStack → List Service
services zero n r = []
services (suc k) n r = service n r ++ services k (suc n) r

abbrev pub needs_buffer : ℕ → Bool
needs_buffer n = n == 0 || n == 1 || n == 3 || n == 4

-- With a buffer that is let pass, the handler runs the service that is asked for and, one after the
-- other, all services of higher numbers; with another buffer, none where the service needs a buffer.
pub syscall_handler-falls :
    (r : RegStack)
    → ((is_user_address r.ebx r.ecx ≡ true) → syscall_handler r ≡ services (9 - r.eax) r.eax r)
      × ((is_user_address r.ebx r.ecx ≡ false) → needs_buffer r.eax ≡ true → syscall_handler r ≡ [])
unfolding syscall_handler
syscall_handler-falls r = (λ e. passed r.eax e, λ e n. refused r.eax e n)
  where
    passed : (n : ℕ) → is_user_address r.ebx r.ecx ≡ true → switch n r ≡ services (9 - n) n r
    passed zero e = rw e refl
    passed (suc zero) e = rw e refl
    passed (suc (suc zero)) e = rw e refl
    passed (suc (suc (suc zero))) e = rw e refl
    passed (suc (suc (suc (suc zero)))) e = rw e refl
    passed (suc (suc (suc (suc (suc zero))))) e = refl
    passed (suc (suc (suc (suc (suc (suc zero)))))) e = refl
    passed (suc (suc (suc (suc (suc (suc (suc zero))))))) e = refl
    passed (suc (suc (suc (suc (suc (suc (suc (suc zero)))))))) e = refl
    passed (suc (suc (suc (suc (suc (suc (suc (suc (suc n))))))))) e =
        let none : 9 - suc (suc (suc (suc (suc (suc (suc (suc (suc n)))))))) ≡ 0 = omega arith in
        rw none refl

    refused :
        (n : ℕ) → is_user_address r.ebx r.ecx ≡ false → needs_buffer n ≡ true → switch n r ≡ []
    refused zero e h = rw e refl
    refused (suc zero) e h = rw e refl
    refused (suc (suc zero)) e h = absurd (ground arith)
    refused (suc (suc (suc zero))) e h = rw e refl
    refused (suc (suc (suc (suc zero)))) e h = rw e refl
    refused (suc (suc (suc (suc (suc n))))) e h = absurd (ground arith)
