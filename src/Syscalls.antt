-- ===== src/Syscalls.antt =====
-- src/syscalls.c: what the handler of system calls runs, the test of the addresses that a program
-- gives, and the calls that are of this file alone. An `int` is its 32-bit pattern.
pub mod Addresses
pub mod Rectangles
mod Tests
use pygmali_os.Base.{
  ℕ, zero, suc, ◌+◌, ◌-◌, ◌*◌, ◌/◌, ◌%◌, ◌^◌, Bool, true, false, not, List, [], ◌∷◌, ◌++◌, map,
  ◌==◌, leb, ltb, min, if◌then◌else◌, get_or, take, u32, sub32,
}
use pygmali_os.Base.{Option, none, some}
use pygmali_os.Keyboard.{Keyboard, KeyEvent, no_event, get_keyevent}

-- The registers of the program.
pub record RegStack : Type 0 where
  pub edi : ℕ
  pub esi : ℕ
  pub ebp : ℕ
  pub esp : ℕ
  pub ebx : ℕ
  pub edx : ℕ
  pub ecx : ℕ
  pub eax : ℕ

abbrev pub kernel_base : ℕ
kernel_base = 0xC0000000

unfoldable pub is_user_address : ℕ → ℕ → Bool
is_user_address addr len =
    if leb kernel_base addr
    then false
    else if leb kernel_base (sub32 (u32 (addr + len)) 1)
    then false
    else true

-- The services that the handler calls, and the write of `eax` behind a read.
pub data Service : Type 0 where
  get_key get_key_array : ℕ → ℕ → Service
  print_rect : ℕ → ℕ → ℕ → ℕ → ℕ → Service
  read_directory_names read write : ℕ → ℕ → ℕ → Service
  set_file_size create_file create_dir delete : ℕ → Service

-- Only with a buffer that is the program's.
abbrev guarded : RegStack → List Service → List Service
guarded r services = if is_user_address r.ebx r.ecx then services else []

-- The cases of the `switch`, from the last one: none has a `break`, so that each goes on with the next.
abbrev case_8 : RegStack → List Service
case_8 r = delete r.edx ∷ []

abbrev case_7 : RegStack → List Service
case_7 r = create_dir r.edx ∷ case_8 r

abbrev case_6 : RegStack → List Service
case_6 r = create_file r.edx ∷ case_7 r

abbrev case_5 : RegStack → List Service
case_5 r = write r.ebx r.ecx r.edx ∷ case_6 r

abbrev case_4 : RegStack → List Service
case_4 r = guarded r (read r.edx r.ebx r.ecx ∷ set_file_size r.edx ∷ case_5 r)

abbrev case_3 : RegStack → List Service
case_3 r = guarded r (read_directory_names r.edx r.ebx r.ecx ∷ case_4 r)

abbrev case_2 : RegStack → List Service
case_2 r = print_rect r.ebx r.ecx r.edx r.esi r.edi ∷ case_3 r

abbrev case_1 : RegStack → List Service
case_1 r = guarded r (get_key_array r.ebx r.ecx ∷ case_2 r)

abbrev case_0 : RegStack → List Service
case_0 r = guarded r (get_key r.ebx r.ecx ∷ case_1 r)

abbrev pub switch : ℕ → RegStack → List Service
switch zero r = case_0 r
switch (suc zero) r = case_1 r
switch (suc (suc zero)) r = case_2 r
switch (suc (suc (suc zero))) r = case_3 r
switch (suc (suc (suc (suc zero)))) r = case_4 r
switch (suc (suc (suc (suc (suc zero))))) r = case_5 r
switch (suc (suc (suc (suc (suc (suc zero)))))) r = case_6 r
switch (suc (suc (suc (suc (suc (suc (suc zero))))))) r = case_7 r
switch (suc (suc (suc (suc (suc (suc (suc (suc zero)))))))) r = case_8 r
switch n r = []

unfoldable pub syscall_handler : RegStack → List Service
unfolding is_user_address
syscall_handler r = switch r.eax r

-- `min` on `int`s, as the size that `memcpy` takes.
abbrev pub copy_size : ℕ → ℕ → ℕ
copy_size buffersize size = if leb (2 ^ 31) buffersize then buffersize else min buffersize size

abbrev bit_byte : Bool → ℕ
bit_byte b = if b then 1 else 0

abbrev event_bytes : KeyEvent → List ℕ
event_bytes e =
    e.scancode
    ∷ e.ascii
    ∷ bit_byte e.fn
    ∷ bit_byte e.shift
    ∷ bit_byte e.ctrl
    ∷ bit_byte e.alt
    ∷ bit_byte e.special
    ∷ []

abbrev event_or_none : Option KeyEvent → KeyEvent
event_or_none none = no_event
event_or_none (some event) = event

-- The size of the copy to `dest`, the bytes that are copied as far as they are the event's, and the
-- keyboard afterwards.
unfoldable pub syscall_get_key : ℕ → ℕ → Keyboard → ℕ × List ℕ × Keyboard
syscall_get_key beyond buffersize k =
    let (event, k') = get_keyevent beyond k in
    let size = copy_size buffersize 7 in (size, take size (event_bytes (event_or_none event)), k')

-- `sizeof(KEYBOARD_SIZE*sizeof(_Bool))` is the size of a number, 4.
unfoldable pub syscall_get_key_array : ℕ → Keyboard → ℕ × List ℕ
syscall_get_key_array buffersize k =
    let size = copy_size buffersize 4 in (size, take size (map bit_byte k.key_state))

-- The framebuffer as a function from the index of a pixel, which is a pointer's: the words of the
-- whole memory. The loop over a row, with `n` pixels left, and that over the rows.
unfoldable pub print_row : ℕ → ℕ → ℕ → ℕ → (ℕ → ℕ) → (ℕ → ℕ) → ℕ → ℕ
print_row zero j start from buffer screen = screen
print_row (suc n) j start from buffer screen =
    print_row n (j + 1) start from buffer
      (λ a. if a == (start + j) % 2 ^ 30 then buffer (from + j) else screen a)

unfoldable pub print_rows : ℕ → ℕ → ℕ → ℕ → ℕ → (ℕ → ℕ) → (ℕ → ℕ) → ℕ → ℕ
print_rows zero i start width x_len buffer screen = screen
print_rows (suc n) i start width x_len buffer screen =
    print_rows n (i + 1) start width x_len buffer (
      print_row (if leb (2 ^ 31) x_len then 0 else x_len) 0 (start + i * width) (i * x_len) buffer
        screen)

unfoldable pub syscall_print_rect : (ℕ → ℕ) → ℕ → ℕ → ℕ → ℕ → ℕ → (ℕ → ℕ) → ℕ → ℕ
syscall_print_rect buffer topleft_x topleft_y x_len y_len width screen =
    print_rows (if leb (2 ^ 31) y_len then 0 else y_len) 0 (topleft_x + topleft_y * width) width
      x_len buffer screen
