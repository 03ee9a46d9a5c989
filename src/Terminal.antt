-- ===== src/Terminal.antt =====
-- src/tty.c and the scrolling of src/writingmode.c: the cells of the terminal and its cursor. A cell
-- is a word, with the character in its low byte and the colour above it; characters are below 128.
-- Drawing the cells into the frame buffer is left out.
mod Cursor
mod Tests
use pygmali_os.Base.{
  ℕ, zero, suc, ◌+◌, ◌-◌, ◌*◌, ◌/◌, ◌%◌, ◌^◌, ◌≤◌, ◌<◌, ◌≡◌, ◌≢◌, ◌∙◌, ◌⊎◌, inl, inr, refl, sym, ap,
  arith, Bool, true, false, ◌&&◌, ◌||◌, not, List, [], ◌∷◌, ◌++◌, ◌==◌, leb, ltb, min,
  if◌then◌else◌, get_or, set, take, drop, replicate, length, Bool-cases, else-taken, u64, sub32,
  get_or-cons,
}
use pygmali_os.Base.{Option, none, some, u8, u32, shl, bit_or}
use pygmali_os.CString.{memmove, memcpy}

pub record Terminal : Type 0 where
  pub terminal_buffer : List ℕ
  pub shell_buffer : List ℕ
  pub textbuffer_width : ℕ
  pub textbuffer_height : ℕ
  pub terminal_color : ℕ
  pub terminal_row : ℕ
  pub terminal_column : ℕ
  pub input_start_row : ℕ
  pub is_input_from_user : Bool

unfoldable pub terminal_putentryat : ℕ → ℕ → ℕ → Terminal → Terminal
terminal_putentryat c x y t = record t {
  terminal_buffer =
      set t.terminal_buffer (u32 (y * t.textbuffer_width + x))
        (bit_or c (u32 (shl t.terminal_color 8)));
}

unfoldable pub terminal_getcharat : ℕ → ℕ → Terminal → ℕ
terminal_getcharat column row t =
    get_or t.terminal_buffer (row * t.textbuffer_width + column) 0 % 256

-- The loop that empties the last row of a terminal that the input fills, on fuel. Its counter has
-- eight bits, so that on a screen of 256 columns or more it never ends.
unfoldable pub empty_entries : ℕ → ℕ → Terminal → Option Terminal
empty_entries zero i t = none
empty_entries (suc fuel) i t =
    let rest = empty_entries fuel (u8 (i + 1)) (terminal_putentryat 0 i t.terminal_row t) in
    if ltb i t.textbuffer_width then rest else some t

-- The loop that clears the last row, with `n` cells left.
unfoldable pub clear_cells : ℕ → ℕ → List ℕ → List ℕ
clear_cells zero i cells = cells
clear_cells (suc n) i cells = clear_cells n (i + 1) (set cells i 0)

-- The rows move up by one, the first into the shell's buffer.
abbrev pub rows_moved : Terminal → Terminal
rows_moved t =
    let width = t.textbuffer_width in
    let height = t.textbuffer_height in
    record t {
      shell_buffer =
          memcpy width 0 (memmove width 0 (u32 (sub32 1024 width * 4) / 4) t.shell_buffer) 0
            t.terminal_buffer;
      terminal_buffer =
          clear_cells width ((height - 1) * width)
            (memmove 0 width (width * (height - 1)) t.terminal_buffer);
      input_start_row = sub32 t.input_start_row 1;
      terminal_row = height - 1;
    }

-- The fuel is enough for the loop wherever it ends; nothing is returned where it does not.
unfoldable pub shell_scroll : Terminal → Option Terminal
shell_scroll t =
    let last = record t { terminal_column = 0; terminal_row = t.textbuffer_height - 1 } in
    if t.input_start_row == 0 && t.is_input_from_user
    then empty_entries 256 0 last
    else some (rows_moved t)

unfoldable pub terminal_putchar : ℕ → Terminal → Option Terminal
terminal_putchar c t =
    let line = record t { terminal_column = 0; terminal_row = t.terminal_row + 1 } in
    let put = terminal_putentryat c t.terminal_column t.terminal_row t in
    let next = record put { terminal_column = 0; terminal_row = t.terminal_row + 1 } in
    if c == 0x0A
    then if t.terminal_row + 1 == t.textbuffer_height then shell_scroll line else some line
    else if c == 0x09
    then some t
    else if leb t.textbuffer_width (t.terminal_column + 1)
    then if leb t.textbuffer_height (t.terminal_row + 1) then shell_scroll next else some next
    else some (record put { terminal_column = t.terminal_column + 1 })

unfoldable pub terminal_write : List ℕ → Terminal → Option Terminal
terminal_write [] t = some t
terminal_write (c ∷ text) t = elim (terminal_putchar c t) [
  | none ↦ none
  | some t' ↦ terminal_write text t'
]
