-- ===== src/Terminal/Tests.antt =====
-- A terminal of two rows of three cells.
use pygmali_os.Base.{◌≡◌, some, refl, arith, false, [], ◌∷◌, replicate}
use pygmali_os.Terminal.{Terminal, terminal_write}
use pygmali_os.Terminal.Cursor.{IsTerminal, SameScreen, terminal_write-IsTerminal}

abbrev small : Terminal
small = record {
  terminal_buffer = replicate 6 0;
  shell_buffer = replicate 1024 0;
  textbuffer_width = 3;
  textbuffer_height = 2;
  terminal_color = 0xFFFFFF;
  terminal_row = 1;
  terminal_column = 1;
  input_start_row = 1;
  is_input_from_user = false;
}

small-IsTerminal : IsTerminal small
small-IsTerminal = record { cells = refl; row = omega arith; column = omega arith }

terminal_write-IsTerminal_example :
    (t' : Terminal) × (terminal_write (0x61 ∷ 0x62 ∷ 0x0A ∷ []) small ≡ some t')
    × IsTerminal t'
    × SameScreen small t'
terminal_write-IsTerminal_example =
    terminal_write-IsTerminal (0x61 ∷ 0x62 ∷ 0x0A ∷ []) small small-IsTerminal (omega arith)
