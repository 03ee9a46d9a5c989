-- ===== src/Terminal/Cursor.antt =====
-- src/tty.c: the cursor stays on the screen.
use pygmali_os.Base.{
  ℕ, zero, suc, ◌+◌, ◌-◌, ◌*◌, ◌<◌, ◌≡◌, ◌∙◌, inl, inr, refl, arith, ◌&&◌, List, [], ◌∷◌, ◌==◌, leb,
  ltb, true, ◌≤◌, set, length, Bool-cases,
}
use pygmali_os.Base.{Option, none, some, u8, length-set}
use native.Mathlib.Nat.{mul-le-mul_left}
use pygmali_os.CString.Moves.{memmove-moved}
use pygmali_os.Terminal.{
  Terminal, terminal_putentryat, empty_entries, clear_cells, rows_moved, shell_scroll,
  terminal_putchar, terminal_write,
}

-- There is a cell for each place of the screen, and the cursor is at one of them.
pub record IsTerminal (t : Terminal) : Type 0 where
  pub cells : length t.terminal_buffer ≡ t.textbuffer_width * t.textbuffer_height
  pub row : t.terminal_row < t.textbuffer_height
  pub column : t.terminal_column < t.textbuffer_width

-- What no step changes.
abbrev pub SameScreen : Terminal → Terminal → Type 0
SameScreen t t' =
    (t'.textbuffer_width ≡ t.textbuffer_width) × (t'.textbuffer_height ≡ t.textbuffer_height)

-- The code ends, with the cursor on a screen of the same size.
abbrev pub Ends : Terminal → Option Terminal → Type 0
Ends t result = (t' : Terminal) × (result ≡ some t') × IsTerminal t' × SameScreen t t'

empty_entries-Ends :
    (fuel i : ℕ) (t : Terminal)
    → IsTerminal t
    → t.textbuffer_width < 256
    → i ≤ t.textbuffer_width
    → t.textbuffer_width - i < fuel
    → Ends t (empty_entries fuel i t)
unfolding empty_entries terminal_putentryat
empty_entries-Ends zero i t v w l f = absurd (omega arith)
empty_entries-Ends (suc fuel) i t v w l f = elim (Bool-cases (ltb i t.textbuffer_width)) [
  | inl e ↦
      let put = terminal_putentryat 0 i t.terminal_row t in
      let next : u8 (i + 1) ≡ i + 1 = ground arith in
      let put_at : IsTerminal put = record {
        cells = length-set t.terminal_buffer _ _ ∙ v.cells;
        row = v.row;
        column = v.column;
      } in
      let (t', ends, v', same) =
        empty_entries-Ends fuel (i + 1) put put_at w (ground arith) (ground arith) in
      (t', rw (e, next) ends, v', same)
  | inr e ↦ (t, rw e refl, v, (refl, refl))
]

-- With an eight-bit counter the loop over 256 columns or more runs out of any fuel.
empty_entries-never :
    (fuel i : ℕ) (t : Terminal) → 256 ≤ t.textbuffer_width → i < 256 → empty_entries fuel i t ≡ none
unfolding empty_entries terminal_putentryat
empty_entries-never zero i t w l = refl
empty_entries-never (suc fuel) i t w l =
    let more : ltb i t.textbuffer_width ≡ true = ground arith in
    let small : u8 (i + 1) < 256 = omega arith in
    rw more
      (empty_entries-never fuel (u8 (i + 1)) (terminal_putentryat 0 i t.terminal_row t) w small)

length-clear_cells : (n i : ℕ) (cells : List ℕ) → length (clear_cells n i cells) ≡ length cells
unfolding clear_cells
length-clear_cells zero i cells = refl
length-clear_cells (suc n) i cells =
    length-clear_cells n (i + 1) (set cells i 0) ∙ length-set cells i 0

shell_scroll-Ends :
    (t : Terminal)
    → t.textbuffer_width < 256
    → length t.terminal_buffer ≡ t.textbuffer_width * t.textbuffer_height
    → 0 < t.textbuffer_height
    → t.terminal_column < t.textbuffer_width
    → Ends t (shell_scroll t)
unfolding shell_scroll
shell_scroll-Ends t wide n h c =
    elim (Bool-cases (t.input_start_row == 0 && t.is_input_from_user)) [
      | inl e ↦
          let last = record t { terminal_column = 0; terminal_row = t.textbuffer_height - 1 } in
          let last-IsTerminal : IsTerminal last = record {
            cells = n;
            row = omega arith;
            column = omega arith;
          } in
          let (t', ends, v', same) =
            empty_entries-Ends 256 0 last last-IsTerminal wide (omega arith) (omega arith) in
          (t', rw e ends, v', same)
      | inr e ↦
          let w = t.textbuffer_width in
          let up =
            mul-le-mul_left {m = t.textbuffer_height - 1} {n = t.textbuffer_height} w
              (omega arith) in
          let (size, moved) =
            memmove-moved 0 w (w * (t.textbuffer_height - 1)) t.terminal_buffer
              (omega (arith, n, up)) in
          (
            rows_moved t,
            rw e refl,
            record {
              cells = length-clear_cells w ((t.textbuffer_height - 1) * w) _ ∙ (size ∙ n);
              row = omega arith;
              column = c;
            },
            (refl, refl),
          )
    ]

terminal_putchar-Ends :
    (c : ℕ) (t : Terminal) → IsTerminal t → t.textbuffer_width < 256 → Ends t (terminal_putchar c t)
unfolding terminal_putchar terminal_putentryat
terminal_putchar-Ends c t v wide =
    let put = terminal_putentryat c t.terminal_column t.terminal_row t in
    let size : length put.terminal_buffer ≡ t.textbuffer_width * t.textbuffer_height =
      length-set t.terminal_buffer _ _ ∙ v.cells in
    let line = record t { terminal_column = 0; terminal_row = t.terminal_row + 1 } in
    let next = record put { terminal_column = 0; terminal_row = t.terminal_row + 1 } in
    elim (Bool-cases (c == 0x0A)) [
      | inl e ↦ elim (Bool-cases (t.terminal_row + 1 == t.textbuffer_height)) [
        | inl k ↦
            rw (e, k)
              (shell_scroll-Ends line wide v.cells (omega (arith, v.row)) (omega (arith, v.column)))
        | inr k ↦ (
          line,
          rw (e, k) refl,
          record { cells = v.cells; row = ground (arith, v.row); column = omega (arith, v.column) },
          (refl, refl),
        )
      ]
      | inr e ↦ elim (Bool-cases (c == 0x09)) [
        | inl k ↦ (t, rw (e, k) refl, v, (refl, refl))
        | inr k ↦ elim (Bool-cases (leb t.textbuffer_width (t.terminal_column + 1))) [
          | inl m ↦ elim (Bool-cases (leb t.textbuffer_height (t.terminal_row + 1))) [
            | inl q ↦
                rw (e, k, m, q)
                  (shell_scroll-Ends next wide size (omega (arith, v.row))
                    (omega (arith, v.column)))
            | inr q ↦ (
              next,
              rw (e, k, m, q) refl,
              record { cells = size; row = ground arith; column = omega (arith, v.column) },
              (refl, refl),
            )
          ]
          | inr m ↦ (
            record put { terminal_column = t.terminal_column + 1 },
            rw (e, k, m) refl,
            record { cells = size; row = v.row; column = ground arith },
            (refl, refl),
          )
        ]
      ]
    ]

-- On a screen of fewer than 256 columns, writing text ends and keeps the cursor on the screen, and
-- the screen its size, through all wraps and scrolls.
pub terminal_write-IsTerminal :
    (text : List ℕ) (t : Terminal)
    → IsTerminal t
    → t.textbuffer_width < 256
    → (t' : Terminal) × (terminal_write text t ≡ some t') × IsTerminal t' × SameScreen t t'
unfolding terminal_write
terminal_write-IsTerminal [] t v wide = (t, refl, v, (refl, refl))
terminal_write-IsTerminal (c ∷ text) t v wide =
    let (t', ends, w, one) = terminal_putchar-Ends c t v wide in
    let (t'', ends', w', rest) = terminal_write-IsTerminal text t' w (omega (arith, one.0)) in
    (t'', rw (terminal_write, ends) ends', w', (rest.0 ∙ one.0, rest.1 ∙ one.1))
