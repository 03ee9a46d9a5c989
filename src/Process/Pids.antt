-- ===== src/Process/Pids.antt =====
-- The choice of a pid in `create_process` of src/process.c.
use pygmali_os.Base.{
  ℕ, zero, suc, ◌+◌, ◌/◌, ◌%◌, ◌≡◌, refl, arith, true, false, List, ◌==◌, get_or, shl, bit_and,
}
use pygmali_os.Base.Bits.{bit_and_mask}
use pygmali_os.Base.{none}
use pygmali_os.Process.{choose_pid}
use native.Mathlib.Nat.{one-le-pow}

-- The comparison is with a power of two, which is not zero, so no pid is found free.
choose_pid-none : (n i : ℕ) (pid_bitmap : List ℕ) → choose_pid n i pid_bitmap ≡ none
unfolding choose_pid
choose_pid-none zero i pid_bitmap = refl
choose_pid-none (suc n) i pid_bitmap =
    let power = one-le-pow (i % 8) 2 in
    let test : (shl 1 (i % 8) == 0) ≡ false = ground arith in
    let byte : (bit_and (get_or pid_bitmap (i / 8) 0) 0 == 0) ≡ true =
      ground (arith, bit_and_mask 0 (get_or pid_bitmap (i / 8) 0)) in
    rw (test, byte) (choose_pid-none n (i + 1) pid_bitmap)
