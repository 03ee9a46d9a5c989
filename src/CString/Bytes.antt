-- ===== src/CString/Bytes.antt =====
-- `merge_bytes` reads a little-endian number.
use pygmali_os.Base.{ℕ, ◌+◌, ◌*◌, ◌^◌, ◌<◌, ◌≡◌, arith, List, get_or}
use pygmali_os.Base.Bits.{bit_or_above, bit_or_comm, bit_or-zero}
use pygmali_os.CString.{merge_bytes}

-- Four bytes are merged into a 32-bit word, the first one lowest.
pub merge_bytes-four :
    (bs : List ℕ)
    → get_or bs 0 0 < 256
    → get_or bs 1 0 < 256
    → get_or bs 2 0 < 256
    → get_or bs 3 0 < 256
    → merge_bytes bs 4
      ≡ get_or bs 3 0 * 2 ^ 24 + get_or bs 2 0 * 2 ^ 16 + get_or bs 1 0 * 2 ^ 8 + get_or bs 0 0
unfolding merge_bytes
merge_bytes-four bs h0 h1 h2 h3 =
    let a = get_or bs 0 0 in
    let b = get_or bs 1 0 in
    let c = get_or bs 2 0 in
    let d = get_or bs 3 0 in
    ground (
      arith,
      bit_or_comm 0 a,
      bit_or-zero a,
      bit_or_above 8 b a,
      bit_or_above 16 c (b * 2 ^ 8 + a),
      bit_or_above 24 d (c * 2 ^ 16 + b * 2 ^ 8 + a),
    )
