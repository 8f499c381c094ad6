-- ===== src/Bytes.antt =====
-- Byte slices as lists of numbers: what the code uses of encoding/binary, of the built-in `copy`, of
-- slice expressions, of big.Int's SetBytes, and common/utils.go's SwapEndianness.
pub mod Laws
use hermez_node.Prelude.{
  ℕ, zero, suc, ◌+◌, ◌*◌, ◌/◌, ◌%◌, ◌^◌, ◌-◌, ◌<◌, List, [], ◌∷◌, ◌++◌, length, take, drop, leb,
  ◌&&◌, if◌then◌else◌, reverse, replicate,
}
use hermez_node.Prelude.Result.{Result, ok, err, out_of_range}

abbrev pub IsByte : ℕ → Type 0
IsByte b = b < 256

-- The `w` lowest bytes of `v`, the highest of them first (binary.BigEndian.PutUint64 is `be 8`).
unfoldable pub be : ℕ → ℕ → List ℕ
be zero v = []
be (suc w) v = (v / 256 ^ w % 256) ∷ be w v

abbrev pub from_be_acc : ℕ → List ℕ → ℕ
from_be_acc acc [] = acc
from_be_acc acc (b ∷ bs) = from_be_acc (acc * 256 + b) bs

-- `binary.BigEndian.Uint64(b)` on 8 bytes, `new(big.Int).SetBytes(b)` on any.
unfoldable pub from_be : List ℕ → ℕ
from_be bs = from_be_acc 0 bs

-- `copy(dst, src)`: as many bytes as both have.
unfoldable pub copy : List ℕ → List ℕ → List ℕ
copy [] src = []
copy (d ∷ ds) [] = d ∷ ds
copy (d ∷ ds) (s ∷ ss) = s ∷ copy ds ss

-- `copy(dst[off:], src)` for an offset within `dst`.
unfoldable pub copy_at : ℕ → List ℕ → List ℕ → List ℕ
unfolding copy
copy_at zero dst src = copy dst src
copy_at (suc off) [] src = []
copy_at (suc off) (d ∷ ds) src = d ∷ copy_at off ds src

-- `make([]byte, n)` and `[n]byte{}`
abbrev pub zeros : ℕ → List ℕ
zeros n = replicate n 0

-- `b[i:j]`, which panics unless i <= j <= len(b)
unfoldable pub slice : ℕ → ℕ → List ℕ → Result (List ℕ)
slice i j b = if leb i j && leb j (length b) then ok (take (j - i) (drop i b)) else err out_of_range

-- `SwapEndianness`
unfoldable pub swap_endianness : List ℕ → List ℕ
swap_endianness b = reverse b
