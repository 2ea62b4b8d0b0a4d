-- ===== src/Base/Bytes.antt =====
-- Byte strings as lists of numbers: `int.from_bytes`, `int.to_bytes` and `struct.pack` in
-- big-endian order.
use jebao_flow_engine.Base.Lists.{length, length-append, All, All-append}
use Prim.Native.Nat.{ℕ, zero, suc, ◌+◌, ◌*◌, ◌/◌, ◌%◌, ◌^◌, ◌≤◌, ◌<◌}
use mathlib.Core.Path.{◌≡◌, refl, ap, ◌∙◌}
use mathlib.Core.List.{List, [], ◌∷◌, ◌++◌}
use native.Mathlib.Nat.{pow-suc, mul-le-mul_right}
use native.Mathlib.Omega.{arith}

abbrev pub IsByte : ℕ → Type 0
IsByte b = b < 256

abbrev pub Bytes : Type 0
Bytes = List ℕ

from_bytes_from : ℕ → Bytes → ℕ
from_bytes_from acc [] = acc
from_bytes_from acc (b ∷ bs) = from_bytes_from (acc * 256 + b) bs

-- `int.from_bytes(bytes, "big")`
unfoldable pub from_bytes : Bytes → ℕ
unfolding from_bytes_from
from_bytes bs = from_bytes_from 0 bs

-- `value.to_bytes(size, "big")` for a value that fits
unfoldable pub to_bytes : ℕ → ℕ → Bytes
to_bytes zero value = []
to_bytes (suc size) value = to_bytes size (value / 256) ++ (value % 256 ∷ [])

pub length-to_bytes : (size value : ℕ) → length (to_bytes size value) ≡ size
unfolding to_bytes
length-to_bytes zero value = refl
length-to_bytes (suc size) value = omega (
  arith,
  length-append (to_bytes size (value / 256)) (value % 256 ∷ []),
  length-to_bytes size (value / 256),
)

pub to_bytes-IsByte : (size value : ℕ) → All IsByte (to_bytes size value)
unfolding to_bytes
to_bytes-IsByte zero value = tt
to_bytes-IsByte (suc size) value =
    All-append IsByte (to_bytes size (value / 256)) (value % 256 ∷ [])
      (to_bytes-IsByte size (value / 256)) (omega arith, tt)

from_bytes_from-append :
    (acc : ℕ) (bs : Bytes) (b : ℕ)
    → from_bytes_from acc (bs ++ (b ∷ [])) ≡ from_bytes_from acc bs * 256 + b
unfolding from_bytes_from
from_bytes_from-append acc [] b = refl
from_bytes_from-append acc (x ∷ bs) b = from_bytes_from-append (acc * 256 + x) bs b

pub from_bytes-append : (bs : Bytes) (b : ℕ) → from_bytes (bs ++ (b ∷ [])) ≡ from_bytes bs * 256 + b
unfolding from_bytes
from_bytes-append bs b = from_bytes_from-append 0 bs b

pub from_bytes-to_bytes :
    (size value : ℕ) → value < 256 ^ size → from_bytes (to_bytes size value) ≡ value
unfolding to_bytes
from_bytes-to_bytes zero value h = unfold from_bytes in omega arith
from_bytes-to_bytes (suc size) value h =
    from_bytes-append (to_bytes size (value / 256)) (value % 256)
    ∙ omega (
      arith,
      pow-suc 256 size,
      from_bytes-to_bytes size (value / 256) (omega (arith, pow-suc 256 size)),
    )

from_bytes_from-lt :
    (bs : Bytes) (acc : ℕ) → All IsByte bs → from_bytes_from acc bs < (acc + 1) * 256 ^ length bs
unfolding from_bytes_from
from_bytes_from-lt [] acc h = omega arith
from_bytes_from-lt (b ∷ bs) acc (hb, hbs) =
    let p = 256 ^ length bs in
    let room : (acc * 256 + b + 1) * p ≤ (acc + 1) * 256 * p =
      mul-le-mul_right {m = acc * 256 + b + 1} {n = (acc + 1) * 256} p (omega arith) in
    let grown : (acc + 1) * 256 ^ suc (length bs) ≡ (acc + 1) * 256 * p =
      omega (arith, ap (λ (t : ℕ). (acc + 1) * t) (pow-suc 256 (length bs))) in
    omega (arith, from_bytes_from-lt bs (acc * 256 + b) hbs, room, grown)

pub from_bytes-lt : (bs : Bytes) → All IsByte bs → from_bytes bs < 256 ^ length bs
unfolding from_bytes
from_bytes-lt bs h = omega (arith, from_bytes_from-lt bs 0 h)
