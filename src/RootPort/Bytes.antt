-- ===== src/RootPort/Bytes.antt =====
-- The byte loops of `config_read` and `config_write`.
use native.Mathlib.Nat.{pow-suc}
use native.Mathlib.Numerals.{towards_suc}
use tinymachine.Common.{
  ℕ, zero, suc, ◌+◌, ◌*◌, ◌/◌, ◌%◌, ◌^◌, ◌≤◌, ◌<◌, ◌≡◌, refl, ◌∙◌, ap, ◌⊎◌, inl, List, set, get_or,
  length, arith, length-set, get_or-set,
}
use tinymachine.Common.Bits.{bit_or_disjoint}
use tinymachine.RootPort.{read_bytes, write_bytes}

abbrev pub byte_at : List ℕ → ℕ → ℕ
byte_at c i = get_or c i 0

set_self : (c : List ℕ) (i v : ℕ) → i < length c → byte_at (set c i v) i ≡ v
set_self c i v h = ground (arith, get_or-set c i i v 0)

-- every entry is a byte
abbrev pub IsBytes : List ℕ → Type 0
IsBytes c = (i : ℕ) → byte_at c i < 256

-- the little-endian number that `n` bytes from `i` on spell
unfoldable pub word : List ℕ → ℕ → ℕ → ℕ
word c i zero = 0
word c i (suc n) = byte_at c i + 256 * word c (suc i) n

pub length-write_bytes : (c : List ℕ) (i n k val : ℕ) → length (write_bytes c i n k val) ≡ length c
unfolding write_bytes
length-write_bytes c i zero k val = refl
length-write_bytes c i (suc n) k val =
    let b = val / 2 ^ (k * 8) % 256 in
    length-write_bytes (set c i b) (suc i) n (suc k) val ∙ length-set c i b

-- A write leaves the bytes outside its range alone.
pub byte_at-write_bytes :
    (c : List ℕ) (i n k val j : ℕ)
    → i + n ≤ length c
    → (j < i) ⊎ (i + n ≤ j)
    → byte_at (write_bytes c i n k val) j ≡ byte_at c j
unfolding write_bytes
byte_at-write_bytes c i zero k val j fits out = refl
byte_at-write_bytes c i (suc n) k val j fits out =
    let b = val / 2 ^ (k * 8) % 256 in
    byte_at-write_bytes (set c i b) (suc i) n (suc k) val j (omega (arith, length-set c i b))
      (omega arith)
    ∙ ground (arith, get_or-set c i j b 0)

pub set-IsBytes : (c : List ℕ) (i v : ℕ) → i < length c → v < 256 → IsBytes c → IsBytes (set c i v)
set-IsBytes c i v fits small h j = ground (arith, get_or-set c i j v 0, h j)

pub write_bytes-IsBytes :
    (c : List ℕ) (i n k val : ℕ) → i + n ≤ length c → IsBytes c → IsBytes (write_bytes c i n k val)
unfolding write_bytes
write_bytes-IsBytes c i zero k val fits h = h
write_bytes-IsBytes c i (suc n) k val fits h =
    let b = val / 2 ^ (k * 8) % 256 in
    write_bytes-IsBytes (set c i b) (suc i) n (suc k) val (omega (arith, length-set c i b))
      (set-IsBytes c i b (omega arith) (omega arith) h)

pow-suc_mul_eight : (k : ℕ) → 2 ^ (suc k * 8) ≡ 256 * 2 ^ (k * 8)
pow-suc_mul_eight k =
    let e : suc k * 8 ≡ k * 8 + 8 = omega arith in
    rw e (simp towards_suc (simp pow-suc (omega arith)))

byte_fits : (p val b : ℕ) → val < p → b < 256 → val + b * p < 256 * p
byte_fits p val b h l = grind arith

-- The loop that reads adds each byte above those read before.
pub read_bytes-word :
    (c : List ℕ) (i n k val : ℕ)
    → IsBytes c
    → val < 2 ^ (k * 8)
    → read_bytes c i n k val ≡ val + 2 ^ (k * 8) * word c i n
unfolding read_bytes word
read_bytes-word c i zero k val h low = omega arith
read_bytes-word c i (suc n) k val h low =
    let b = byte_at c i in
    let p = 2 ^ (k * 8) in
    let e = pow-suc_mul_eight k in
    rw (bit_or_disjoint (k * 8) val b low) (
      read_bytes-word c (suc i) n (suc k) (val + b * p) h
        (omega (arith, byte_fits p val b low (h i)))
      ∙ omega (arith, ap (λ (t : ℕ). t * word c (suc i) n) e))

-- the number that `n` bytes of `val` from the `k`-th on spell
spelled : ℕ → ℕ → ℕ → ℕ
spelled zero k val = 0
spelled (suc n) k val = val / 2 ^ (k * 8) % 256 + 256 * spelled n (suc k) val

word-write_bytes-spelled :
    (c : List ℕ) (i n k val : ℕ)
    → i + n ≤ length c
    → word (write_bytes c i n k val) i n ≡ spelled n k val
unfolding write_bytes word spelled
word-write_bytes-spelled c i zero k val fits = refl
word-write_bytes-spelled c i (suc n) k val fits =
    let b = val / 2 ^ (k * 8) % 256 in
    let l = length-set c i b in
    omega (
      arith,
      word-write_bytes-spelled (set c i b) (suc i) n (suc k) val (omega arith),
      byte_at-write_bytes (set c i b) (suc i) n (suc k) val i (omega arith) (inl (omega arith)),
      set_self c i b (omega arith),
    )

spelled-mod : (n val : ℕ) → n ≤ 4 → spelled n 0 val ≡ val % 256 ^ n
unfolding spelled
spelled-mod zero val le = omega arith
spelled-mod (suc zero) val le = omega arith
spelled-mod (suc (suc zero)) val le = omega arith
spelled-mod (suc (suc (suc zero))) val le = omega arith
spelled-mod (suc (suc (suc (suc zero)))) val le = omega arith
spelled-mod (suc (suc (suc (suc (suc n))))) val le = absurd (omega arith)

-- Writing a number of up to four bytes leaves the bytes that spell it.
pub word-write_bytes :
    (c : List ℕ) (i n val : ℕ)
    → i + n ≤ length c
    → n ≤ 4
    → word (write_bytes c i n 0 val) i n ≡ val % 256 ^ n
word-write_bytes c i n val fits le =
    word-write_bytes-spelled c i n 0 val fits ∙ spelled-mod n val le
