-- ===== src/Boot/Memory.antt =====
-- The guest's memory, mapped at its physical address 0: the byte at each address. What the writes of
-- tinymachine-fork/src/arch/x86_64/boot.rs do to it, the low byte of a word first.
use tinymachine.Common.{
  ℕ, ◌+◌, ◌-◌, ◌*◌, ◌/◌, ◌%◌, ◌^◌, ◌≤◌, ◌<◌, ◌≡◌, ◌⊎◌, true, false, ◌&&◌, refl, ap, ◌∙◌, leb, ltb,
  if◌then◌else◌, List, length, get_or, arith,
}

abbrev pub Memory : Type 0
Memory = ℕ → ℕ

unfoldable pub write_guest_u64 : Memory → ℕ → ℕ → Memory
write_guest_u64 m guest_phys value i =
    if leb guest_phys i && ltb i (guest_phys + 8) then value / 256 ^ (i - guest_phys) % 256 else m i

unfoldable pub write_guest_slice : Memory → ℕ → List ℕ → Memory
write_guest_slice m guest_phys data_of i =
    if leb guest_phys i && ltb i (guest_phys + length data_of)
    then get_or data_of (i - guest_phys) 0
    else m i

-- what the processor reads
unfoldable pub read_u64 : Memory → ℕ → ℕ
read_u64 m a =
    m a
    + m (a + 1) * 256
    + m (a + 2) * 256 ^ 2
    + m (a + 3) * 256 ^ 3
    + m (a + 4) * 256 ^ 4
    + m (a + 5) * 256 ^ 5
    + m (a + 6) * 256 ^ 6
    + m (a + 7) * 256 ^ 7

byte_written : (m : Memory) (a v k : ℕ) → k < 8 → write_guest_u64 m a v (a + k) ≡ v / 256 ^ k % 256
unfolding write_guest_u64
byte_written m a v k h =
    let offset : a + k - a ≡ k = omega arith in
    let here : leb a (a + k) && ltb (a + k) (a + 8) ≡ true = ground arith in rw (offset, here) refl

pub byte_kept : (m : Memory) (a v i : ℕ) → (i < a) ⊎ (a + 8 ≤ i) → write_guest_u64 m a v i ≡ m i
unfolding write_guest_u64
byte_kept m a v i h = let away : leb a i && ltb i (a + 8) ≡ false = ground arith in rw away refl

-- eight bytes, one after another, that agree
pub read_u64-agree :
    (m m' : Memory) (a b : ℕ)
    → ((k : ℕ) → k < 8 → m (a + k) ≡ m' (b + k))
    → read_u64 m a ≡ read_u64 m' b
unfolding read_u64
read_u64-agree m m' a b same =
    let first : m a ≡ m' b =
      ap m {x = a} {y = a + 0} (omega arith)
      ∙ same 0 (omega arith)
      ∙ ap m' {x = b + 0} {y = b} (omega arith) in
    omega (
      arith,
      first,
      same 1 (omega arith),
      same 2 (omega arith),
      same 3 (omega arith),
      same 4 (omega arith),
      same 5 (omega arith),
      same 6 (omega arith),
      same 7 (omega arith),
    )

-- the bytes of a word, as they stand from address 0
bytes_joined : (v : ℕ) → v < 2 ^ 64 → read_u64 (λ i. v / 256 ^ i % 256) 0 ≡ v
unfolding read_u64
bytes_joined v h = omega arith

-- A word is read as it was written.
pub read_u64-write_same :
    (m : Memory) (a v : ℕ) → v < 2 ^ 64 → read_u64 (write_guest_u64 m a v) a ≡ v
read_u64-write_same m a v h =
    read_u64-agree (write_guest_u64 m a v) (λ i. v / 256 ^ i % 256) a 0
      (λ k lt. byte_written m a v k lt ∙ ap (λ j. v / 256 ^ j % 256) (omega arith))
    ∙ bytes_joined v h

-- A word apart from the one written is read as before.
pub read_u64-write_other :
    (m : Memory) (a b v : ℕ)
    → (b + 8 ≤ a) ⊎ (a + 8 ≤ b)
    → read_u64 (write_guest_u64 m a v) b ≡ read_u64 m b
read_u64-write_other m a b v h =
    read_u64-agree (write_guest_u64 m a v) m b b (λ k lt. byte_kept m a v (b + k) (ground arith))

-- A slice leaves every other byte as it is.
pub slice_kept :
    (m : Memory) (a : ℕ) (bytes : List ℕ) (i : ℕ)
    → (i < a) ⊎ (a + length bytes ≤ i)
    → write_guest_slice m a bytes i ≡ m i
unfolding write_guest_slice
slice_kept m a bytes i h =
    let away : leb a i && ltb i (a + length bytes) ≡ false = ground arith in rw away refl

-- A slice stands where it was written.
pub slice_written :
    (m : Memory) (a : ℕ) (bytes : List ℕ) (i : ℕ)
    → i < length bytes
    → write_guest_slice m a bytes (a + i) ≡ get_or bytes i 0
unfolding write_guest_slice
slice_written m a bytes i h =
    let here : leb a (a + i) && ltb (a + i) (a + length bytes) ≡ true = ground (arith, h) in
    let offset : a + i - a ≡ i = omega arith in rw (here, offset) refl
