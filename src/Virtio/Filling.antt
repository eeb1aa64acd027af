-- ===== src/Virtio/Filling.antt =====
-- Chains of descriptors that the device writes: `try_rx` of tinymachine-fork/src/net/virtio_net_pci.rs.
pub mod Loops
use tinymachine.Common.{
  ℕ, zero, suc, ◌+◌, ◌-◌, ◌*◌, ◌≤◌, ◌<◌, min, ◌≡◌, ◌⊎◌, inl, inr, refl, ap, sym, ◌∙◌, subst, Bool,
  Bool-cases, true, false, ◌&&◌, ◌||◌, ◌==◌, ltb, if◌then◌else◌, Option, none, some, List, [], ◌∷◌,
  ◌++◌, length, get_or, take, drop, length-take, length-drop, All, arith,
}
use tinymachine.Common.Slices.{take_none, drop_none, take-min, drop-min, take-add, drop-add}
use tinymachine.Boot.Memory.{Memory, write_guest_slice, slice_kept, slice_written}
use tinymachine.Virtio.{queue_size}
use tinymachine.Virtio.Rings.{VringDesc, desc_at, is_last, is_readable, read_bytes, fill}
use tinymachine.Virtio.Chains.{Chain, at_end, linked, buffer_taken, append_nothing}
use tinymachine.Virtio.Regions.{AgreeOutside, IsApart, read_bytes-outside}
use tinymachine.Virtio.Stability.{IsTidy, next-inside, Chain-kept}

-- what stands in the buffers of a chain, and how much room they have
abbrev pub buffer_bytes : Memory → List VringDesc → List ℕ
buffer_bytes m [] = []
buffer_bytes m (desc ∷ descs) = read_bytes m desc.addr desc.len ++ buffer_bytes m descs

abbrev pub capacity : List VringDesc → ℕ
capacity [] = 0
capacity (desc ∷ descs) = desc.len + capacity descs

-- buffers apart from a stretch of bytes, and from each other
abbrev pub Avoid : ℕ → ℕ → List VringDesc → Type 0
Avoid low high descs = All (λ desc. IsApart low high desc.addr desc.len) descs

abbrev pub IsDisjoint : List VringDesc → Type 0
IsDisjoint [] = Unit
IsDisjoint (desc ∷ descs) = Avoid desc.addr (desc.addr + desc.len) descs × IsDisjoint descs

abbrev pub IsWritable : VringDesc → Type 0
IsWritable desc = is_readable desc ≡ false

read_bytes-is :
    (m : Memory) (a : ℕ) (xs : List ℕ)
    → ((i : ℕ) → i < length xs → m (a + i) ≡ get_or xs i 0)
    → read_bytes m a (length xs) ≡ xs
read_bytes-is m a [] h = refl
read_bytes-is m a (x ∷ xs) h =
    let first : m a ≡ x = ap m {x = a} {y = a + 0} (omega arith) ∙ h 0 (omega arith) in
    ap (λ b. b ∷ read_bytes m (suc a) (length xs)) first
    ∙ ap (λ l. x ∷ l)
        (read_bytes-is m (suc a) xs
          (λ i lt. ap m {x = suc a + i} {y = a + suc i} (omega arith) ∙ h (suc i) (omega arith)))

-- Bytes are read as they were written.
read_bytes-written :
    (m : Memory) (a : ℕ) (xs : List ℕ) → read_bytes (write_guest_slice m a xs) a (length xs) ≡ xs
read_bytes-written m a xs =
    read_bytes-is (write_guest_slice m a xs) a xs (λ i lt. slice_written m a xs i lt)

pub read_bytes-same :
    (m m' : Memory) (a n : ℕ)
    → ((k : ℕ) → k < n → m (a + k) ≡ m' (a + k))
    → read_bytes m a n ≡ read_bytes m' a n
read_bytes-same m m' a zero h = refl
read_bytes-same m m' a (suc n) h =
    let first : m a ≡ m' a =
      ap m {x = a} {y = a + 0} (omega arith)
      ∙ h 0 (omega arith)
      ∙ ap m' {x = a + 0} {y = a} (omega arith) in
    ap (λ b. b ∷ read_bytes m (suc a) n) first
    ∙ ap (λ l. m' a ∷ l)
        (read_bytes-same m m' (suc a) n (λ k lt.
          ap m {x = suc a + k} {y = a + suc k} (omega arith)
          ∙ h (suc k) (omega arith)
          ∙ ap m' {x = a + suc k} {y = suc a + k} (omega arith)))

pub Avoid-within :
    (low high a : ℕ) (descs : List VringDesc)
    → low ≤ a
    → a < high
    → Avoid low high descs
    → Avoid a (a + 1) descs
Avoid-within low high a [] h h' avoid = tt
Avoid-within low high a (desc ∷ descs) h h' avoid =
    (ground (arith, h, h', avoid.0), Avoid-within low high a descs h h' avoid.1)

-- what a loop over a chain leaves: the bytes that did not fit, the memory as it was apart from the
-- buffers, and the others in the buffers, one after another
abbrev pub IsFilled : Memory → List VringDesc → List ℕ → Option (Memory × List ℕ) → Type 0
IsFilled m descs bytes outcome =
    (after : Memory) × (outcome ≡ some (after, drop (capacity descs) bytes))
    × ((a : ℕ) → Avoid a (a + 1) descs → after a ≡ m a)
    × (take (length bytes) (buffer_bytes after descs) ≡ take (capacity descs) bytes)

-- the bytes of one buffer
pub one_buffer :
    (m after : Memory) (a len : ℕ) (bytes : List ℕ) (more : List ℕ)
    → read_bytes after a len
      ≡ read_bytes (write_guest_slice m a (take (min len (length bytes)) bytes)) a len
    → take (length bytes) (read_bytes after a len ++ more)
      ≡ take len bytes ++ take (length bytes - min len (length bytes)) more
one_buffer m after a len bytes more same =
    let n = min len (length bytes) in
    let written = write_guest_slice m a (take n bytes) in
    let exact : length (take n bytes) ≡ n = omega (arith, length-take n bytes) in
    rw same (
      buffer_taken written (length bytes) a len more
      ∙ ap (λ l. l ++ take (length bytes - n) more)
          (ap (read_bytes written a) (sym exact)
            ∙ read_bytes-written m a (take n bytes)
            ∙ take-min len bytes))
