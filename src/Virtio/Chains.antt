-- ===== src/Virtio/Chains.antt =====
-- Chains of descriptors that the device reads: `handle_queue_kick` of
-- tinymachine-fork/src/net/virtio_net_pci.rs.
use tinymachine.Common.{
  ℕ, zero, suc, ◌-◌, ◌≤◌, min, ◌≡◌, refl, ap, sym, ◌∙◌, Bool-cases, true, false, if◌then◌else◌,
  none, some, inl, inr, List, [], ◌∷◌, ◌++◌, length, length-append, take, arith,
}
use tinymachine.Common.Slices.{take-append, take_none}
use tinymachine.Boot.Memory.{Memory}
use tinymachine.Virtio.{max_packet_size}
use tinymachine.Virtio.Rings.{
  VringDesc, desc_at, is_last, is_readable, read_bytes, copy_readable, gather,
}

-- The chain that begins at a descriptor ends, and these are its descriptors.
pub data Chain (m : Memory) (desc_off : ℕ) : ℕ → List VringDesc → Type 0 where
  at_end :
      {i : ℕ}
      → is_last (desc_at m desc_off i) ≡ true
      → Chain m desc_off i (desc_at m desc_off i ∷ [])
  linked :
      {i : ℕ} {descs : List VringDesc}
      → is_last (desc_at m desc_off i) ≡ false
      → Chain m desc_off (desc_at m desc_off i).next descs
      → Chain m desc_off i (desc_at m desc_off i ∷ descs)

-- what stands in the readable buffers of a chain
abbrev pub readable_bytes : Memory → List VringDesc → List ℕ
readable_bytes m [] = []
readable_bytes m (desc ∷ descs) =
    (if is_readable desc then read_bytes m desc.addr desc.len else []) ++ readable_bytes m descs

take-read_bytes : (m : Memory) (k a n : ℕ) → take k (read_bytes m a n) ≡ read_bytes m a (min n k)
take-read_bytes m zero a n = ap (read_bytes m a) {x = 0} {y = min n 0} (omega arith)
take-read_bytes m (suc k) a zero = ap (read_bytes m a) {x = 0} {y = min 0 (suc k)} (omega arith)
take-read_bytes m (suc k) a (suc n) =
    ap (λ zs. m a ∷ zs) (take-read_bytes m k (suc a) n)
    ∙ ap (read_bytes m a) {x = suc (min n k)} {y = min (suc n) (suc k)} (omega arith)

length-read_bytes : (m : Memory) (a n : ℕ) → length (read_bytes m a n) ≡ n
length-read_bytes m a zero = refl
length-read_bytes m a (suc n) = ap suc (length-read_bytes m (suc a) n)

-- A readable buffer is copied as far as the packet has room.
pub buffer_taken :
    (m : Memory) (room a n : ℕ) (more : List ℕ)
    → take room (read_bytes m a n ++ more)
      ≡ read_bytes m a (min n room) ++ take (room - min n room) more
buffer_taken m room a n more =
    take-append room (read_bytes m a n) more
    ∙ ap (λ xs. xs ++ take (room - length (read_bytes m a n)) more) (take-read_bytes m room a n)
    ∙ ap (λ k. read_bytes m a (min n room) ++ take k more) (omega (arith, length-read_bytes m a n))

append_assoc : (xs ys zs : List ℕ) → xs ++ ys ++ zs ≡ xs ++ (ys ++ zs)
append_assoc [] ys zs = refl
append_assoc (x ∷ xs) ys zs = ap (λ l. x ∷ l) (append_assoc xs ys zs)

pub append_nothing : (k : ℕ) (xs : List ℕ) → xs ++ take k [] ≡ xs
append_nothing k [] = take_none k
append_nothing k (x ∷ xs) = ap (λ l. x ∷ l) (append_nothing k xs)

-- a readable buffer at the end of a packet
buffer_appended :
    (m : Memory) (a n : ℕ) (packet more : List ℕ)
    → let room = max_packet_size - length packet in
      let now = packet ++ read_bytes m a (min n room) in
      now ++ take (max_packet_size - length now) more
      ≡ packet ++ take room (read_bytes m a n ++ more)
buffer_appended m a n packet more =
    let room = max_packet_size - length packet in
    let now = read_bytes m a (min n room) in
    let left : max_packet_size - length (packet ++ now) ≡ room - min n room =
      omega (arith, length-append packet now, length-read_bytes m a (min n room)) in
    append_assoc packet now (take (max_packet_size - length (packet ++ now)) more)
    ∙ ap (λ k. packet ++ (now ++ take k more)) left
    ∙ ap (λ xs. packet ++ xs) (sym (buffer_taken m room a n more))

copy_readable_lem :
    (m : Memory) (desc : VringDesc) (packet more : List ℕ)
    → copy_readable m desc packet
        ++ take (max_packet_size - length (copy_readable m desc packet)) more
      ≡ packet
        ++ take
            (max_packet_size - length packet)
            ((if is_readable desc then read_bytes m desc.addr desc.len else []) ++ more)
unfolding copy_readable
copy_readable_lem m desc packet more = elim (Bool-cases (is_readable desc)) [
  | inl readable ↦ rw readable (buffer_appended m desc.addr desc.len packet more)
  | inr writable ↦ rw writable refl
]

-- The fuel is enough for a chain of so many descriptors, and what is read of it are the bytes in its readable
-- buffers, one buffer after another, as far as the packet has room.
gather_from :
    (m : Memory) (desc_off i fuel : ℕ) (descs : List VringDesc) (packet : List ℕ)
    → Chain m desc_off i descs
    → length descs ≤ fuel
    → gather fuel m desc_off i packet
      ≡ some (packet ++ take (max_packet_size - length packet) (readable_bytes m descs))
unfolding gather
gather_from m desc_off i zero descs packet (at_end e) le = absurd (omega arith)
gather_from m desc_off i zero descs packet (linked e c) le = absurd (omega arith)
gather_from m desc_off i (suc fuel) descs packet (at_end e) le =
    let copied = copy_readable m (desc_at m desc_off i) packet in
    rw e (
      ap some (
        sym (append_nothing (max_packet_size - length copied) copied)
        ∙ copy_readable_lem m (desc_at m desc_off i) packet []))
gather_from m desc_off i (suc fuel) descs packet (linked {descs = more} e c) le =
    let desc = desc_at m desc_off i in
    rw e (
      gather_from m desc_off desc.next fuel more (copy_readable m desc packet) c (omega arith)
      ∙ ap some (copy_readable_lem m desc packet (readable_bytes m more)))

-- A kick reads a chain that ends, of no more descriptors than the fuel, as the first 2048 bytes of its readable
-- buffers, one after another.
pub gather-Chain :
    (m : Memory) (desc_off i fuel : ℕ) (descs : List VringDesc)
    → Chain m desc_off i descs
    → length descs ≤ fuel
    → gather fuel m desc_off i [] ≡ some (take max_packet_size (readable_bytes m descs))
gather-Chain m desc_off i fuel descs c le = gather_from m desc_off i fuel descs [] c le

-- From a set of descriptors that each lead on to another one of the set the loop does not return, whatever the
-- fuel: nothing in the code bounds it.
gather-endless :
    (m : Memory) (desc_off : ℕ) (P : ℕ → Type 0)
    → ((i : ℕ) → P i → (is_last (desc_at m desc_off i) ≡ false) × P (desc_at m desc_off i).next)
    → (i fuel : ℕ) (packet : List ℕ) → P i
    → gather fuel m desc_off i packet ≡ none
unfolding gather
gather-endless m desc_off P step i zero packet h = refl
gather-endless m desc_off P step i (suc fuel) packet h =
    let desc = desc_at m desc_off i in
    rw ((step i h).0)
      (gather-endless m desc_off P step desc.next fuel (copy_readable m desc packet) (step i h).1)
