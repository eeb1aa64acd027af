-- ===== src/Virtio/Filling/Loops.antt =====
-- The loop of `try_rx` in tinymachine-fork/src/net/virtio_net_pci.rs over a chain of descriptors.
use tinymachine.Common.{
  ℕ, zero, suc, ◌+◌, ◌-◌, ◌≤◌, ◌<◌, min, ◌≡◌, refl, ap, sym, ◌∙◌, subst, Bool, true, false, ◌&&◌,
  ◌==◌, ltb, if◌then◌else◌, Option, some, List, [], ◌∷◌, ◌++◌, length, take, drop, length-take,
  length-drop, All, arith,
}
use tinymachine.Common.Slices.{take_none, drop_none, drop-min, take-add, drop-add}
use tinymachine.Boot.Memory.{Memory, write_guest_slice, slice_kept}
use tinymachine.Virtio.{queue_size}
use tinymachine.Virtio.Rings.{VringDesc, desc_at, fill}
use tinymachine.Virtio.Chains.{Chain, at_end, linked, append_nothing}
use tinymachine.Virtio.Regions.{AgreeOutside, IsApart}
use tinymachine.Virtio.Stability.{IsTidy, next-inside, Chain-kept}
use tinymachine.Virtio.Filling.{
  buffer_bytes, capacity, Avoid, Avoid-within, IsDisjoint, IsWritable, IsFilled, read_bytes-same,
  one_buffer,
}

fill_nothing :
    (fuel : ℕ) (m : Memory) (off i : ℕ) (bytes : List ℕ)
    → 0 < fuel
    → length bytes ≡ 0
    → fill fuel m off i bytes ≡ some (m, bytes)
unfolding fill
fill_nothing zero m off i bytes h empty = absurd (omega arith)
fill_nothing (suc fuel) m off i bytes h empty =
    let stop : ltb 0 (length bytes) && ltb i queue_size ≡ false = ground (arith, empty) in
    rw stop refl

-- one descriptor, and what follows it
write_buffer : Memory → VringDesc → List ℕ → Memory
write_buffer m desc bytes = write_guest_slice m desc.addr (take (min desc.len (length bytes)) bytes)

last-IsFilled :
    (m : Memory) (desc : VringDesc) (bytes : List ℕ)
    → IsFilled m
        (desc ∷ [])
        bytes
        (some (write_buffer m desc bytes, drop (min desc.len (length bytes)) bytes))
unfolding write_buffer
last-IsFilled m desc bytes = (
  write_buffer m desc bytes,
  ap (λ l. some (write_buffer m desc bytes, l))
      (drop-min desc.len bytes
        ∙ ap (λ k. drop k bytes) {x = desc.len} {y = desc.len + 0} (omega arith)),
  (λ a out.
      slice_kept m desc.addr (take (min desc.len (length bytes)) bytes) a
        (ground (arith, out.0, length-take (min desc.len (length bytes)) bytes))),
  one_buffer m (write_buffer m desc bytes) desc.addr desc.len bytes [] refl
      ∙ append_nothing (length bytes - min desc.len (length bytes)) (take desc.len bytes)
      ∙ ap (λ k. take k bytes) {x = desc.len} {y = desc.len + 0} (omega arith),
)

linked-IsFilled :
    (m : Memory) (desc : VringDesc) (descs : List VringDesc) (bytes : List ℕ)
    (outcome : Option (Memory × List ℕ))
    → Avoid desc.addr (desc.addr + desc.len) descs
    → IsFilled (write_buffer m desc bytes) descs (drop (min desc.len (length bytes)) bytes) outcome
    → IsFilled m (desc ∷ descs) bytes outcome
unfolding write_buffer
linked-IsFilled m desc descs bytes outcome disjoint h =
    let n = min desc.len (length bytes) in
    let written = write_buffer m desc bytes in
    let left = drop n bytes in
    (
      h.0,
      h.1
          ∙ ap (λ l. some (h.0, l))
              (ap (drop (capacity descs)) (drop-min desc.len bytes)
                ∙ drop-add desc.len (capacity descs) bytes),
      (λ a out.
          h.2 a out.1
          ∙ slice_kept m desc.addr (take n bytes) a (ground (arith, out.0, length-take n bytes))),
      one_buffer m h.0 desc.addr desc.len bytes (buffer_bytes h.0 descs) (
            read_bytes-same h.0 written desc.addr desc.len (λ k lt. h.2 (desc.addr + k) (
              Avoid-within desc.addr (desc.addr + desc.len) (desc.addr + k) descs (omega arith)
                (omega arith) disjoint)))
          ∙ ap (λ k. take desc.len bytes ++ take k (buffer_bytes h.0 descs)) {x = length bytes - n}
              {y = length left} (omega (arith, length-drop n bytes))
          ∙ ap (λ l. take desc.len bytes ++ l)
              (h.3 ∙ ap (take (capacity descs)) (drop-min desc.len bytes))
          ∙ take-add desc.len (capacity descs) bytes,
    )

IsApart-sym :
    (low high off n a len : ℕ)
    → low ≤ off
    → off + 4096 ≤ high
    → n ≤ len
    → IsApart low high a len
    → IsApart a (a + n) off 4096
IsApart-sym low high off n a len before behind le h = ground (arith, h)

-- The buffer that is written is apart from the table.
buffer-IsApart :
    (low high off n : ℕ) (desc : VringDesc)
    → low ≤ off
    → off + 4096 ≤ high
    → n ≤ desc.len
    → IsTidy low high desc
    → IsApart desc.addr (desc.addr + n) off 4096
buffer-IsApart low high off n desc before behind le h =
    IsApart-sym low high off n desc.addr desc.len before behind le h.1

written_outside :
    (m : Memory) (desc : VringDesc) (bytes : List ℕ)
    → AgreeOutside desc.addr (desc.addr + min desc.len (length bytes)) m (write_buffer m desc bytes)
unfolding write_buffer
written_outside m desc bytes a out =
    let n = min desc.len (length bytes) in
    slice_kept m desc.addr (take n bytes) a (ground (arith, out, length-take n bytes))

either : {A : Type 0} (c : Bool) (x y : A) → (c ≡ true → x ≡ y) → (if c then x else y) ≡ y
either true x y h = h refl
either false x y h = refl

Chain-fuel :
    {m : Memory} {off i fuel : ℕ} {descs : List VringDesc}
    → Chain m off i descs
    → length descs ≤ fuel
    → 0 < fuel
Chain-fuel (at_end e) le = omega arith
Chain-fuel (linked e c) le = omega arith

-- Where the table is in a region that the buffers of a chain avoid, and they avoid each other and are writable, the loop
-- fills them one after another.
pub fill-Chain :
    (low high off : ℕ) (m : Memory) (i fuel : ℕ) (descs : List VringDesc) (bytes : List ℕ)
    → low ≤ off
    → off + 4096 ≤ high
    → Chain m off i descs
    → i < queue_size
    → All (IsTidy low high) descs
    → All IsWritable descs
    → IsDisjoint descs
    → length descs ≤ fuel
    → IsFilled m descs bytes (fill fuel m off i bytes)
unfolding fill write_buffer
fill-Chain low high off m i zero descs bytes before behind (at_end e) h tidy w d le =
    absurd (omega arith)
fill-Chain low high off m i zero descs bytes before behind (linked e c) h tidy w d le =
    absurd (omega arith)
fill-Chain low high off m i (suc fuel) descs [] before behind chain h tidy w d le = (
  m,
  ap (λ l. some (m, l)) (sym (drop_none (capacity descs))),
  (λ a out. refl),
  sym (take_none (capacity descs)),
)
fill-Chain low high off m i (suc fuel) descs (b ∷ bytes) before behind (at_end e) h tidy w d le =
    let go : ltb 0 (suc (length bytes)) && ltb i queue_size ≡ true = ground (arith, h) in
    rw (go, e, w.0) (last-IsFilled m (desc_at m off i) (b ∷ bytes))
fill-Chain low high off m i (suc fuel) descs (b ∷ bytes) before behind (linked {descs = more} e c) h
      tidy w d le =
    let desc = desc_at m off i in
    let all : List ℕ = b ∷ bytes in
    let n = min desc.len (length all) in
    let written = write_buffer m desc all in
    let left = drop n all in
    let go : ltb 0 (suc (length bytes)) && ltb i queue_size ≡ true = ground (arith, h) in
    let kept =
      Chain-kept desc.addr (desc.addr + n) low high m written (written_outside m desc all) off
        desc.next more (buffer-IsApart low high off n desc before behind (omega arith) tidy.0) c
        (next-inside low high desc e tidy.0) tidy.1 in
    let rest =
      fill-Chain low high off written desc.next fuel more left before behind kept
        (next-inside low high desc e tidy.0) tidy.1 w.1 d.1 (omega arith) in
    let early =
      either (length left == 0) (some (written, left)) (fill fuel written off desc.next left)
        (λ empty. sym (
          fill_nothing fuel written off desc.next left (Chain-fuel c (omega arith))
            (ground (arith, empty)))) in
    rw (go, e, w.0)
      (subst (IsFilled m (desc ∷ more) all) (sym early)
        (linked-IsFilled m desc more all (fill fuel written off desc.next left) d.0 rest))
