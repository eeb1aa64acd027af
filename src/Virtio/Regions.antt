-- ===== src/Virtio/Regions.antt =====
-- Where the parts of the two queues are, tinymachine-fork/src/net/virtio_net_pci.rs, and memories that agree
-- outside a region.
use tinymachine.Common.{ℕ, zero, suc, ◌+◌, ◌*◌, ◌^◌, ◌≤◌, ◌<◌, ◌≡◌, ◌⊎◌, refl, ap, ◌∙◌, ◌∷◌, arith}
use tinymachine.Common.Masks.{masked}
use tinymachine.Boot.Memory.{Memory, read_u64, read_u64-agree}
use tinymachine.Virtio.{queue_size}
use tinymachine.Virtio.Rings.{desc_at, read_u16, read_u32, read_bytes, used_offset}

-- The used ring begins on the second page after the descriptors.
pub used_offset_lem : (page : ℕ) → page < 2 ^ 32 → used_offset (page * 4096) ≡ page * 4096 + 8192
unfolding used_offset
used_offset_lem page h =
    masked 64 (page * 4096 + 4096 + 518 + 4095) 52 12 (omega (arith, h)) refl ∙ omega arith

-- the same bytes outside of a region
abbrev pub AgreeOutside : ℕ → ℕ → Memory → Memory → Type 0
AgreeOutside low high m m' = (a : ℕ) → (a < low) ⊎ (high ≤ a) → m' a ≡ m a

-- a stretch of bytes outside of a region
abbrev pub IsApart : ℕ → ℕ → ℕ → ℕ → Type 0
IsApart low high a n = (a + n ≤ low) ⊎ (high ≤ a)

module _ (low high : ℕ) (m m' : Memory) (same : AgreeOutside low high m m') where
  same_at : (a n k : ℕ) → IsApart low high a n → k < n → m' (a + k) ≡ m (a + k)
  same_at a n k apart h = same (a + k) (ground arith)

  pub read_u16-outside : (a : ℕ) → IsApart low high a 2 → read_u16 m' a ≡ read_u16 m a
  unfolding read_u16
  read_u16-outside a apart = omega (arith, same a (ground arith), same_at a 2 1 apart (omega arith))

  pub read_u32-outside : (a : ℕ) → IsApart low high a 4 → read_u32 m' a ≡ read_u32 m a
  unfolding read_u32
  read_u32-outside a apart = omega (
    arith,
    same a (ground arith),
    same_at a 4 1 apart (omega arith),
    same_at a 4 2 apart (omega arith),
    same_at a 4 3 apart (omega arith),
  )

  pub read_bytes-outside : (a n : ℕ) → IsApart low high a n → read_bytes m' a n ≡ read_bytes m a n
  read_bytes-outside a zero apart = refl
  read_bytes-outside a (suc n) apart =
      ap (λ b. b ∷ read_bytes m' (suc a) n) (same a (ground arith))
      ∙ ap (λ l. m a ∷ l) (read_bytes-outside (suc a) n (ground arith))

  -- a descriptor of a table apart from the region
  pub desc_at-outside :
      (off i : ℕ) → i < queue_size → IsApart low high off 4096 → desc_at m' off i ≡ desc_at m off i
  desc_at-outside off i h below =
      let start = off + i * 16 in
      let address : read_u64 m' start ≡ read_u64 m start =
        read_u64-agree m' m start start (λ k lt. same_at start 8 k (ground (arith, below)) lt) in
      let size : read_u32 m' (start + 8) ≡ read_u32 m (start + 8) =
        read_u32-outside (start + 8) (ground (arith, below)) in
      let bits : read_u16 m' (start + 12) ≡ read_u16 m (start + 12) =
        read_u16-outside (start + 12) (ground (arith, below)) in
      let following : read_u16 m' (start + 14) ≡ read_u16 m (start + 14) =
        read_u16-outside (start + 14) (ground (arith, below)) in
      rw (address, size, bits, following) refl
