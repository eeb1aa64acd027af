-- ===== src/Virtio/Stability.antt =====
-- Chains of descriptors in a memory that changes apart from them, tinymachine-fork/src/net/virtio_net_pci.rs.
use tinymachine.Common.{
  ℕ, ◌<◌, ◌≡◌, ◌⊎◌, refl, ap, sym, ◌∙◌, subst, Bool, true, false, if◌then◌else◌, List, [], ◌∷◌,
  ◌++◌, All, arith,
}
use tinymachine.Boot.Memory.{Memory}
use tinymachine.Virtio.{queue_size}
use tinymachine.Virtio.Rings.{VringDesc, desc_at, is_last, is_readable}
use tinymachine.Virtio.Chains.{Chain, at_end, linked, readable_bytes}
use tinymachine.Virtio.Regions.{AgreeOutside, IsApart, read_bytes-outside, desc_at-outside}

-- A descriptor leads on inside the table, and its buffer is apart from a region.
abbrev pub IsTidy : ℕ → ℕ → VringDesc → Type 0
IsTidy low high desc =
    ((is_last desc ≡ true) ⊎ (desc.next < queue_size)) × IsApart low high desc.addr desc.len

follows :
    (last : Bool) (next : ℕ)
    → last ≡ false
    → (last ≡ true) ⊎ (next < queue_size)
    → next < queue_size
follows last next e h = ground (arith, e, h)

pub next-inside :
    (low high : ℕ) (desc : VringDesc)
    → is_last desc ≡ false
    → IsTidy low high desc
    → desc.next < queue_size
next-inside low high desc e h = follows (is_last desc) desc.next e h.0

-- Where the memory changes apart from the table, chains stay as they are.
pub Chain-kept :
    (low high low' high' : ℕ) (m m' : Memory)
    → AgreeOutside low high m m'
    → (pfn i : ℕ) (descs : List VringDesc) → IsApart low high pfn 4096
    → Chain m pfn i descs
    → i < queue_size
    → All (IsTidy low' high') descs
    → Chain m' pfn i descs
Chain-kept low high low' high' m m' same pfn i descs below (at_end e) h tidy =
    let kept = desc_at-outside low high m m' same pfn i h below in
    subst (λ d. Chain m' pfn i (d ∷ [])) kept (at_end (ap is_last kept ∙ e))
Chain-kept low high low' high' m m' same pfn i descs below (linked {descs = more} e c) h tidy =
    let kept = desc_at-outside low high m m' same pfn i h below in
    let next = (desc_at m pfn i).next in
    let inside = next-inside low' high' (desc_at m pfn i) e tidy.0 in
    subst (λ d. Chain m' pfn i (d ∷ more)) kept
      (linked (ap is_last kept ∙ e) (
        subst (λ d. Chain m' pfn d.next more) (sym kept)
          (Chain-kept low high low' high' m m' same pfn next more below c inside tidy.1)))

-- So do the bytes in buffers apart from the change.
pub readable_bytes-kept :
    (low high : ℕ) (m m' : Memory) (descs : List VringDesc)
    → AgreeOutside low high m m'
    → All (IsTidy low high) descs
    → readable_bytes m' descs ≡ readable_bytes m descs
readable_bytes-kept low high m m' [] same tidy = refl
readable_bytes-kept low high m m' (desc ∷ descs) same tidy =
    rw (readable_bytes-kept low high m m' descs same tidy.1) (
      ap (λ bytes. (if is_readable desc then bytes else []) ++ readable_bytes m descs)
        (read_bytes-outside low high m m' same desc.addr desc.len tidy.0.1))
