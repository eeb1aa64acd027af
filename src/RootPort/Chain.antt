-- ===== src/RootPort/Chain.antt =====
-- What a guest that writes aligned registers can rely on: the read-only double words, and with them
-- the list of capabilities.
use native.Mathlib.Nat.{add-zero}
use tinymachine.Common.{
  ℕ, zero, suc, ◌+◌, ◌-◌, ◌*◌, ◌/◌, ◌%◌, ◌≤◌, ◌<◌, ◌≡◌, refl, ap, ◌∙◌, ◌⊎◌, inl, inr, Bool, true,
  false, not, ◌||◌, ◌&&◌, Bool-cases, List, [], ◌∷◌, ltb, leb, ◌==◌, if◌then◌else◌, set, length,
  arith, get_or-set,
}
use tinymachine.RootPort.{PcieRootPort, span, is_rw, new, config_read, config_write}
use tinymachine.RootPort.Bytes.{byte_at, IsBytes, word, byte_at-write_bytes, read_bytes-word}
use tinymachine.RootPort.Access.{
  IsWellFormed, writable, rw_fits, with_word, span_fits, config_write_cases,
  config_write-IsWellFormed,
}

all_bytes : List ℕ → Bool
all_bytes [] = true
all_bytes (x ∷ xs) = ltb x 256 && all_bytes xs

all_bytes_sound : (c : List ℕ) → all_bytes c ≡ true → IsBytes c
unfolding all_bytes
all_bytes_sound [] h i = omega arith
all_bytes_sound (x ∷ xs) h zero = ground arith
all_bytes_sound (x ∷ xs) h (suc i) = ground (arith, all_bytes_sound xs (ground arith) i)

pub new-IsWellFormed : IsWellFormed new
unfolding new all_bytes
new-IsWellFormed = record {
  size = refl;
  bytes = all_bytes_sound new.config refl;
  primary = refl;
  secondary = refl;
  subordinate = refl;
}

-- The widths at which a guest accesses config space; it does so at multiples of the width.
pub data Width : Type 0 where
  byte half dword : Width

abbrev pub bytes_of : Width → ℕ
bytes_of byte = 1
bytes_of half = 2
bytes_of dword = 4

-- A write of `val` to the `index`-th register of this width.
pub record AlignedWrite : Type 0 where
  pub width : Width
  pub index : ℕ
  pub val : ℕ

abbrev pub after_write : PcieRootPort → AlignedWrite → PcieRootPort
after_write p w = (config_write p (w.index * bytes_of w.width) (bytes_of w.width) w.val).0

pub write_all : PcieRootPort → List AlignedWrite → PcieRootPort
write_all p [] = p
write_all p (w ∷ ws) = write_all (after_write p w) ws

-- No register of the double word that holds `j` is writable.
abbrev pub is_fixed : ℕ → Bool
is_fixed j =
    let d = j / 4 * 4 in
    not (writable d || writable (d + 1) || writable (d + 2) || writable (d + 3))

same_dword :
    (w : Width) (k j : ℕ)
    → k * bytes_of w ≤ j
    → j < k * bytes_of w + bytes_of w
    → k * bytes_of w / 4 * 4 ≡ j / 4 * 4
same_dword byte k j lo hi = omega arith
same_dword half k j lo hi = omega arith
same_dword dword k j lo hi = omega arith

fixed_at :
    (d r : ℕ)
    → not (writable d || writable (d + 1) || writable (d + 2) || writable (d + 3)) ≡ true
    → r < 4
    → writable (d + r) ≡ false
fixed_at d zero h lt = rw (add-zero d) (ground arith)
fixed_at d (suc zero) h lt = ground arith
fixed_at d (suc (suc zero)) h lt = ground arith
fixed_at d (suc (suc (suc zero))) h lt = ground arith
fixed_at d (suc (suc (suc (suc r)))) h lt = absurd (omega arith)

fixed_unwritable : (j i : ℕ) → is_fixed j ≡ true → i / 4 * 4 ≡ j / 4 * 4 → writable i ≡ true → ⊥
fixed_unwritable j i fixed e h =
    let d = j / 4 * 4 in
    let here : i ≡ d + (i - d) = omega arith in
    cc (fixed_at d (i - d) fixed (omega arith), ap writable here)

set_kept :
    (c : List ℕ) (i j v : ℕ)
    → i < length c
    → is_fixed j ≡ true
    → writable i ≡ true
    → byte_at (set c i v) j ≡ byte_at c j
set_kept c i j v fits fixed w = elim (Bool-cases (i == j)) [
  | inl e ↦ absurd (fixed_unwritable j i fixed (ground arith) w)
  | inr ne ↦ get_or-set c i j v 0 fits ∙ (rw ne)
]

word_kept :
    (p : PcieRootPort) (w : Width) (k val j : ℕ)
    → IsWellFormed p
    → is_fixed j ≡ true
    → is_rw (k * bytes_of w) ≡ true
    → byte_at (with_word p (k * bytes_of w) (bytes_of w) val).config j ≡ byte_at p.config j
word_kept p w k val j wf fixed h =
    let i = k * bytes_of w in
    let n = span i (bytes_of w) in
    byte_at-write_bytes p.config i n 0 val j (span_fits p i (bytes_of w) wf.size (rw_fits i h))
      (apart (Bool-cases (ltb j i)) (Bool-cases (leb (i + n) j)))
  where
    apart :
        (ltb j (k * bytes_of w) ≡ true) ⊎ (ltb j (k * bytes_of w) ≡ false)
        → (leb (k * bytes_of w + span (k * bytes_of w) (bytes_of w)) j ≡ true)
          ⊎ (leb (k * bytes_of w + span (k * bytes_of w) (bytes_of w)) j ≡ false)
        → (j < k * bytes_of w) ⊎ (k * bytes_of w + span (k * bytes_of w) (bytes_of w) ≤ j)
    apart (inl below) _ = inl (ground arith)
    apart (inr _) (inl above) = inr (ground arith)
    apart (inr low) (inr high) =
        absurd (
          fixed_unwritable j _ fixed (same_dword w k j (ground arith) (ground arith))
            (ground arith))

aligned_kept :
    (p : PcieRootPort) (a : AlignedWrite) (j : ℕ)
    → IsWellFormed p
    → is_fixed j ≡ true
    → byte_at (config_write p (a.index * bytes_of a.width) (bytes_of a.width) a.val).0.config j
      ≡ byte_at p.config j
aligned_kept p a j wf fixed =
    let v = a.val % 256 in
    config_write_cases (λ r. byte_at r.0.config j ≡ byte_at p.config j) p
      (a.index * bytes_of a.width) (bytes_of a.width) a.val (λ _. refl)
      (λ _. set_kept p.config 0x18 j v (omega (arith, wf.size)) fixed refl)
      (λ _. set_kept p.config 0x19 j v (omega (arith, wf.size)) fixed refl)
      (λ _. set_kept p.config 0x1a j v (omega (arith, wf.size)) fixed refl)
      (λ h. word_kept p a.width a.index a.val j wf fixed h)

write_all-IsWellFormed :
    (p : PcieRootPort) (ws : List AlignedWrite) → IsWellFormed p → IsWellFormed (write_all p ws)
unfolding write_all
write_all-IsWellFormed p [] wf = wf
write_all-IsWellFormed p (w ∷ ws) wf =
    write_all-IsWellFormed (after_write p w) ws
      (config_write-IsWellFormed p _ (bytes_of w.width) w.val wf)

-- Aligned writes of 1, 2 and 4 bytes leave alone every byte whose double word has no writable
-- register, from any well-formed config space on.
pub byte_at-write_all :
    (p : PcieRootPort) (ws : List AlignedWrite) (j : ℕ)
    → IsWellFormed p
    → is_fixed j ≡ true
    → byte_at (write_all p ws).config j ≡ byte_at p.config j
unfolding write_all
byte_at-write_all p [] j wf fixed = refl
byte_at-write_all p (w ∷ ws) j wf fixed =
    byte_at-write_all (after_write p w) ws j
      (config_write-IsWellFormed p _ (bytes_of w.width) w.val wf) fixed
    ∙ aligned_kept p w j wf fixed

-- A guest's walk along the list of capabilities: offset and id of each.
pub capabilities : List ℕ → ℕ → ℕ → List (ℕ × ℕ)
capabilities c zero at = []
capabilities c (suc n) at =
    let rest = capabilities c n (byte_at c (at + 1)) in
    if at == 0 then [] else (at, byte_at c at) ∷ rest

-- After any aligned writes to a new port, a walk of at least three steps from the pointer at 0x34
-- finds power management at 0x40 and PCI Express at 0x48, and ends there.
pub capabilities-write_all :
    (ws : List AlignedWrite) (n : ℕ)
    → capabilities
        (write_all new ws).config
        (suc (suc (suc n)))
        (byte_at (write_all new ws).config 0x34)
      ≡ (0x40, 0x01) ∷ (0x48, 0x10) ∷ []
unfolding capabilities is_rw new
capabilities-write_all ws n =
    let kept = λ (j : ℕ) (f : is_fixed j ≡ true). byte_at-write_all new ws j new-IsWellFormed f in
    rw (kept 0x34 refl, kept 0x41 refl, kept 0x49 refl, kept 0x40 refl, kept 0x48 refl)

read_fixed :
    (ws : List AlignedWrite) (i : ℕ)
    → i < 252
    → config_read (write_all new ws) i 4 ≡ word (write_all new ws).config i 4
unfolding config_read
read_fixed ws i h =
    let near : leb 256 i ≡ false = ground arith in
    let whole : span i 4 ≡ 4 = omega arith in
    rw (near, whole)
      (read_bytes-word _ i 4 0 0 (write_all-IsWellFormed new ws new-IsWellFormed).bytes
          (omega arith)
        ∙ omega arith)

-- After any aligned writes to a new port, the guest reads vendor 0x1b36 and device 0x000c, and at
-- 0x08 revision 0, programming interface 0x04, subclass 0x06 and base class 0x00.
config_read-write_all :
    (ws : List AlignedWrite)
    → (config_read (write_all new ws) 0x00 4 ≡ 0x000c1b36)
      × (config_read (write_all new ws) 0x08 4 ≡ 0x00060400)
unfolding word is_rw new
config_read-write_all ws =
    let kept = λ (j : ℕ) (f : is_fixed j ≡ true). byte_at-write_all new ws j new-IsWellFormed f in
    (
      read_fixed ws 0 (omega arith)
          ∙ omega (arith, kept 0 refl, kept 1 refl, kept 2 refl, kept 3 refl),
      read_fixed ws 8 (omega arith)
          ∙ omega (arith, kept 8 refl, kept 9 refl, kept 10 refl, kept 11 refl),
    )
