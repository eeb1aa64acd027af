-- ===== src/RootPort/Access.antt =====
-- What the guest's accesses to the config space do.
use tinymachine.Common.{
  ℕ, ap, ◌+◌, ◌%◌, ◌^◌, ◌≤◌, ◌<◌, ◌≡◌, ◌↔◌, ◌∙◌, ◌⊎◌, inl, inr, min, Bool, true, false, ◌||◌,
  Bool-cases, leb, ◌==◌, set, length, arith, length-set, get_or-set,
}
use tinymachine.RootPort.{
  PcieRootPort, config_space_size, span, is_rw, config_read, config_write, write_bytes,
}
use tinymachine.RootPort.Bytes.{
  byte_at, IsBytes, word, length-write_bytes, byte_at-write_bytes, set-IsBytes, write_bytes-IsBytes,
  read_bytes-word, word-write_bytes,
}

-- The config space is 256 bytes, and the bus numbers kept beside it are the ones it holds.
pub record IsWellFormed (p : PcieRootPort) : Type 0 where
  pub size : length p.config ≡ 256
  pub bytes : IsBytes p.config
  pub primary : byte_at p.config 0x18 ≡ p.primary_bus
  pub secondary : byte_at p.config 0x19 ≡ p.secondary_bus
  pub subordinate : byte_at p.config 0x1a ≡ p.subordinate_bus

-- a register that a write may change
abbrev pub writable : ℕ → Bool
writable i = i == 0x18 || i == 0x19 || i == 0x1a || is_rw i

-- No access that starts at a writable offset, the bus numbers apart, reaches a bus number.
rw_clear : (i : ℕ) → is_rw i ≡ true → (i + 4 ≤ 0x18) ⊎ (0x1b ≤ i)
unfolding is_rw
rw_clear i h = ground arith

pub rw_fits : (i : ℕ) → is_rw i ≡ true → i + 4 ≤ 256
unfolding is_rw
rw_fits i h = ground arith

unwritable :
    (i size : ℕ) → (leb config_space_size i || size == 0) ≡ true → (writable i ≡ false) ⊎ (size ≡ 0)
unwritable i size out = elim (Bool-cases (leb config_space_size i)) [
  | inl far ↦ inl (ground (arith, rw_fits i))
  | inr near ↦ inr (ground arith)
]

abbrev pub with_word : PcieRootPort → ℕ → ℕ → ℕ → PcieRootPort
with_word p i size val = record p { config = write_bytes p.config i (span i size) 0 val }

-- To prove something of every write, prove it of one refused, of one to each bus number, and of one
-- to another writable register.
pub config_write_cases {ℓ} :
    (P : PcieRootPort × Bool → Type ℓ) (p : PcieRootPort) (i size val : ℕ)
    → ((writable i ≡ false) ⊎ (size ≡ 0) → P (p, false))
    → (i ≡ 0x18
        → P (record p { primary_bus = val % 256; config = set p.config 0x18 (val % 256) }, true))
    → (i ≡ 0x19
        → P (record p { secondary_bus = val % 256; config = set p.config 0x19 (val % 256) }, true))
    → (i ≡ 0x1a
        → P (
          record p { subordinate_bus = val % 256; config = set p.config 0x1a (val % 256) },
          true,
        ))
    → (is_rw i ≡ true → P (with_word p i size val, true))
    → P (config_write p i size val)
unfolding config_write
config_write_cases P p i size val refused first second third word =
    elim (Bool-cases (leb config_space_size i || size == 0)) [
      | inl out ↦ rw (out, config_write) (refused (unwritable i size out))
      | inr inside ↦
          rw (inside, config_write)
            (elim (Bool-cases (i == 0x18)) [
              | inl e₁ ↦ rw e₁ (first (ground arith))
              | inr n₁ ↦ rw n₁ (elim (Bool-cases (i == 0x19)) [
                | inl e₂ ↦ rw e₂ (second (ground arith))
                | inr n₂ ↦ rw n₂ (elim (Bool-cases (i == 0x1a)) [
                  | inl e₃ ↦ rw e₃ (third (ground arith))
                  | inr n₃ ↦ rw n₃ (elim (Bool-cases (is_rw i)) [
                    | inl e₄ ↦ rw e₄ (word e₄)
                    | inr n₄ ↦ rw n₄ (refused (inl (ground arith)))
                  ])
                ])
              ])
            ])
    ]

pub span_fits :
    (p : PcieRootPort) (i size : ℕ)
    → length p.config ≡ 256
    → i + 4 ≤ 256
    → i + span i size ≤ length p.config
span_fits p i size l h = omega arith

set_bus-IsWellFormed :
    (p : PcieRootPort) (v : ℕ)
    → v < 256
    → IsWellFormed p
    → IsWellFormed (record p { primary_bus = v; config = set p.config 0x18 v })
      × IsWellFormed (record p { secondary_bus = v; config = set p.config 0x19 v })
      × IsWellFormed (record p { subordinate_bus = v; config = set p.config 0x1a v })
set_bus-IsWellFormed p v small w =
    let at = λ (i j : ℕ) (h : i < 256). get_or-set p.config i j v 0 (omega arith) in
    (
      record {
        size = omega (arith, length-set p.config 0x18 v);
        bytes = set-IsBytes p.config 0x18 v (omega arith) small w.bytes;
        primary = at 0x18 0x18 (omega arith);
        secondary = at 0x18 0x19 (omega arith) ∙ w.secondary;
        subordinate = at 0x18 0x1a (omega arith) ∙ w.subordinate;
      },
      record {
        size = omega (arith, length-set p.config 0x19 v);
        bytes = set-IsBytes p.config 0x19 v (omega arith) small w.bytes;
        primary = at 0x19 0x18 (omega arith) ∙ w.primary;
        secondary = at 0x19 0x19 (omega arith);
        subordinate = at 0x19 0x1a (omega arith) ∙ w.subordinate;
      },
      record {
        size = omega (arith, length-set p.config 0x1a v);
        bytes = set-IsBytes p.config 0x1a v (omega arith) small w.bytes;
        primary = at 0x1a 0x18 (omega arith) ∙ w.primary;
        secondary = at 0x1a 0x19 (omega arith) ∙ w.secondary;
        subordinate = at 0x1a 0x1a (omega arith);
      },
    )

with_word-IsWellFormed :
    (p : PcieRootPort) (i size val : ℕ)
    → is_rw i ≡ true
    → IsWellFormed p
    → IsWellFormed (with_word p i size val)
with_word-IsWellFormed p i size val rw_i w =
    let fits = span_fits p i size w.size (rw_fits i rw_i) in
    let kept = λ (j : ℕ) (h : (j < i) ⊎ (i + span i size ≤ j)).
      byte_at-write_bytes p.config i (span i size) 0 val j fits h in
    let clear = rw_clear i rw_i in
    record {
      size = length-write_bytes p.config i (span i size) 0 val ∙ w.size;
      bytes = write_bytes-IsBytes p.config i (span i size) 0 val fits w.bytes;
      primary = kept 0x18 (omega arith) ∙ w.primary;
      secondary = kept 0x19 (omega arith) ∙ w.secondary;
      subordinate = kept 0x1a (omega arith) ∙ w.subordinate;
    }

-- Every write, of any size at any offset, keeps a config space well formed: 256 bytes, with the bus
-- numbers that the port keeps beside it equal to those in it.
pub config_write-IsWellFormed :
    (p : PcieRootPort) (i size val : ℕ)
    → IsWellFormed p
    → IsWellFormed (config_write p i size val).0
config_write-IsWellFormed p i size val w =
    let buses = set_bus-IsWellFormed p (val % 256) (omega arith) w in
    config_write_cases (λ r. IsWellFormed r.0) p i size val (λ _. w) (λ _. buses.0) (λ _. buses.1)
      (λ _. buses.2) (λ h. with_word-IsWellFormed p i size val h w)

-- A write is refused exactly where its size is zero or its first register is not writable, and
-- exactly there it changes nothing and says so.
config_write_refused :
    (p : PcieRootPort) (i size val : ℕ)
    → (((config_write p i size val).1 ≡ false) ↔ ((writable i ≡ false) ⊎ (size ≡ 0)))
      × ((config_write p i size val ≡ (p, false)) ↔ ((writable i ≡ false) ⊎ (size ≡ 0)))
unfolding config_write
config_write_refused p i size val = (
  (λ h. ground (arith, rw_fits i), λ h. ground (arith, rw_fits i)),
  (λ h. refused (ap (λ r. r.1) h), λ h. ground (arith, rw_fits i)),
)
  where
    refused : (config_write p i size val).1 ≡ false → (writable i ≡ false) ⊎ (size ≡ 0)
    refused h = ground (arith, rw_fits i)

config_write_rw :
    (p : PcieRootPort) (i size val : ℕ)
    → is_rw i ≡ true
    → 0 < size
    → (config_write p i size val).0 ≡ with_word p i size val
unfolding config_write is_rw
config_write_rw p i size val rw_i some_bytes = ground arith

config_read-with_word :
    (p : PcieRootPort) (i size val : ℕ)
    → IsWellFormed p
    → is_rw i ≡ true
    → 0 < size
    → config_read (with_word p i size val) i size ≡ val % 256 ^ min size 4
unfolding config_read
config_read-with_word p i size val w rw_i some_bytes =
    let fits = rw_fits i rw_i in
    let near : leb 256 i ≡ false = ground arith in
    let same : span i size ≡ min size 4 = omega arith in
    rw (near, same)
      (read_bytes-word _ i (min size 4) 0 0
          (write_bytes-IsBytes p.config i (min size 4) 0 val (omega (arith, w.size)) w.bytes)
          (omega arith)
        ∙ omega (
          arith,
          word-write_bytes p.config i (min size 4) val (omega (arith, w.size)) (omega arith),
        ))

-- Whatever the register that it starts at, a write changes no byte outside those it spans.
byte_at-with_word :
    (p : PcieRootPort) (i size val j : ℕ)
    → IsWellFormed p
    → is_rw i ≡ true
    → (j < i) ⊎ (i + min size 4 ≤ j)
    → byte_at (with_word p i size val).config j ≡ byte_at p.config j
byte_at-with_word p i size val j w rw_i apart =
    byte_at-write_bytes p.config i (span i size) 0 val j
      (span_fits p i size w.size (rw_fits i rw_i)) (omega (arith, rw_fits i rw_i, apart))

-- A write of at least one byte whose first register is writable and not a bus number changes all the bytes
-- that it spans, four at the most, and no other: a read of the same size there gives what was written, and
-- each byte outside the span stays. The bytes in the span change also where they are read-only registers
-- (the header type after 0x0c, the link status after 0x58), contrary to the comments in the source.
pub config_read-config_write :
    (p : PcieRootPort) (i size val j : ℕ)
    → IsWellFormed p
    → is_rw i ≡ true
    → 0 < size
    → (j < i) ⊎ (i + min size 4 ≤ j)
    → (config_read (config_write p i size val).0 i size ≡ val % 256 ^ min size 4)
      × (byte_at (config_write p i size val).0.config j ≡ byte_at p.config j)
config_read-config_write p i size val j w rw_i some_bytes apart =
    rw (config_write_rw p i size val rw_i some_bytes) (
      config_read-with_word p i size val w rw_i some_bytes,
      byte_at-with_word p i size val j w rw_i apart,
    )
