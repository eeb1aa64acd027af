-- ===== src/RootPort.antt =====
-- tinymachine-fork/src/pci_root_port.rs: the emulated PCIe root port, its 256 bytes of config space
-- and the accesses that the guest makes to them. A byte is a number below 256; `reg_offset` and
-- `size` are any numbers, `val` is the 32-bit word written.
pub mod Bytes
pub mod Access
pub mod Chain
mod Tests
use tinymachine.Common.{
  ℕ, zero, suc, ◌+◌, ◌-◌, ◌*◌, ◌/◌, ◌%◌, ◌^◌, min, bit_or, Bool, true, false, ◌||◌, List, [], ◌∷◌,
  ◌++◌, ltb, leb, ◌==◌, if◌then◌else◌, set, get_or, replicate,
}

pub record PcieRootPort : Type 0 where
  pub primary_bus : ℕ
  pub secondary_bus : ℕ
  pub subordinate_bus : ℕ
  pub config : List ℕ

abbrev pub config_space_size : ℕ
config_space_size = 256

-- offsets 0x00 to 0x3f: the header of a type 1 device
header_bytes : PcieRootPort → List (ℕ × ℕ)
header_bytes p =
    (0x00, 0x36)
    ∷ (0x01, 0x1b)
    ∷ (0x02, 0x0c)
    ∷ (0x03, 0x00)
    ∷ (0x04, 0x07)
    ∷ (0x05, 0x00)
    ∷ (0x06, 0x10)
    ∷ (0x07, 0x00)
    ∷ (0x08, 0x00)
    ∷ (0x09, 0x04)
    ∷ (0x0a, 0x06)
    ∷ (0x0b, 0x00)
    ∷ (0x0c, 0x10)
    ∷ (0x0d, 0x00)
    ∷ (0x0e, 0x01)
    ∷ (0x0f, 0x00)
    ∷ (0x18, p.primary_bus)
    ∷ (0x19, p.secondary_bus)
    ∷ (0x1a, p.subordinate_bus)
    ∷ (0x1b, 0x00)
    ∷ (0x1c, 0x00)
    ∷ (0x1d, 0xf0)
    ∷ (0x1e, 0x00)
    ∷ (0x1f, 0x00)
    ∷ (0x20, 0xe0)
    ∷ (0x21, 0x00)
    ∷ (0x22, 0xf0)
    ∷ (0x23, 0x00)
    ∷ (0x24, 0x01)
    ∷ (0x25, 0x00)
    ∷ (0x26, 0x00)
    ∷ (0x27, 0x00)
    ∷ (0x28, 0x10)
    ∷ (0x29, 0x00)
    ∷ (0x2a, 0x00)
    ∷ (0x2b, 0x00)
    ∷ (0x2c, 0x20)
    ∷ (0x2d, 0x00)
    ∷ (0x2e, 0x00)
    ∷ (0x2f, 0x00)
    ∷ (0x34, 0x40)
    ∷ (0x3c, 0x00)
    ∷ (0x3d, 0x00)
    ∷ (0x3e, 0x00)
    ∷ (0x3f, 0x00)
    ∷ []

-- the power management capability
power_bytes : List (ℕ × ℕ)
power_bytes =
    (0x40, 0x01)
    ∷ (0x41, 0x48)
    ∷ (0x42, 0x02)
    ∷ (0x43, 0x00)
    ∷ (0x44, 0x00)
    ∷ (0x45, 0x00)
    ∷ (0x46, 0x00)
    ∷ (0x47, 0x00)
    ∷ []

-- the PCI Express capability
express_bytes : List (ℕ × ℕ)
express_bytes =
    (0x48, 0x10)
    ∷ (0x49, 0x00)
    ∷ (0x4a, 0x42)
    ∷ (0x4b, 0x00)
    ∷ (0x4c, 0x00)
    ∷ (0x4d, 0x80)
    ∷ (0x4e, 0x00)
    ∷ (0x4f, 0x00)
    ∷ (0x50, 0x00)
    ∷ (0x51, 0x00)
    ∷ (0x52, 0x10)
    ∷ (0x53, 0x00)
    ∷ (0x54, 0xc3)
    ∷ (0x55, 0xee)
    ∷ (0x56, 0x04)
    ∷ (0x57, 0x00)
    ∷ (0x58, 0x00)
    ∷ (0x59, 0x00)
    ∷ (0x5a, 0x03)
    ∷ (0x5b, 0x31)
    ∷ (0x5c, 0x40)
    ∷ (0x5d, 0x00)
    ∷ (0x5e, 0x00)
    ∷ (0x5f, 0x00)
    ∷ (0x60, 0x00)
    ∷ (0x61, 0x00)
    ∷ (0x62, 0x00)
    ∷ (0x63, 0x00)
    ∷ (0x64, 0x00)
    ∷ (0x65, 0x00)
    ∷ (0x66, 0x00)
    ∷ (0x67, 0x00)
    ∷ (0x68, 0x00)
    ∷ (0x69, 0x00)
    ∷ (0x6a, 0x00)
    ∷ (0x6b, 0x00)
    ∷ (0x6c, 0x20)
    ∷ (0x6d, 0x00)
    ∷ (0x6e, 0x1c)
    ∷ (0x6f, 0x00)
    ∷ (0x70, 0x00)
    ∷ (0x71, 0x00)
    ∷ (0x72, 0x00)
    ∷ (0x73, 0x00)
    ∷ (0x74, 0xc3)
    ∷ (0x75, 0xcf)
    ∷ (0x76, 0x07)
    ∷ (0x77, 0x00)
    ∷ (0x78, 0x03)
    ∷ (0x79, 0x00)
    ∷ (0x7a, 0x03)
    ∷ (0x7b, 0x00)
    ∷ []

assign : List ℕ → List (ℕ × ℕ) → List ℕ
assign c [] = c
assign c ((i, v) ∷ ws) = assign (set c i v) ws

unfoldable pub init_config : PcieRootPort → PcieRootPort
unfolding header_bytes power_bytes express_bytes assign
init_config p = record p {
  config = assign p.config (header_bytes p ++ (power_bytes ++ express_bytes));
}

unfoldable pub new : PcieRootPort
unfolding init_config
new = init_config (record {
  primary_bus = 0;
  secondary_bus = 1;
  subordinate_bus = 1;
  config = replicate config_space_size 0;
})

-- `for i in offset..end { val |= (self.config[i] as u32) << ((i - offset) * 8); }`, with `n` bytes
-- left and `k` read
unfoldable pub read_bytes : List ℕ → ℕ → ℕ → ℕ → ℕ → ℕ
read_bytes c i zero k val = val
read_bytes c i (suc n) k val =
    read_bytes c (suc i) n (suc k) (bit_or val (get_or c i 0 * 2 ^ (k * 8)))

-- how many bytes an access of this size at this offset reaches
abbrev pub span : ℕ → ℕ → ℕ
span reg_offset size = min (reg_offset + min size 4) config_space_size - reg_offset

unfoldable pub config_read : PcieRootPort → ℕ → ℕ → ℕ
config_read p reg_offset size =
    if leb config_space_size reg_offset
    then 0xffffffff
    else read_bytes p.config reg_offset (span reg_offset size) 0 0

-- `for i in offset..end { self.config[i] = ((val >> ((i - offset) * 8)) & 0xFF) as u8; }`
unfoldable pub write_bytes : List ℕ → ℕ → ℕ → ℕ → ℕ → List ℕ
write_bytes c i zero k val = c
write_bytes c i (suc n) k val =
    write_bytes (set c i (val / 2 ^ (k * 8) % 256)) (suc i) n (suc k) val

between : ℕ → ℕ → ℕ → Bool
between lo hi i = if leb lo i then leb i hi else false

-- the offsets that the source's `match` takes for writable, the bus numbers apart
unfoldable pub is_rw : ℕ → Bool
unfolding between
is_rw i =
    between 0x04 0x05 i
    || i == 0x0c
    || between 0x1b 0x33 i
    || between 0x38 0x3b i
    || i == 0x3c
    || between 0x3e 0x3f i
    || between 0x44 0x45 i
    || between 0x50 0x51 i
    || between 0x58 0x59 i
    || between 0x60 0x61 i
    || between 0x64 0x65 i
    || between 0x70 0x71 i
    || between 0x78 0x79 i

unfoldable pub config_write : PcieRootPort → ℕ → ℕ → ℕ → PcieRootPort × Bool
config_write p reg_offset size val =
    if leb config_space_size reg_offset || size == 0
    then (p, false)
    else if reg_offset == 0x18
    then (record p { primary_bus = val % 256; config = set p.config 0x18 (val % 256) }, true)
    else if reg_offset == 0x19
    then (record p { secondary_bus = val % 256; config = set p.config 0x19 (val % 256) }, true)
    else if reg_offset == 0x1a
    then (record p { subordinate_bus = val % 256; config = set p.config 0x1a (val % 256) }, true)
    else if is_rw reg_offset
    then (record p { config = write_bytes p.config reg_offset (span reg_offset size) 0 val }, true)
    else (p, false)

unfoldable pub bus_numbers : PcieRootPort → ℕ × ℕ × ℕ
bus_numbers p = (p.primary_bus, p.secondary_bus, p.subordinate_bus)
