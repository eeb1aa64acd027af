-- ===== src/Vfio/Bars/Regions.antt =====
-- Where the regions of a device that tinymachine-fork/src/vfio/base.rs places come to lie.
use tinymachine.Common.{
  ℕ, suc, ◌+◌, ◌-◌, ◌*◌, ◌^◌, ◌/◌, ◌≤◌, ◌<◌, ◌≡◌, ◌⊎◌, inl, inr, subst, refl, ap, ◌∙◌, Bool,
  Bool-cases, true, false, not, ◌==◌, ◌||◌, ltb, leb, leb→le, max, if◌then◌else◌, Option, none,
  some, List, [], ◌∷◌, ◌++◌, length, All, ok, bit_and, arith,
}
use tinymachine.Common.Masks.{two_pow-positive, pow_split}
use tinymachine.Vfio.Align.{next_power_of_two, next_power_of_two_lem, place, place_lem, add_64}
use tinymachine.Vfio.Bars.{
  BarRegionInfo, VfioPassthroughBase, Assigned, Layout, start, bar_reg, place_64bit, place_32bit,
  commit_64bit, commit_32bit, place_bar, assign_bars, assigned_with, answer,
  preassign_guest_bar_addresses,
}

-- Two regions that share no address.
abbrev pub Apart : Assigned → Assigned → Type 0
Apart x y = (x.addr + x.size ≤ y.addr) ⊎ (y.addr + y.size ≤ x.addr)

abbrev pub AllApart : List Assigned → Type 0
AllApart [] = Unit
AllApart (x ∷ xs) = All (Apart x) xs × AllApart xs

-- The address is a multiple of a power of two that the size fits into.
abbrev pub IsAligned : Assigned → Type 0
IsAligned x = (k q : ℕ) × (x.size ≤ 2 ^ k) × (x.addr ≡ q * 2 ^ k)

-- where one placed region lies: with those of 64 bits, or with those of 32
abbrev Lies : Layout → Assigned → Type 0
Lies l x =
    (0x1000000000 ≤ x.addr) × (x.addr + x.size ≤ l.next_64bit)
    ⊎ (x.addr + x.size ≤ l.next_32bit) × (x.addr + x.size ≤ 0x1000000000)

-- The state of the loop when at most `c` regions have been placed.
record IsLaid (c : ℕ) (l : Layout) : Type 0 where
  lie : All (Lies l) l.assigned
  apart : AllApart l.assigned
  aligned : All IsAligned l.assigned
  low_64 : 0x1000000000 ≤ l.next_64bit
  high_64 : l.next_64bit ≤ 0x1000000000 + c * 2 ^ 38
  high_32 : l.next_32bit ≤ 2 ^ 36

All-append :
    (P : Assigned → Type 0) (xs : List Assigned) (y : Assigned)
    → All P xs
    → P y
    → All P (xs ++ y ∷ [])
All-append P [] y all p = (p, tt)
All-append P (x ∷ xs) y (q, all) p = (q, All-append P xs y all p)

All-map :
    (P Q : Assigned → Type 0) (xs : List Assigned)
    → ((x : Assigned) → P x → Q x)
    → All P xs
    → All Q xs
All-map P Q [] f all = tt
All-map P Q (x ∷ xs) f (p, all) = (f x p, All-map P Q xs f all)

AllApart-append :
    (xs : List Assigned) (y : Assigned)
    → AllApart xs
    → All (λ x. Apart x y) xs
    → AllApart (xs ++ y ∷ [])
AllApart-append [] y all away = (tt, tt)
AllApart-append (x ∷ xs) y (first, all) (off, away) =
    (All-append (Apart x) xs y first off, AllApart-append xs y all away)

small_exponent : (k : ℕ) → 2 ^ k < 2 ^ 36 → k ≤ 63
small_exponent k h = elim (Bool-cases (leb k 63)) [
  | inl small ↦ leb→le k 63 small
  | inr large ↦
      let past : 64 + (k - 64) ≡ k = ground arith in
      absurd (omega (arith, pow_split 64 (k - 64) k past, two_pow-positive (k - 64)))
]

-- where a region of up to 32 GB is placed
placed_lem :
    (next floor size : ℕ)
    → 0 < floor
    → floor ≤ 2 ^ 35
    → size ≤ 2 ^ 35
    → next ≤ 2 ^ 60
    → (k q : ℕ) × (size ≤ 2 ^ k)
      × (place next (next_power_of_two (max floor size)) ≡ q * 2 ^ k)
      × (next ≤ q * 2 ^ k)
      × (q * 2 ^ k < next + 2 ^ 37)
placed_lem next floor size pos le small room =
    let (k, power, fits, least) =
      next_power_of_two_lem (max floor size) (omega arith) (omega arith) in
    let (q, at, after, before) = place_lem next k (small_exponent k (omega arith)) (omega arith) in
    (k, q, omega arith, ap (place next) power ∙ at, after, omega arith)

IsLaid-later : (c : ℕ) (l : Layout) → IsLaid c l → IsLaid (suc c) l
IsLaid-later c l laid = record {
  lie = laid.lie;
  apart = laid.apart;
  aligned = laid.aligned;
  low_64 = laid.low_64;
  high_64 = omega (arith, laid.high_64);
  high_32 = laid.high_32;
}

module _ {Host : Type 0} where
  commit_64bit-IsLaid :
      (c : ℕ) (l : Layout) (bar : BarRegionInfo) (written : Bool × Host)
      → c ≤ 64
      → bar.size ≤ 2 ^ 35
      → IsLaid c l
      → IsLaid (suc c) (commit_64bit l bar (place_64bit l bar.size) written).0
  unfolding commit_64bit
  commit_64bit-IsLaid c l bar (false, host) few small laid = IsLaid-later c l laid
  commit_64bit-IsLaid c l bar (true, host) few small laid =
      let (k, q, fits, at, after, before) =
        placed_lem l.next_64bit 0x40000000 bar.size (omega arith) (omega arith) small
          (omega (arith, laid.high_64)) in
      let a = place_64bit l bar.size in
      let x : Assigned = record { index = bar.index; addr = a; size = bar.size } in
      let l' = (commit_64bit l bar a (true, host)).0 in
      let end : add_64 a bar.size ≡ a + bar.size = omega (arith, laid.high_64) in
      record {
        lie =
            All-append (Lies l') l.assigned x
              (All-map (Lies l) (Lies l') l.assigned (λ y h. ground (arith, end, h)) laid.lie)
              (inl (omega (arith, laid.low_64), omega (arith, end)));
        apart = AllApart-append l.assigned x laid.apart (
            All-map (Lies l) (λ y. Apart y x) l.assigned (λ y h. ground (arith, h, laid.low_64))
              laid.lie);
        aligned = All-append IsAligned l.assigned x laid.aligned (k, q, fits, at);
        low_64 = omega (arith, end, laid.low_64);
        high_64 = omega (arith, end, laid.high_64);
        high_32 = laid.high_32;
      }

  commit_32bit-IsLaid :
      (c : ℕ) (l : Layout) (bar : BarRegionInfo) (written : Bool × Host)
      → c ≤ 64
      → bar.size ≤ 2 ^ 35
      → place_32bit l bar.size ≤ 0xffffffff
      → IsLaid c l
      → IsLaid (suc c) (commit_32bit l bar (place_32bit l bar.size) written).0
  unfolding commit_32bit
  commit_32bit-IsLaid c l bar (false, host) few small below laid = IsLaid-later c l laid
  commit_32bit-IsLaid c l bar (true, host) few small below laid =
      let (k, q, fits, at, after, before) =
        placed_lem l.next_32bit 0x1000 bar.size (omega arith) (omega arith) small
          (omega (arith, laid.high_32)) in
      let a = place_32bit l bar.size in
      let x : Assigned = record { index = bar.index; addr = a; size = bar.size } in
      let l' = (commit_32bit l bar a (true, host)).0 in
      let end : add_64 a bar.size ≡ a + bar.size = omega (arith, below) in
      record {
        lie =
            All-append (Lies l') l.assigned x
              (All-map (Lies l) (Lies l') l.assigned (λ y h. ground (arith, end, h)) laid.lie)
              (inr (omega (arith, end), omega (arith, below)));
        apart = AllApart-append l.assigned x laid.apart (
            All-map (Lies l) (λ y. Apart y x) l.assigned (λ y h. ground (arith, h, below))
              laid.lie);
        aligned = All-append IsAligned l.assigned x laid.aligned (k, q, fits, at);
        low_64 = laid.low_64;
        high_64 = omega (arith, laid.high_64);
        high_32 = omega (arith, end, below);
      }

module _ {Host : Type 0} (pread : ℕ → ℕ → Host → Option ℕ × Host)
    (pwrite : ℕ → ℕ → List ℕ → Host → Bool × Host) where
  place_bar-IsLaid :
      (dev_fd config_off c : ℕ) (l : Layout) (bar : BarRegionInfo) (o : Option ℕ × Host)
      → c ≤ 64
      → bar.size ≤ 2 ^ 35
      → IsLaid c l
      → IsLaid (suc c) (place_bar pread pwrite dev_fd config_off l bar o).0
  unfolding place_bar
  place_bar-IsLaid dev_fd config_off c l bar (none, host) few small laid = IsLaid-later c l laid
  place_bar-IsLaid dev_fd config_off c l bar (some raw, host) few small laid =
      elim (Bool-cases (bit_and raw 1 == 0)) [
        | inr io ↦ rw io (IsLaid-later c l laid)
        | inl memory ↦ elim (Bool-cases (bit_and (raw / 2) 3 == 2)) [
          | inl wide ↦ rw (memory, wide) (commit_64bit-IsLaid c l bar _ few small laid)
          | inr narrow ↦ elim (Bool-cases (ltb 0xffffffff (place_32bit l bar.size))) [
            | inl above ↦ rw (memory, narrow, above) (IsLaid-later c l laid)
            | inr below ↦
                rw (memory, narrow, below)
                  (commit_32bit-IsLaid c l bar _ few small (ground arith) laid)
          ]
        ]
      ]

  assign_bars-IsLaid :
      (dev_fd config_off c : ℕ) (bars : List BarRegionInfo) (l : Layout) (host : Host)
      → c + length bars ≤ 64
      → All (λ (bar : BarRegionInfo). bar.size ≤ 2 ^ 35) bars
      → IsLaid c l
      → IsLaid (c + length bars) (assign_bars pread pwrite dev_fd config_off bars l host).0
  unfolding assign_bars
  assign_bars-IsLaid dev_fd config_off c [] l host few small laid =
      subst (λ n. IsLaid n l) {x = c} {y = c + 0} (omega arith) laid
  assign_bars-IsLaid dev_fd config_off c (bar ∷ bars) l host few (here, small) laid =
      let skipped = ltb 5 bar.index || not bar.can_mmap || bar.size == 0 in
      let read = pread dev_fd (config_off + bar_reg bar.index) host in
      let placed =
        if skipped then (l, host) else place_bar pread pwrite dev_fd config_off l bar read in
      let next : IsLaid (suc c) placed.0 = elim (Bool-cases skipped) [
        | inl skip ↦ rw skip (IsLaid-later c l laid)
        | inr keep ↦
            rw keep (place_bar-IsLaid dev_fd config_off c l bar read (omega (arith, few)) here laid)
      ] in
      subst (λ n. IsLaid n (assign_bars pread pwrite dev_fd config_off bars placed.0 placed.1).0)
        {x = suc c + length bars} {y = c + suc (length bars)} (omega arith)
        (assign_bars-IsLaid dev_fd config_off (suc c) bars placed.0 placed.1 (omega (arith, few))
          small next)

  -- On an open device, with 64 regions of up to 32 GB at the most, the assignment succeeds whatever single accesses fail;
  -- no two of the regions that it places share an address, and each lies at a multiple of a power of two that it fits into.
  pub preassign_guest_bar_addresses-AllApart :
      (device : VfioPassthroughBase) (dev_fd config_off : ℕ) (host : Host)
      → device.device_fd ≡ some dev_fd
      → device.valid_config_region_offset ≡ some config_off
      → length device.bar_regions ≤ 64
      → All (λ (bar : BarRegionInfo). bar.size ≤ 2 ^ 35) device.bar_regions
      → (assigned : List Assigned) × (host' : Host) × (preassign_guest_bar_addresses pread pwrite
            device host
          ≡ (ok assigned, host'))
        × AllApart assigned
        × All IsAligned assigned
  unfolding preassign_guest_bar_addresses assigned_with answer
  preassign_guest_bar_addresses-AllApart device dev_fd config_off host opened found few small =
      let (l, host') = assign_bars pread pwrite dev_fd config_off device.bar_regions start host in
      let laid : IsLaid (0 + length device.bar_regions) l =
        assign_bars-IsLaid dev_fd config_off 0 device.bar_regions start host (omega arith) small
          (record {
            lie = tt;
            apart = tt;
            aligned = tt;
            low_64 = omega arith;
            high_64 = omega arith;
            high_32 = omega arith;
          }) in
      (l.assigned, host', rw (opened, found) refl, laid.apart, laid.aligned)
