-- ===== src/Virtio/Handshake.antt =====
-- The answer to a TCP handshake, `craft_synack` of tinymachine-fork/src/net/virtio_net_pci.rs: what it holds, and
-- when there is none.
pub mod Options
use tinymachine.Common.{
  ℕ, zero, suc, ◌+◌, ◌*◌, ◌/◌, ◌%◌, ◌^◌, ◌≤◌, ◌<◌, ◌≡◌, ◌≢◌, ◌⊎◌, ◌↔◌, inl, inr, refl, ap, sym, ◌∙◌,
  Bool, true, Bool-cases, false, ◌||◌, not, ◌==◌, ltb, leb, if◌then◌else◌, Option, none, some,
  Result, ok, err, ◌>>=◌, List, [], ◌∷◌, ◌++◌, length, get_or, set, replicate, length-set, All, any,
  bit_and, bit_or, arith,
}
use tinymachine.Common.Bits.{bit_or_below}
use tinymachine.Virtio.{Stop, out_of_range}
use tinymachine.Virtio.Checksum.{be_word, checksum, IsByte, All-append, checksum-inserted}
use tinymachine.Virtio.Reply.{
  slice, put, copy_slice, be_u32, be_bytes, our_seq, ip_reply, pseudo_header, tcp_reply, ihl,
  tcp_offset, tcp_flags, dst_port, craft_synack,
}

-- the parts of the answer, each with its checksum as an argument
abbrev ethernet : List ℕ → List ℕ
ethernet packet = slice packet 6 6 ++ slice packet 0 6 ++ 0x08 ∷ 0x00 ∷ []

abbrev ip_front : List ℕ
ip_front = 0x45 ∷ 0 ∷ 0 ∷ 40 ∷ 0 ∷ 0 ∷ 0x40 ∷ 0 ∷ 64 ∷ 6 ∷ []

abbrev ip_back : List ℕ → List ℕ
ip_back packet = slice packet 30 4 ++ slice packet 26 4

abbrev ip_sum : List ℕ → ℕ
ip_sum packet = checksum (ip_front ++ 0 ∷ 0 ∷ ip_back packet)

abbrev tcp_front : List ℕ → List ℕ
tcp_front packet =
    slice packet 36 2
    ++ slice packet 34 2
    ++ be_bytes our_seq
    ++ be_bytes ((be_u32 packet 38 + 1) % 2 ^ 32)
    ++ 0x50 ∷ 0x12 ∷ 0xff ∷ 0xff ∷ []

abbrev tcp_sum : List ℕ → ℕ
tcp_sum packet =
    checksum (ip_back packet ++ 0 ∷ 6 ∷ 0 ∷ 20 ∷ [] ++ tcp_front packet ++ 0 ∷ 0 ∷ 0 ∷ 0 ∷ [])

abbrev pub synack : List ℕ → List ℕ
synack packet =
    ethernet packet
    ++ ip_front
    ++ ip_sum packet / 2 ^ 8 ∷ ip_sum packet % 2 ^ 8 ∷ ip_back packet
    ++ tcp_front packet
    ++ tcp_sum packet / 2 ^ 8 ∷ tcp_sum packet % 2 ^ 8 ∷ 0 ∷ 0 ∷ []

-- In a packet without IP options the headers of the answer are where they belong.
tcp_reply-plain : (packet : List ℕ) → tcp_reply packet 34 (ip_reply packet) ≡ ok (synack packet)
unfolding tcp_reply ip_reply
tcp_reply-plain packet = refl

get_or-IsByte : (xs : List ℕ) (i : ℕ) → All IsByte xs → IsByte (get_or xs i 0)
get_or-IsByte [] i h = omega arith
get_or-IsByte (x ∷ xs) zero h = h.0
get_or-IsByte (x ∷ xs) (suc i) h = get_or-IsByte xs i h.1

slice-IsByte : (xs : List ℕ) (off n : ℕ) → All IsByte xs → All IsByte (slice xs off n)
slice-IsByte xs off zero h = tt
slice-IsByte xs off (suc n) h = (get_or-IsByte xs off h, slice-IsByte xs (suc off) n h)

be_bytes-IsByte : (n : ℕ) → All IsByte (be_bytes n)
be_bytes-IsByte n = (omega arith, (omega arith, (omega arith, (omega arith, tt))))

-- literal bytes, by a test
pub tested : (xs : List ℕ) → any (λ b. leb 256 b) xs ≡ false → All IsByte xs
tested [] h = tt
tested (x ∷ xs) h = (ground arith, tested xs (ground arith))

ip_back-IsByte : (packet : List ℕ) → All IsByte packet → All IsByte (ip_back packet)
ip_back-IsByte packet h =
    All-append IsByte (slice packet 30 4) (slice packet 26 4) (slice-IsByte packet 30 4 h)
      (slice-IsByte packet 26 4 h)

tcp_front-IsByte : (packet : List ℕ) → All IsByte packet → All IsByte (tcp_front packet)
tcp_front-IsByte packet h =
    let ack = be_bytes ((be_u32 packet 38 + 1) % 2 ^ 32) in
    let flags : List ℕ = 0x50 ∷ 0x12 ∷ 0xff ∷ 0xff ∷ [] in
    let seqs = All-append IsByte (be_bytes our_seq) (ack ++ flags) (be_bytes-IsByte our_seq) (
      All-append IsByte ack flags (be_bytes-IsByte ((be_u32 packet 38 + 1) % 2 ^ 32))
        (tested flags refl)) in
    All-append IsByte (slice packet 36 2) (slice packet 34 2 ++ be_bytes our_seq ++ ack ++ flags)
      (slice-IsByte packet 36 2 h)
      (All-append IsByte (slice packet 34 2) (be_bytes our_seq ++ ack ++ flags)
        (slice-IsByte packet 34 2 h) seqs)

-- a word, the highest byte first
abbrev pub word_at : List ℕ → ℕ → ℕ
word_at xs off =
    get_or xs off 0 * 2 ^ 24
    + get_or xs (off + 1) 0 * 2 ^ 16
    + get_or xs (off + 2) 0 * 2 ^ 8
    + get_or xs (off + 3) 0

joined :
    (a b c d : ℕ)
    → IsByte b
    → IsByte c
    → IsByte d
    → bit_or (bit_or (bit_or (a * 2 ^ 24) (b * 2 ^ 16)) (c * 2 ^ 8)) d
      ≡ a * 2 ^ 24 + b * 2 ^ 16 + c * 2 ^ 8 + d
joined a b c d hb hc hd =
    let two : bit_or (a * 2 ^ 24) (b * 2 ^ 16) ≡ (a * 2 ^ 8 + b) * 2 ^ 16 =
      bit_or_below 24 a (b * 2 ^ 16) (omega (arith, hb)) ∙ omega arith in
    let three : bit_or ((a * 2 ^ 8 + b) * 2 ^ 16) (c * 2 ^ 8)
        ≡ ((a * 2 ^ 8 + b) * 2 ^ 8 + c) * 2 ^ 8 =
      bit_or_below 16 (a * 2 ^ 8 + b) (c * 2 ^ 8) (omega (arith, hc)) ∙ omega arith in
    rw (two, three) (bit_or_below 8 ((a * 2 ^ 8 + b) * 2 ^ 8 + c) d hd ∙ omega arith)

be_u32_lem : (xs : List ℕ) (off : ℕ) → All IsByte xs → be_u32 xs off ≡ word_at xs off
unfolding be_u32
be_u32_lem xs off h =
    joined (get_or xs off 0) (get_or xs (off + 1) 0) (get_or xs (off + 2) 0) (get_or xs (off + 3) 0)
      (get_or-IsByte xs (off + 1) h) (get_or-IsByte xs (off + 2) h) (get_or-IsByte xs (off + 3) h)

-- What the peer of a handshake expects of the second segment: the sender's addresses and ports the other way
-- round, its sequence number and one, the two flags, and two checksums that it accepts.
abbrev pub IsSynAck : List ℕ → List ℕ → Type 0
IsSynAck packet reply =
    (length reply ≡ 54)
    × (slice reply 0 12 ≡ slice packet 6 6 ++ slice packet 0 6)
    × (slice reply 26 8 ≡ slice packet 30 4 ++ slice packet 26 4)
    × (slice reply 34 4 ≡ slice packet 36 2 ++ slice packet 34 2)
    × (word_at reply 42 ≡ (word_at packet 38 + 1) % 2 ^ 32)
    × (get_or reply 47 0 ≡ 0x12)
    × (checksum (slice reply 14 20) ≡ 0)
    × (checksum (pseudo_header reply ++ slice reply 34 20) ≡ 0)

synack-IsSynAck : (packet : List ℕ) → All IsByte packet → IsSynAck packet (synack packet)
synack-IsSynAck packet h = (
  refl,
  refl,
  refl,
  refl,
  omega (arith, be_u32_lem packet 38 h),
  refl,
  checksum-inserted 5 ip_front (ip_back packet) refl (tested ip_front refl)
      (ip_back-IsByte packet h) (omega arith),
  checksum-inserted 14 (ip_back packet ++ 0 ∷ 6 ∷ 0 ∷ 20 ∷ [] ++ tcp_front packet) (0 ∷ 0 ∷ []) refl
      (All-append IsByte (ip_back packet) (0 ∷ 6 ∷ 0 ∷ 20 ∷ tcp_front packet)
        (ip_back-IsByte packet h)
        (All-append IsByte (0 ∷ 6 ∷ 0 ∷ 20 ∷ []) (tcp_front packet)
          (tested (0 ∷ 6 ∷ 0 ∷ 20 ∷ []) refl) (tcp_front-IsByte packet h)))
      (tested (0 ∷ 0 ∷ []) refl) (omega arith),
)

-- a segment that opens a connection to a port of the web, as the guards read it
abbrev pub IsWebSyn : List ℕ → Type 0
IsWebSyn packet =
    (54 ≤ length packet)
    × ((get_or packet 12 0 ≡ 0x08) × (get_or packet 13 0 ≡ 0x00))
    × (5 ≤ ihl packet)
    × (be_word (get_or packet 16 0) (get_or packet 17 0) ≤ length packet)
    × (get_or packet 23 0 ≡ 6)
    × (tcp_offset packet + 20 ≤ length packet)
    × ((bit_and (tcp_flags packet) 0x02 ≢ 0) × (bit_and (tcp_flags packet) 0x10 ≡ 0))
    × ((dst_port packet ≡ 80) ⊎ (dst_port packet ≡ 443))

-- The guards let through such a segment and no other.
pub guards :
    (packet : List ℕ)
    → ((IsWebSyn packet)
        × (craft_synack packet ≡ (
            tcp_reply packet (tcp_offset packet) (ip_reply packet) >>= λ reply. ok (some reply))))
      ⊎ ((¬ IsWebSyn packet) × (craft_synack packet ≡ ok none))
unfolding craft_synack
guards packet = ground arith

-- what follows the guards, without IP options
pub plain_answer :
    (packet : List ℕ)
    → ihl packet ≡ 5
    → (tcp_reply packet (tcp_offset packet) (ip_reply packet) >>= λ reply. ok (some reply))
      ≡ ok (some (synack packet))
plain_answer packet plain =
    ap (λ off. tcp_reply packet off (ip_reply packet) >>= λ reply. ok (some reply))
      {x = tcp_offset packet} {y = 34} (omega (arith, plain))
    ∙ ap (λ r. r >>= λ reply. ok (some reply)) (tcp_reply-plain packet)

-- A segment that opens a connection to a port of the web, in a packet of bytes without IP options, is
-- answered, and the answer is the second segment of its handshake with two right checksums.
pub craft_synack-IsSynAck :
    (packet : List ℕ)
    → All IsByte packet
    → IsWebSyn packet
    → ihl packet ≡ 5
    → (reply : List ℕ) × (craft_synack packet ≡ ok (some reply)) × IsSynAck packet reply
craft_synack-IsSynAck packet h syn plain =
    let answered : craft_synack packet ≡ ok (some (synack packet)) = elim (guards packet) [
      | inl p ↦ p.1 ∙ plain_answer packet plain
      | inr p ↦ absurd (p.0 syn)
    ] in
    (synack packet, answered, synack-IsSynAck packet h)
