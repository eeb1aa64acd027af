-- ===== src/Virtio/Reply.antt =====
-- What the device answers in place of a network, in tinymachine-fork/src/net/virtio_net_pci.rs: the second
-- segment of a TCP handshake (`craft_synack`) and the ARP reply of `handle_queue_kick`. An assignment to
-- adjacent bytes, one after another, is a `put` or, where it can be out of range, a `copy_slice`.
use tinymachine.Common.{
  ℕ, zero, suc, ◌+◌, ◌*◌, ◌/◌, ◌%◌, ◌^◌, ◌||◌, not, ◌==◌, ltb, leb, if◌then◌else◌, Option, none,
  some, Result, ok, err, ◌>>=◌, List, [], ◌∷◌, ◌++◌, length, get_or, set, replicate, bit_and,
  bit_or,
}
use tinymachine.Virtio.{Stop, out_of_range}
use tinymachine.Virtio.Checksum.{be_word, checksum}

-- `&packet[off..off + n]`, in range wherever it is used
abbrev pub slice : List ℕ → ℕ → ℕ → List ℕ
slice packet off zero = []
slice packet off (suc n) = get_or packet off 0 ∷ slice packet (suc off) n

abbrev pub put : List ℕ → ℕ → List ℕ → List ℕ
put reply i [] = reply
put reply i (b ∷ bytes) = put (set reply i b) (suc i) bytes

unfoldable pub copy_slice : List ℕ → ℕ → List ℕ → Result Stop (List ℕ)
copy_slice reply i bytes =
    if leb (i + length bytes) (length reply) then ok (put reply i bytes) else err out_of_range

-- four bytes, the highest first, as a word and back
unfoldable pub be_u32 : List ℕ → ℕ → ℕ
be_u32 packet off =
    bit_or
      (bit_or (bit_or (get_or packet off 0 * 2 ^ 24) (get_or packet (off + 1) 0 * 2 ^ 16))
        (get_or packet (off + 2) 0 * 2 ^ 8))
      (get_or packet (off + 3) 0)

abbrev pub be_bytes : ℕ → List ℕ
be_bytes n = n / 2 ^ 24 % 2 ^ 8 ∷ n / 2 ^ 16 % 2 ^ 8 ∷ n / 2 ^ 8 % 2 ^ 8 ∷ n % 2 ^ 8 ∷ []

abbrev pub our_seq : ℕ
our_seq = 0x10000000

-- the Ethernet and the IP header of the answer
unfoldable pub ip_reply : List ℕ → List ℕ
ip_reply packet =
    let ethernet =
      put (put (put (replicate 54 0) 0 (slice packet 6 6)) 6 (slice packet 0 6)) 12
        (0x08 ∷ 0x00 ∷ []) in
    let blank = put ethernet 14 (0x45 ∷ 0 ∷ 0 ∷ 40 ∷ 0 ∷ 0 ∷ 0x40 ∷ 0 ∷ 64 ∷ 6 ∷ 0 ∷ 0 ∷ []) in
    let addressed = put (put blank 26 (slice packet 30 4)) 30 (slice packet 26 4) in
    let ip_csum = checksum (slice addressed 14 20) in
    put addressed 24 (ip_csum / 2 ^ 8 ∷ ip_csum % 2 ^ 8 ∷ [])

-- the addresses, the protocol and the length that a TCP checksum takes in
abbrev pub pseudo_header : List ℕ → List ℕ
pseudo_header reply = slice reply 26 4 ++ slice reply 30 4 ++ 0 ∷ 6 ∷ 0 ∷ 20 ∷ []

-- the TCP header of the answer
unfoldable pub tcp_reply : List ℕ → ℕ → List ℕ → Result Stop (List ℕ)
unfolding copy_slice be_u32
tcp_reply packet tcp_off reply = do
  with_source ← copy_slice reply tcp_off (slice packet (tcp_off + 2) 2)
  with_ports ← copy_slice with_source (tcp_off + 2) (slice packet tcp_off 2)
  with_seq ← copy_slice with_ports (tcp_off + 4) (be_bytes our_seq)
  with_ack ←
      copy_slice with_seq (tcp_off + 8) (be_bytes ((be_u32 packet (tcp_off + 4) + 1) % 2 ^ 32))
  blank ← copy_slice with_ack (tcp_off + 12) (0x50 ∷ 0x12 ∷ 0xff ∷ 0xff ∷ 0 ∷ 0 ∷ 0 ∷ 0 ∷ [])
  let tcp_csum = checksum (pseudo_header blank ++ slice blank tcp_off 20)
  copy_slice blank (tcp_off + 16) (tcp_csum / 2 ^ 8 ∷ tcp_csum % 2 ^ 8 ∷ [])

-- the headers' fields that the guards read
abbrev pub ihl : List ℕ → ℕ
ihl packet = bit_and (get_or packet 14 0) 0x0f

abbrev pub tcp_offset : List ℕ → ℕ
tcp_offset packet = 14 + ihl packet * 4

abbrev pub tcp_flags : List ℕ → ℕ
tcp_flags packet = get_or packet (tcp_offset packet + 13) 0

abbrev pub dst_port : List ℕ → ℕ
dst_port packet =
    be_word (get_or packet (tcp_offset packet + 2) 0) (get_or packet (tcp_offset packet + 3) 0)

unfoldable pub craft_synack : List ℕ → Result Stop (Option (List ℕ))
craft_synack packet =
    if ltb (length packet) 54
    then ok none
    else if not (get_or packet 12 0 == 0x08) || not (get_or packet 13 0 == 0x00)
    then ok none
    else if ltb (ihl packet) 5
    then ok none
    else if ltb (length packet) (be_word (get_or packet 16 0) (get_or packet 17 0))
    then ok none
    else if not (get_or packet 23 0 == 6)
    then ok none
    else if ltb (length packet) (tcp_offset packet + 20)
    then ok none
    else if (bit_and (tcp_flags packet) 0x02 == 0) || not (bit_and (tcp_flags packet) 0x10 == 0)
    then ok none
    else if not (dst_port packet == 80 || dst_port packet == 443)
    then ok none
    else tcp_reply packet (tcp_offset packet) (ip_reply packet) >>= λ reply. ok (some reply)

abbrev pub gateway_mac : List ℕ
gateway_mac = 0xce ∷ 0x37 ∷ 0x22 ∷ 0x5e ∷ 0xe0 ∷ 0xb9 ∷ []

abbrev pub gateway_ip : List ℕ
gateway_ip = 10 ∷ 0 ∷ 2 ∷ 1 ∷ []

unfoldable pub arp_reply : List ℕ → List ℕ
arp_reply packet =
    let sha = slice packet 22 6 in
    let header =
      put (put (put (replicate 42 0) 0 sha) 6 gateway_mac) 12
        (0x08 ∷ 0x06 ∷ 0x00 ∷ 0x01 ∷ 0x08 ∷ 0x00 ∷ 6 ∷ 4 ∷ 0x00 ∷ 0x02 ∷ []) in
    put (put (put (put header 22 gateway_mac) 28 gateway_ip) 32 sha) 38 (slice packet 28 4)
