-- ===== src/Virtio/Handshake/Options.antt =====
-- When the answer to a TCP handshake, `craft_synack` of tinymachine-fork/src/net/virtio_net_pci.rs, is a panic, and
-- how long it is.
use tinymachine.Common.{
  ℕ, suc, ◌+◌, ◌/◌, ◌%◌, ◌^◌, ◌≤◌, ◌<◌, ◌≡◌, ◌⊎◌, ◌↔◌, inl, inr, refl, ap, sym, ◌∙◌, Bool-cases,
  false, leb, Option, none, some, Result, ok, err, ◌>>=◌, ok_err, List, [], ◌∷◌, ◌++◌, length, set,
  length-set, arith,
}
use tinymachine.Virtio.{Stop, out_of_range}
use tinymachine.Virtio.Checksum.{checksum}
use tinymachine.Virtio.Reply.{
  slice, put, copy_slice, be_u32, be_bytes, our_seq, ip_reply, pseudo_header, tcp_reply, ihl,
  tcp_offset, craft_synack,
}
use tinymachine.Virtio.Handshake.{IsWebSyn, synack, guards, plain_answer}

length-put : (reply : List ℕ) (i : ℕ) (bytes : List ℕ) → length (put reply i bytes) ≡ length reply
length-put reply i [] = refl
length-put reply i (b ∷ bytes) = length-put (set reply i b) (suc i) bytes ∙ length-set reply i b

-- A copy keeps the length or panics, so a run of them panics where its end does.
copy_then :
    (reply : List ℕ) (i : ℕ) (bytes : List ℕ) (k : List ℕ → Result Stop (List ℕ))
    → length reply ≡ 54
    → ((next : List ℕ) → length next ≡ 54 → k next ≡ err out_of_range)
    → (copy_slice reply i bytes >>= k) ≡ err out_of_range
unfolding copy_slice
copy_then reply i bytes k h end = elim (Bool-cases (leb (i + length bytes) (length reply))) [
  | inl fits ↦ rw fits (end (put reply i bytes) (length-put reply i bytes ∙ h))
  | inr out ↦ rw out refl
]

copy_out :
    (reply : List ℕ) (i : ℕ) (bytes : List ℕ)
    → length reply < i + length bytes
    → copy_slice reply i bytes ≡ err out_of_range
unfolding copy_slice
copy_out reply i bytes h =
    let out : leb (i + length bytes) (length reply) ≡ false = ground (arith, h) in rw out refl

tcp_reply-options :
    (packet : List ℕ) (off : ℕ) (reply : List ℕ)
    → 37 < off
    → length reply ≡ 54
    → tcp_reply packet off reply ≡ err out_of_range
unfolding tcp_reply
tcp_reply-options packet off reply late h =
    copy_then reply off (slice packet (off + 2) 2) _ h λ r1 h1.
      copy_then r1 (off + 2) (slice packet off 2) _ h1 λ r2 h2.
        copy_then r2 (off + 4) (be_bytes our_seq) _ h2 λ r3 h3.
          copy_then r3 (off + 8) (be_bytes ((be_u32 packet (off + 4) + 1) % 2 ^ 32)) _ h3 λ r4 h4.
            copy_then r4 (off + 12) (0x50 ∷ 0x12 ∷ 0xff ∷ 0xff ∷ 0 ∷ 0 ∷ 0 ∷ 0 ∷ []) _ h4 λ r5 h5.
              let c = checksum (pseudo_header r5 ++ slice r5 off 20) in
              copy_out r5 (off + 16) (c / 2 ^ 8 ∷ c % 2 ^ 8 ∷ []) (omega (arith, late, h5))

-- what follows the guards, with IP options
options_answer :
    (packet : List ℕ)
    → 5 < ihl packet
    → (tcp_reply packet (tcp_offset packet) (ip_reply packet) >>= λ reply. ok (some reply))
      ≡ err out_of_range
unfolding ip_reply
options_answer packet more =
    ap (λ r. r >>= λ reply. ok (some reply))
      (tcp_reply-options packet (tcp_offset packet) (ip_reply packet) (omega (arith, more)) refl)

least : (n : ℕ) → 5 ≤ n → (n ≡ 5) ⊎ (5 < n)
least n h = ground (arith, h)

no_panic : (answer : Option (List ℕ)) → ok answer ≡ err out_of_range → ⊥
no_panic answer h = cc

-- The panic of a copy out of range is met exactly by a segment that opens a connection to a port of the web in
-- a packet with IP options.
pub craft_synack-panics :
    (packet : List ℕ)
    → (craft_synack packet ≡ err out_of_range) ↔ (IsWebSyn packet × (5 < ihl packet))
craft_synack-panics packet = elim (guards packet) [
  | inl p ↦ (
    (λ panics. (
      p.0,
      elim (least (ihl packet) (p.0.2)) [
        | inl plain ↦
            absurd
              (no_panic (some (synack packet)) (sym (p.1 ∙ plain_answer packet plain) ∙ panics))
        | inr more ↦ more
      ],
    )),
    λ h. p.1 ∙ options_answer packet h.1,
  )
  | inr p ↦ ((λ panics. absurd (no_panic none (sym p.1 ∙ panics))), λ h. absurd (p.0 h.0))
]

answer_length :
    (r : Result Stop (Option (List ℕ))) (made reply : List ℕ)
    → r ≡ ok (some made)
    → r ≡ ok (some reply)
    → length made ≡ 54
    → length reply ≡ 54
answer_length r made reply e e' h = let same : made ≡ reply = cc in ap length (sym same) ∙ h

not_answer :
    (r : Result Stop (Option (List ℕ))) (reply : List ℕ) → r ≡ ok none → r ≡ ok (some reply) → ⊥
not_answer r reply e h = cc

-- An answer is as long as its headers.
pub craft_synack-length :
    (packet reply : List ℕ) → craft_synack packet ≡ ok (some reply) → length reply ≡ 54
craft_synack-length packet reply h = elim (guards packet) [
  | inl p ↦ elim (least (ihl packet) (p.0.2)) [
    | inl plain ↦
        answer_length (craft_synack packet) (synack packet) reply (p.1 ∙ plain_answer packet plain)
          h refl
    | inr more ↦ absurd (ok_err (sym (p.1 ∙ options_answer packet more) ∙ h))
  ]
  | inr p ↦ absurd (not_answer (craft_synack packet) reply p.1 h)
]
