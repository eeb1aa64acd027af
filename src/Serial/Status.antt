-- ===== src/Serial/Status.antt =====
-- The line status register says which buffers hold something.
use native.Mathlib.Nat.{zero-add, add-zero}
use tinymachine.Common.{ℕ, ◌+◌, ◌≡◌, refl, sym, ◌∙◌, List, [], ◌∷◌, ◌++◌, bit_and, bit_or}
use tinymachine.Serial.{
  SerialPort, lsr_data_ready, lsr_tx_empty, new, push_dropping, push_all, guest_write, guest_read,
  guest_read_lsr, read_from, host_read_all, host_write, reset,
}

abbrev ready : List ℕ → ℕ
ready [] = 0
ready (x ∷ xs) = lsr_data_ready

abbrev idle : List ℕ → ℕ
idle [] = lsr_tx_empty
idle (x ∷ xs) = 0

-- Data ready is set exactly where something waits for the host, transmitter empty exactly where
-- nothing waits for the guest, and no other bit is set.
abbrev pub IsAccurate : SerialPort → Type 0
IsAccurate p = guest_read_lsr p ≡ ready p.rx_buffer + idle p.tx_buffer

-- The calls on a port; the host sends at least one byte, `first`, at a time.
pub data Call : Type 0 where
  guest_writes : ℕ → Call
  guest_reads host_reads resets : Call
  host_writes : (first : ℕ) (rest : List ℕ) → Call

pub step : SerialPort → Call → SerialPort
step p (guest_writes byte) = guest_write p byte
step p guest_reads = (guest_read p).1
step p host_reads = (host_read_all p).1
step p resets = reset p
step p (host_writes first rest) = host_write p (first ∷ rest)

ready-append : (l : List ℕ) (x : ℕ) → ready (l ++ x ∷ []) ≡ lsr_data_ready
ready-append [] x = refl
ready-append (y ∷ l) x = refl

idle-append : (l : List ℕ) (x : ℕ) → idle (l ++ x ∷ []) ≡ 0
idle-append [] x = refl
idle-append (y ∷ l) x = refl

idle-push_all : (m : ℕ) (b : List ℕ) (x : ℕ) (xs : List ℕ) → idle (push_all m b (x ∷ xs)) ≡ 0
unfolding push_all push_dropping
idle-push_all m b x [] = idle-append _ x
idle-push_all m b x (y ∷ xs) = idle-push_all m (push_dropping m b x) y xs

set_ready : (rx tx : List ℕ) → bit_or (ready rx + idle tx) lsr_data_ready ≡ lsr_data_ready + idle tx
set_ready [] [] = refl
set_ready [] (x ∷ xs) = refl
set_ready (x ∷ xs) [] = refl
set_ready (x ∷ xs) (y ∷ ys) = refl

set_idle : (rx tx : List ℕ) → bit_or (ready rx + idle tx) lsr_tx_empty ≡ ready rx + lsr_tx_empty
set_idle [] [] = refl
set_idle [] (x ∷ xs) = refl
set_idle (x ∷ xs) [] = refl
set_idle (x ∷ xs) (y ∷ ys) = refl

clear_ready : (rx tx : List ℕ) → bit_and (ready rx + idle tx) 0xfe ≡ idle tx
clear_ready [] [] = refl
clear_ready [] (x ∷ xs) = refl
clear_ready (x ∷ xs) [] = refl
clear_ready (x ∷ xs) (y ∷ ys) = refl

clear_idle : (rx tx : List ℕ) → bit_and (ready rx + idle tx) 0xdf ≡ ready rx
clear_idle [] [] = refl
clear_idle [] (x ∷ xs) = refl
clear_idle (x ∷ xs) [] = refl
clear_idle (x ∷ xs) (y ∷ ys) = refl

read_from-IsAccurate :
    (p : SerialPort) (l : List ℕ) → p.tx_buffer ≡ l → IsAccurate p → IsAccurate (read_from p l).1
unfolding read_from guest_read_lsr
read_from-IsAccurate p [] e h = h
read_from-IsAccurate p (x ∷ []) e h = rw h (set_idle p.rx_buffer p.tx_buffer)
read_from-IsAccurate p (x ∷ y ∷ l) e h = h ∙ rw e

-- Every call keeps the line status register accurate.
pub step-IsAccurate : (p : SerialPort) (c : Call) → IsAccurate p → IsAccurate (step p c)
unfolding step guest_write guest_read host_read_all host_write reset guest_read_lsr push_dropping
step-IsAccurate p (guest_writes byte) h = rw (h, ready-append) (set_ready p.rx_buffer p.tx_buffer)
step-IsAccurate p guest_reads h = read_from-IsAccurate p p.tx_buffer refl h
step-IsAccurate p host_reads h = rw h (clear_ready p.rx_buffer p.tx_buffer ∙ sym (zero-add _))
step-IsAccurate p resets h = refl
step-IsAccurate p (host_writes first rest) h =
    rw (h, idle-push_all) (clear_idle p.rx_buffer p.tx_buffer ∙ sym (add-zero _))

pub run : SerialPort → List Call → SerialPort
run p [] = p
run p (c ∷ cs) = run (step p c) cs

run-IsAccurate : (p : SerialPort) (cs : List Call) → IsAccurate p → IsAccurate (run p cs)
unfolding run
run-IsAccurate p [] h = h
run-IsAccurate p (c ∷ cs) h = run-IsAccurate (step p c) cs (step-IsAccurate p c h)

-- From a new port on, after any calls that send at least one byte at a time, the line status says
-- data ready exactly where bytes wait for the host, and transmitter empty exactly where none wait
-- for the guest.
pub run-new-IsAccurate : (max_size : ℕ) (cs : List Call) → IsAccurate (run (new max_size) cs)
unfolding new guest_read_lsr
run-new-IsAccurate max_size cs = run-IsAccurate (new max_size) cs refl
