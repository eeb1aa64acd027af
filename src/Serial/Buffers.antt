-- ===== src/Serial/Buffers.antt =====
-- The buffers hold the last bytes written, up to the limit.
use mathlib.Core.List.{append-nil, append_assoc}
use tinymachine.Common.{
  ℕ, zero, suc, ◌-◌, ◌≤◌, ◌<◌, ◌≡◌, refl, sym, ap, ◌∙◌, inl, inr, Bool-cases, List, [], ◌∷◌, ◌++◌,
  leb, length, drop, length-append, length-drop, arith, Result, ok, err,
}
use tinymachine.Serial.{
  SerialPort, SerialError, push_dropping, push_all, guest_write, host_read_all, host_write,
  guest_read, read_from,
}

-- the last `n` entries of a list
abbrev pub last_of : ℕ → List ℕ → List ℕ
last_of n l = drop (length l - n) l

drop-append_le : (k : ℕ) (xs ys : List ℕ) → k ≤ length xs → drop k (xs ++ ys) ≡ drop k xs ++ ys
drop-append_le zero xs ys h = refl
drop-append_le (suc k) [] ys h = absurd (omega arith)
drop-append_le (suc k) (x ∷ xs) ys h = drop-append_le k xs ys (omega arith)

drop-drop_one : (k : ℕ) (xs : List ℕ) → drop k (drop 1 xs) ≡ drop (suc k) xs
drop-drop_one k (x ∷ xs) = refl
drop-drop_one zero [] = refl
drop-drop_one (suc k) [] = refl

length-push_dropping :
    (m : ℕ) (b : List ℕ) (x : ℕ) → 0 < m → length b ≤ m → length (push_dropping m b x) ≤ m
unfolding push_dropping
length-push_dropping m b x pos h =
    ground (arith, length-append (drop 1 b) (x ∷ []), length-append b (x ∷ []), length-drop 1 b)

drop_at : (j k : ℕ) (l : List ℕ) → j ≡ k → drop j l ≡ drop k l
drop_at j k l e = ap (λ n. drop n l) e

last_of-push_dropping :
    (m : ℕ) (b : List ℕ) (x : ℕ) (xs : List ℕ)
    → 0 < m
    → length b ≤ m
    → last_of m (push_dropping m b x ++ xs) ≡ last_of m (b ++ x ∷ xs)
unfolding push_dropping
last_of-push_dropping m b x xs pos h = elim (Bool-cases (leb m (length b))) [
  | inl full ↦ rw full (dropped b (ground arith))
  | inr room ↦ rw room (rw append_assoc)
]
  where
    dropped :
        (c : List ℕ)
        → length c ≡ m
        → last_of m ((drop 1 c ++ x ∷ []) ++ xs) ≡ last_of m (c ++ x ∷ xs)
    dropped [] e = absurd (omega arith)
    dropped (y ∷ c) e =
        let l = length-append c (x ∷ xs) in
        rw append_assoc (
          drop_at _ (length xs) (c ++ x ∷ xs) (omega arith)
          ∙ sym (drop_at _ (suc (length xs)) (y ∷ (c ++ x ∷ xs)) (omega arith)))

-- Pushing bytes one by one keeps the last `m` of all.
pub push_all-last_of :
    (m : ℕ) (b xs : List ℕ) → 0 < m → length b ≤ m → push_all m b xs ≡ last_of m (b ++ xs)
unfolding push_all
push_all-last_of m b [] pos h = rw append-nil (sym (drop_at _ 0 b (omega arith)))
push_all-last_of m b (x ∷ xs) pos h =
    push_all-last_of m (push_dropping m b x) xs pos (length-push_dropping m b x pos h)
    ∙ last_of-push_dropping m b x xs pos h

pub guest_write_all : SerialPort → List ℕ → SerialPort
guest_write_all p [] = p
guest_write_all p (x ∷ xs) = guest_write_all (guest_write p x) xs

rx_buffer-guest_write_all :
    (p : SerialPort) (xs : List ℕ)
    → (guest_write_all p xs).rx_buffer ≡ push_all p.max_size p.rx_buffer xs
unfolding guest_write_all guest_write push_all
rx_buffer-guest_write_all p [] = refl
rx_buffer-guest_write_all p (x ∷ xs) = rx_buffer-guest_write_all (guest_write p x) xs

-- On a port with a positive limit and no more than that waiting, what the guest writes one byte at a
-- time the host reads at once and in order: the last `max_size` bytes of what was waiting and what
-- was written.
host_read_all-guest_write :
    (p : SerialPort) (xs : List ℕ)
    → 0 < p.max_size
    → length p.rx_buffer ≤ p.max_size
    → (host_read_all (guest_write_all p xs)).0 ≡ last_of p.max_size (p.rx_buffer ++ xs)
unfolding host_read_all
host_read_all-guest_write p xs pos h =
    rx_buffer-guest_write_all p xs ∙ push_all-last_of p.max_size p.rx_buffer xs pos h

abbrev collect : Result SerialError ℕ → List ℕ → List ℕ
collect (ok byte) rest = byte ∷ rest
collect (err e) rest = []

-- Reads by the guest until it is told that there is no data, `n` at most.
pub guest_read_all : ℕ → SerialPort → List ℕ
guest_read_all zero p = []
guest_read_all (suc n) p = collect (guest_read p).0 (guest_read_all n (guest_read p).1)

by_read :
    (P : Result SerialError ℕ × SerialPort → Type 0) (p : SerialPort) (l : List ℕ)
    → p.tx_buffer ≡ l
    → P (read_from p l)
    → P (guest_read p)
unfolding guest_read
by_read P p l e h = rw (← e) at h

guest_read_all_lem :
    (n : ℕ) (p : SerialPort) (l : List ℕ) → p.tx_buffer ≡ l → length l ≤ n → guest_read_all n p ≡ l
unfolding guest_read_all read_from
guest_read_all_lem zero p [] e h = refl
guest_read_all_lem zero p (x ∷ l) e h = absurd (omega arith)
guest_read_all_lem (suc n) p [] e h =
    by_read (λ r. collect r.0 (guest_read_all n r.1) ≡ []) p [] e refl
guest_read_all_lem (suc n) p (x ∷ []) e h =
    by_read (λ r. collect r.0 (guest_read_all n r.1) ≡ x ∷ []) p (x ∷ []) e
      (ap (λ r. x ∷ r) (guest_read_all_lem n _ [] refl (omega arith)))
guest_read_all_lem (suc n) p (x ∷ y ∷ l) e h =
    by_read (λ r. collect r.0 (guest_read_all n r.1) ≡ x ∷ y ∷ l) p (x ∷ y ∷ l) e
      (ap (λ r. x ∷ r)
        (guest_read_all_lem n (record p { tx_buffer = y ∷ l }) (y ∷ l) refl (omega arith)))

-- On a port with a positive limit and no more than that waiting, what the host writes the guest reads
-- byte by byte and in order: the last `max_size` bytes of what was waiting and what was written, if
-- it makes at least `max_size` reads.
guest_read_all-host_write :
    (p : SerialPort) (xs : List ℕ) (n : ℕ)
    → 0 < p.max_size
    → length p.tx_buffer ≤ p.max_size
    → p.max_size ≤ n
    → guest_read_all n (host_write p xs) ≡ last_of p.max_size (p.tx_buffer ++ xs)
unfolding host_write
guest_read_all-host_write p xs n pos h enough =
    guest_read_all_lem n (host_write p xs) _ (push_all-last_of p.max_size p.tx_buffer xs pos h)
      (omega (arith, length-drop (length (p.tx_buffer ++ xs) - p.max_size) (p.tx_buffer ++ xs)))
