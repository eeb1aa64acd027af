-- ===== src/Uart/Output.antt =====
-- What `Uart16550` of tinymachine-fork/src/arch/x86_64/port.rs captures of the guest's output.
use mathlib.Core.List.{append-nil, append_assoc}
use tinymachine.Common.{
  ℕ, zero, suc, ◌≤◌, ◌≡◌, refl, sym, ap, ◌∙◌, inl, inr, Bool-cases, false, ◌==◌, ltb, ltb→lt,
  if◌then◌else◌, List, [], ◌∷◌, ◌++◌, length, length-append, length-take, take, take-all, bit_and,
  arith,
}
use tinymachine.Uart.{Uart16550, uart_dlab, write_reg, output_char}

-- the state after a list of writes, each an offset and a value
unfoldable pub run : Uart16550 → List (ℕ × ℕ) → Uart16550
run u [] = u
run u ((offset, value) ∷ writes) = run (write_reg u offset value).1 writes

-- The bytes that a list of writes sends: those for offset 0, but while the line control register, which offset 3 sets
-- and `lcr` holds at first, has its latch bit set.
abbrev pub sent : ℕ → List (ℕ × ℕ) → List ℕ
sent lcr [] = []
sent lcr ((offset, value) ∷ writes) =
    let rest = sent lcr writes in
    let set = sent value writes in
    if offset == 0
    then (if bit_and lcr uart_dlab == 0 then value ∷ rest else rest)
    else if offset == 3
    then set
    else rest

take-length : (xs ys : List ℕ) → take (length xs) (xs ++ ys) ≡ xs
take-length [] ys = refl
take-length (x ∷ xs) ys = ap (λ l. x ∷ l) (take-length xs ys)

captured :
    (n : ℕ) (xs : List ℕ) (c : ℕ)
    → length xs ≤ n
    → (if ltb (length xs) n then xs ++ c ∷ [] else xs) ≡ take n (xs ++ c ∷ [])
captured n xs c fits = elim (Bool-cases (ltb (length xs) n)) [
  | inl room ↦
      rw room (
        sym (take-all n (xs ++ c ∷ []) (omega (arith, length-append xs (c ∷ []), ltb→lt _ _ room))))
  | inr full ↦
      let exact : length xs ≡ n = ground arith in
      rw full (sym (ap (λ k. take k (xs ++ c ∷ [])) (sym exact) ∙ take-length xs (c ∷ [])))
]

-- what one write does to the buffer
abbrev AfterWrite : Uart16550 → ℕ → ℕ → Uart16550 → Type 0
AfterWrite u offset value u' =
    (u'.max_capture ≡ u.max_capture)
    × (u'.lcr ≡ (if offset == 3 then value else u.lcr))
    × (u'.output_buf ≡ (
        if offset == 0
        then (if bit_and u.lcr uart_dlab == 0
            then take u.max_capture (u.output_buf ++ value ∷ [])
            else u.output_buf)
        else u.output_buf))

write_reg-AfterWrite :
    (u : Uart16550) (offset value : ℕ)
    → length u.output_buf ≤ u.max_capture
    → AfterWrite u offset value (write_reg u offset value).1
unfolding write_reg output_char
write_reg-AfterWrite u offset value fits =
    ground (arith, captured u.max_capture u.output_buf value fits)

-- the buffer after one write
abbrev buffered : ℕ → List ℕ → ℕ → ℕ → ℕ → List ℕ
buffered n xs lcr offset value =
    if offset == 0
    then (if bit_and lcr uart_dlab == 0 then take n (xs ++ value ∷ []) else xs)
    else xs

buffered-le :
    (n : ℕ) (xs : List ℕ) (lcr offset value : ℕ)
    → length xs ≤ n
    → length (buffered n xs lcr offset value) ≤ n
buffered-le n xs lcr offset value fits = ground (arith, length-take n (xs ++ value ∷ []))

take-take_append : (n : ℕ) (xs ys : List ℕ) → take n (take n xs ++ ys) ≡ take n (xs ++ ys)
take-take_append zero xs ys = refl
take-take_append (suc n) [] ys = refl
take-take_append (suc n) (x ∷ xs) ys = ap (λ l. x ∷ l) (take-take_append n xs ys)

step_lem :
    (n : ℕ) (xs : List ℕ) (lcr offset value : ℕ) (writes : List (ℕ × ℕ))
    → take n (buffered n xs lcr offset value ++ sent (if offset == 3 then value else lcr) writes)
      ≡ take n (xs ++ sent lcr ((offset, value) ∷ writes))
step_lem n xs lcr offset value writes = elim (Bool-cases (offset == 0)) [
  | inl data_register ↦
      let other : (offset == 3) ≡ false = ground arith in
      elim (Bool-cases (bit_and lcr uart_dlab == 0)) [
        | inl sending ↦
            rw (data_register, other, sending)
              (take-take_append n (xs ++ value ∷ []) (sent lcr writes)
                ∙ ap (take n) (append_assoc xs (value ∷ []) (sent lcr writes)))
        | inr latched ↦ rw (data_register, other, latched) refl
      ]
  | inr control ↦ elim (Bool-cases (offset == 3)) [
    | inl line ↦ rw (control, line) refl
    | inr other ↦ rw (control, other) refl
  ]
]

-- The buffer holds the bytes that the guest's writes send, in their order, up to the number that it captures at most.
pub output-run :
    (u : Uart16550) (writes : List (ℕ × ℕ))
    → length u.output_buf ≤ u.max_capture
    → (run u writes).output_buf ≡ take u.max_capture (u.output_buf ++ sent u.lcr writes)
unfolding run
output-run u [] fits =
    sym
      (ap (take u.max_capture) (append-nil u.output_buf) ∙ take-all u.max_capture u.output_buf fits)
output-run u ((offset, value) ∷ writes) fits =
    let u' = (write_reg u offset value).1 in
    let (limit, line, buffer) = write_reg-AfterWrite u offset value fits in
    let fits' : length u'.output_buf ≤ u'.max_capture =
      rw (limit, buffer) (buffered-le u.max_capture u.output_buf u.lcr offset value fits) in
    output-run u' writes fits'
    ∙ rw (limit, line, buffer) (step_lem u.max_capture u.output_buf u.lcr offset value writes)
