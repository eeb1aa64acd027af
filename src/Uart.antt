-- ===== src/Uart.antt =====
-- The UART of the guest's port I/O: `Uart16550` of tinymachine-fork/src/arch/x86_64/port.rs. Registers and the
-- values written are bytes; an offset is the port less the base of the serial port.
pub mod Output
pub mod Registers
mod Tests
use tinymachine.Common.{
  ℕ, Bool, true, false, not, ◌==◌, ltb, if◌then◌else◌, List, [], ◌∷◌, ◌++◌, length, bit_and, bit_or,
}

abbrev pub uart_dlab : ℕ
uart_dlab = 0x80

abbrev pub lsr_thre : ℕ
lsr_thre = 0x20

abbrev pub lsr_temt : ℕ
lsr_temt = 0x40

abbrev pub msr_all_set : ℕ
msr_all_set = bit_or (bit_or (bit_or 0x80 0x40) 0x20) 0x10

abbrev pub fcr_enable : ℕ
fcr_enable = 0x01

abbrev pub iir_no_int_pending : ℕ
iir_no_int_pending = 0x01

abbrev pub iir_fifo_enabled : ℕ
iir_fifo_enabled = 0xc0

pub record Uart16550 : Type 0 where
  pub lcr : ℕ
  pub scr : ℕ
  pub ier : ℕ
  pub fcr : ℕ
  pub mcr : ℕ
  pub dll : ℕ
  pub dlm : ℕ
  pub output_buf : List ℕ
  pub max_capture : ℕ

abbrev pub new : Uart16550
new = record {
  lcr = 0x03;
  scr = 0x00;
  ier = 0x00;
  fcr = 0x00;
  mcr = 0x00;
  dll = 0x01;
  dlm = 0x00;
  output_buf = [];
  max_capture = 2000;
}

abbrev pub dlab : Uart16550 → Bool
dlab u = not (bit_and u.lcr uart_dlab == 0)

unfoldable pub read_reg : Uart16550 → ℕ → ℕ
read_reg u offset =
    if offset == 0
    then (if dlab u then u.dll else 0x00)
    else if offset == 1
    then (if dlab u then u.dlm else u.ier)
    else if offset == 2
    then bit_or iir_no_int_pending
        (if not (bit_and u.fcr fcr_enable == 0) then iir_fifo_enabled else 0x00)
    else if offset == 3
    then u.lcr
    else if offset == 4
    then u.mcr
    else if offset == 5
    then bit_or lsr_thre lsr_temt
    else if offset == 6
    then msr_all_set
    else if offset == 7
    then u.scr
    else 0x00

unfoldable pub output_char : Uart16550 → ℕ → Uart16550
output_char u c =
    if ltb (length u.output_buf) u.max_capture
    then record u { output_buf = u.output_buf ++ c ∷ [] }
    else u

unfoldable pub write_reg : Uart16550 → ℕ → ℕ → Bool × Uart16550
unfolding output_char
write_reg u offset value =
    if offset == 0
    then (if dlab u then (false, record u { dll = value }) else (true, output_char u value))
    else if offset == 1
    then (false, if dlab u then record u { dlm = value } else record u { ier = value })
    else if offset == 2
    then (false, record u { fcr = value })
    else if offset == 3
    then (false, record u { lcr = value })
    else if offset == 4
    then (false, record u { mcr = value })
    else if offset == 7
    then (false, record u { scr = value })
    else (false, u)
