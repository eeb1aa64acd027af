-- ===== src/Serial.antt =====
-- tinymachine-fork/src/serial.rs: the 16550 UART, two bounded buffers and the line status register.
-- A byte is a number below 256, and the front of a buffer is the head of its list.
pub mod Buffers
pub mod Status
mod Tests
use tinymachine.Common.{
  ℕ, List, [], ◌∷◌, ◌++◌, leb, if◌then◌else◌, length, drop, bit_and, bit_or, Result, ok, err,
}

pub data SerialError : Type 0 where
  buffer_full no_data : SerialError

pub record SerialPort : Type 0 where
  pub rx_buffer : List ℕ
  pub tx_buffer : List ℕ
  pub max_size : ℕ
  pub line_status : ℕ

abbrev pub lsr_data_ready : ℕ
lsr_data_ready = 0x01

abbrev pub lsr_tx_empty : ℕ
lsr_tx_empty = 0x20

-- `!mask`, of eight bits
abbrev pub all_but_data_ready : ℕ
all_but_data_ready = 0xfe

abbrev pub all_but_tx_empty : ℕ
all_but_tx_empty = 0xdf

unfoldable pub new : ℕ → SerialPort
new max_size = record {
  rx_buffer = [];
  tx_buffer = [];
  max_size = max_size;
  line_status = lsr_tx_empty;
}

-- both buffers: drop the oldest byte when full, then add
unfoldable pub push_dropping : ℕ → List ℕ → ℕ → List ℕ
push_dropping max_size buffer byte =
    (if leb max_size (length buffer) then drop 1 buffer else buffer) ++ byte ∷ []

unfoldable pub guest_write : SerialPort → ℕ → SerialPort
guest_write p byte = record p {
  rx_buffer = push_dropping p.max_size p.rx_buffer byte;
  line_status = bit_or p.line_status lsr_data_ready;
}

unfoldable pub guest_read_lsr : SerialPort → ℕ
guest_read_lsr p = p.line_status

read_from : SerialPort → List ℕ → Result SerialError ℕ × SerialPort
read_from p [] = (err no_data, p)
read_from p (byte ∷ []) =
    (ok byte, record p { tx_buffer = []; line_status = bit_or p.line_status lsr_tx_empty })
read_from p (byte ∷ next ∷ rest) = (ok byte, record p { tx_buffer = next ∷ rest })

unfoldable pub guest_read : SerialPort → Result SerialError ℕ × SerialPort
unfolding read_from
guest_read p = read_from p p.tx_buffer

unfoldable pub host_read_all : SerialPort → List ℕ × SerialPort
host_read_all p = (
  p.rx_buffer,
  record p { rx_buffer = []; line_status = bit_and p.line_status all_but_data_ready },
)

unfoldable pub push_all : ℕ → List ℕ → List ℕ → List ℕ
push_all max_size buffer [] = buffer
push_all max_size buffer (byte ∷ rest) = push_all max_size (push_dropping max_size buffer byte) rest

unfoldable pub host_write : SerialPort → List ℕ → SerialPort
host_write p bytes = record p {
  tx_buffer = push_all p.max_size p.tx_buffer bytes;
  line_status = bit_and p.line_status all_but_tx_empty;
}

unfoldable pub reset : SerialPort → SerialPort
reset p = record p { rx_buffer = []; tx_buffer = []; line_status = lsr_tx_empty }
