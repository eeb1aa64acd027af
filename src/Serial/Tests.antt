-- ===== src/Serial/Tests.antt =====
-- The theorems about the serial port at work on a port of three bytes.
use tinymachine.Common.{[], ◌∷◌}
use tinymachine.Serial.{SerialPort, new}
use tinymachine.Serial.Status.{
  IsAccurate, guest_writes, guest_reads, host_reads, host_writes, run, run-new-IsAccurate,
}

abbrev port : SerialPort
port = record { rx_buffer = 1 ∷ 2 ∷ []; tx_buffer = 3 ∷ []; max_size = 3; line_status = 0x01 }

run-new-IsAccurate_example :
    IsAccurate
      (run (new 3) (guest_writes 65 ∷ host_writes 1 (2 ∷ []) ∷ guest_reads ∷ host_reads ∷ []))
run-new-IsAccurate_example =
    run-new-IsAccurate 3 (guest_writes 65 ∷ host_writes 1 (2 ∷ []) ∷ guest_reads ∷ host_reads ∷ [])
