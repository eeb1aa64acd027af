-- ===== src/Uart/Tests.antt =====
-- The theorems about the UART at work on a driver that sets the divisor and sends two bytes.
use tinymachine.Common.{ℕ, ◌≡◌, List, [], ◌∷◌, ◌++◌, take, arith}
use tinymachine.Uart.{new}
use tinymachine.Uart.Output.{run, sent, output-run}

abbrev driver : List (ℕ × ℕ)
driver = (3, 0x83) ∷ (0, 12) ∷ (3, 0x03) ∷ (0, 72) ∷ (7, 0x5a) ∷ (0, 105) ∷ []

output-run_example : (run new driver).output_buf ≡ take 2000 ([] ++ sent 0x03 driver)
output-run_example = output-run new driver (omega arith)
