-- ===== src/Time/Tests.antt =====
-- Runs of the time stamp, and its theorems at concrete inputs.
use learnuv.Base.{◌≡◌, ◌∷◌, arith}
use learnuv.Base.Int.{negsuc}
use learnuv.Base.Decimal.{decimal, zero_padded}
use learnuv.Time.{to_string, to_string_before_epoch}

to_string_before_epoch_run :
    to_string (record { micros = negsuc 249 }) ≡ b'0' ∷ b'.' ∷ b'-' ∷ zero_padded 5 (decimal 250)
to_string_before_epoch_run = to_string_before_epoch 249 (omega arith)
