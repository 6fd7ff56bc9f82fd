-- ===== src/Daemon/Results.antt =====
-- Result codes (linux-hello/src/verification.py, class VerificationResult).
use linux_hello.Prelude.{ℕ, ◌≡◌, refl, ◌==◌, if◌then◌else◌}

pub data VerificationResult : Type 0 where
  success no_face_model timeout_reached aborted too_dark invalid_device rubberstamp not_confirmed
        confirm_paused skipped not_local confirm_conflict cancelled unknown_error :
      VerificationResult

-- `int(result)`
unfoldable pub exit_code : VerificationResult → ℕ
exit_code success = 0
exit_code no_face_model = 10
exit_code timeout_reached = 11
exit_code aborted = 12
exit_code too_dark = 13
exit_code invalid_device = 14
exit_code rubberstamp = 15
exit_code not_confirmed = 16
exit_code confirm_paused = 17
exit_code skipped = 18
exit_code not_local = 19
exit_code confirm_conflict = 20
exit_code cancelled = 250
exit_code unknown_error = 251

unfoldable pub from_exit_code : ℕ → VerificationResult
from_exit_code code =
    if code == 0
    then success
    else if code == 10
    then no_face_model
    else if code == 11
    then timeout_reached
    else if code == 12
    then aborted
    else if code == 13
    then too_dark
    else if code == 14
    then invalid_device
    else if code == 15
    then rubberstamp
    else if code == 16
    then not_confirmed
    else if code == 17
    then confirm_paused
    else if code == 18
    then skipped
    else if code == 19
    then not_local
    else if code == 20
    then confirm_conflict
    else if code == 250
    then cancelled
    else unknown_error

-- A result that the service sends as a number is read back by its clients.
pub from_exit_code-exit_code : (r : VerificationResult) → from_exit_code (exit_code r) ≡ r
unfolding from_exit_code exit_code
from_exit_code-exit_code success = refl
from_exit_code-exit_code no_face_model = refl
from_exit_code-exit_code _ = refl
