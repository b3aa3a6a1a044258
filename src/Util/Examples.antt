-- ===== src/Util/Examples.antt =====
-- The helpers of pkg/utilities/utilities.go at concrete inputs.
use mchat.Base.{◌≡◌, refl, true, false, some, arith, codes, length}
use mchat.TestRuntime.{test_runtime}
use mchat.Validation.{validate_password_sha256}
use mchat.Util.{Writer, write_bytes, sha256_checksum}
use mchat.Util.Checksum.{sha256_checksum-validate}
use mchat.Util.Writing.{write_bytes_total}

abbrev whole_writer : Writer
whole_writer k buffer = (length buffer, false)

sha256_checksum-validate_example :
    validate_password_sha256 (sha256_checksum test_runtime (codes "NeverAgain1999#")) ≡ true
sha256_checksum-validate_example = sha256_checksum-validate test_runtime (codes "NeverAgain1999#")

write_bytes_total_example : write_bytes 2 whole_writer (codes "hello") ≡ some (5, false)
write_bytes_total_example =
    write_bytes_total 2 whole_writer (codes "hello") (omega arith) (λ k buffer h. refl)
