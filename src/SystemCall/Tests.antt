-- ===== src/SystemCall/Tests.antt =====
-- Commands and their records at concrete answers (src/target/o_pocket/common/system_call.cpp).
use device_broker.Prelude.{ℕ, ◌≡◌, refl, String, true, false, Option, some, [], ◌∷◌, ℤ, pos}
use device_broker.SystemCall.{RecordBackend, Pipe, make, execute, get_output_ret}

abbrev backend : RecordBackend
backend = record {
  is_to_stop = false;
  interval_ms = pos 10;
  record_cmd = "top";
  record_path = "/r";
}

abbrev prints : ℕ → ℤ × String
prints n = (pos 0, "x")

abbrev failing_pipe : String → Option Pipe
failing_pipe cmd = some (record { texts = "a" ∷ "b" ∷ []; close = pos 256 })

-- A command that exits with 1 answers 1, and `get_output_ret` goes on telling 0.
ret_not_kept :
    let (ret, c) = execute failing_pipe (λ r. true) (λ r. false) (λ r. pos 1) (make "false") in
    (ret ≡ pos 1) × (c.output_str ≡ "ab") × (get_output_ret c ≡ some (pos 0))
unfolding execute make get_output_ret
ret_not_kept = (refl, refl, refl)
