-- ===== src/SystemCall.antt =====
-- src/target/o_pocket/common/system_call.cpp: a command with its output, and the thread that records the
-- output of a command again and again. What `popen`, the reads and `pclose` answer, the status macros
-- of <sys/wait.h>, and what the outside tells at each check are arguments.
mod Recording
mod Tests
use Prim.Native.String.{◌++◌}
use device_broker.Prelude.{
  ℕ, zero, suc, String, Bool, true, false, not, ◌||◌, Option, none, some, List, [], ◌∷◌, ℤ, pos,
  neg, nonzero, eq_ℤ, if◌then◌else◌,
}
use device_broker.FileSystem.{Disk}
use device_broker.FileSystem.Throwing.{
  Action, Outcome, done, raised, unending, pure, ◌>>=◌, ◌>>◌, ask, attempt,
}

pub record SystemCall : Type 0 where
  pub is_running : Bool
  pub output_ret : ℤ
  pub cmd_str : String
  pub output_str : String

unfoldable pub make : String → SystemCall
make in_cmd_str = record {
  is_running = false;
  output_ret = pos 0;
  cmd_str = in_cmd_str;
  output_str = "";
}

abbrev pub gen_android_top_cmd_with_grep : String → String
gen_android_top_cmd_with_grep cmd_grep_str = "top -n 1 | grep " ++ cmd_grep_str

abbrev pub gen_qnx_hogs_cmd_with_grep : String → String
gen_qnx_hogs_cmd_with_grep cmd_grep_str = "hogs -i 1 | grep " ++ cmd_grep_str

-- `none` where they throw: the call is still running.
unfoldable pub get_output_ret : SystemCall → Option ℤ
get_output_ret c = if c.is_running then none else some c.output_ret

unfoldable pub get_output_str : SystemCall → Option String
get_output_str c = if c.is_running then none else some c.output_str

abbrev pub concat : List String → String
concat [] = ""
concat (s ∷ ss) = s ++ concat ss

-- What a pipe gives: the texts that `fgets` reads, and the answer of `pclose`.
pub record Pipe : Type 0 where
  pub texts : List String
  pub close : ℤ

module _ (popen : String → Option Pipe) where
  unfoldable pub run_cmd_and_output : String → ℤ × String
  run_cmd_and_output cmd_str = elim (popen cmd_str) [
    | none ↦ (neg 1000, "")
    | some pipe ↦ (pipe.close, concat pipe.texts)
  ]

  module _ (exited signaled : ℤ → Bool) (exit_status : ℤ → ℤ) where
    unfoldable pub filter_system_call_ret : ℤ → ℤ
    filter_system_call_ret ret =
        if eq_ℤ (neg 1) ret
        then neg 100
        else if exited ret
        then exit_status ret
        else if signaled ret
        then neg 200
        else neg 300

    -- The answer is not stored: `output_ret` stays what it was.
    unfoldable pub execute : SystemCall → ℤ × SystemCall
    unfolding run_cmd_and_output filter_system_call_ret
    execute c =
        let (ret, output) = run_cmd_and_output c.cmd_str in
        (filter_system_call_ret ret, record c { is_running = false; output_str = output })

pub record RecordBackend : Type 0 where
  pub is_to_stop : Bool
  pub interval_ms : ℤ
  pub record_cmd : String
  pub record_path : String

-- By what `is_stop_()` answers.
unfoldable pub to_stop : Bool → RecordBackend → RecordBackend
to_stop is_stop r = if is_stop then r else record r { is_to_stop = true }

-- The thread's loop from its n-th check on: `is_stop n` is what `is_stop_()` answers there and `run n`
-- what the call answers and has printed. The texts that are written; `none` while it is not over.
unfoldable pub record_loop :
    (fuel : ℕ)
    → (is_stop : ℕ → Bool) → (run : ℕ → ℤ × String) → (is_to_stop : Bool) → ℕ
    → Option (List String)
record_loop zero is_stop run is_to_stop n = none
record_loop (suc fuel) is_stop run is_to_stop n =
    let rest = record_loop fuel is_stop run is_to_stop (suc n) in
    if not (not (is_stop n) || is_to_stop)
    then some []
    else if nonzero (run n).0
    then some []
    else elim rest [ none ↦ none | some texts ↦ some ((run n).1 ∷ texts) ]

-- The folder of the record is made, or an old record is removed; where that fails, it throws.
module _ {S : Type 0} (fs : Disk S) where
  unfoldable pub prepare_dir : String → Action S ℤ
  prepare_dir target_file = do
    found ← ask (fs.exists (fs.parent_path target_file))
    file ← if found then ask (fs.is_regular_file target_file) else pure false
    if not found then attempt (fs.create_directories (fs.parent_path target_file)) else pure tt
    if file then attempt (fs.remove target_file) else pure tt
    pure (pos 0)
