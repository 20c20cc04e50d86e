-- ===== src/TestbedParam/Tests.antt =====
-- The folders and the command of a task at concrete messages
-- (src/target/o_pocket/context/logic/objecitve/testbed_param.h and testbed_cmd_parse.cpp).
use text.Mathlib.Text.{◌==◌}
use text.Mathlib.TextEquality.{eq_iff}
use device_broker.Prelude.{
  String, Bool, true, ◌||◌, none, some, [], ◌∷◌, ◌≡◌, refl, pos, neg, ◌++◌, arith,
}
use device_broker.TestbedParam.{Env, folders}
use device_broker.TestbedParam.Text.{to_string, unquote}
use device_broker.TestbedParam.CmdParser.{cmd_var_replace, push_buitin_var_value, variable}
use device_broker.TestbedParam.Command.{Names, material_filename}
use device_broker.TestbedParam.Folders.{Makes, Ready, folders-Ready}

-- Folders by their paths.
abbrev Paths : Type 0
Paths = String → Bool

abbrev there : Env Paths
there = record {
  access = λ p s. s p;
  mkdir = λ p s. (true, λ q. q == p || s q);
  create_directory = λ p s. (true, s);
  current_path = λ s. some "/";
  set_current_path = λ p s. (true, s);
  read_config = λ p s. none;
  cur_log_dir = "/log";
  stem = λ name. name;
  testbed_cmd_append_str = "";
}

there-Makes : Makes there
there-Makes = record {
  made = λ p s e. ground (arith, eq_iff p p);
  kept = λ p q s e. ground (arith, e);
}

abbrev start : Paths
start p = p == "/r" || p == "/r/t"

made_for_task :
    (folders there "/r" "/r/t" (pos 12) (pos 0) (pos 0, start)).1 "/r/t/12/0/result" ≡ true
unfolding folders
made_for_task = refl

folders-Ready_example :
    Ready there
      ("/r/t/12/0/metrial" ∷ "/r/t/12/0" ∷ "/r/t/12/0/result" ∷ "/r/t/12/0" ∷ "/r/t/12" ∷ "/r/t"
        ∷ "/r" ∷ [])
      (folders there "/r" "/r/t" (pos 12) (pos 0) (pos 0, start))
unfolding to_string
folders-Ready_example = folders-Ready there there-Makes "/r" "/r/t" (pos 12) (pos 0) start

minus : to_string (neg 120) ≡ "-120"
unfolding to_string
minus = refl

quoted : unquote "\"dms\"" ≡ "dms"
unfolding unquote
quoted = refl

last_part : material_filename "smb://h/d/a.mp4" ≡ "a.mp4"
unfolding material_filename
last_part = refl

abbrev names : Names
names = record {
  testbed_path = "/t";
  metrial_path = "/t/1/0/metrial";
  metrial_path_url = "smb://h/d/a.mp4";
  result_dir_path = "/t/1/0/result";
  extended_cmd_str = "";
  log_path = "/log/a.log";
}

-- The variable a, whose value is xyz, in a command that has it.

-- With two variables, each is replaced at its position in the command as it came: `<sin_a><sin_b>`
-- gives `x<sin_by` and not `xy`.
two_variables :
    cmd_var_replace
      (push_buitin_var_value
        (b'b' ∷ [])
        (b'y' ∷ [])
        (push_buitin_var_value (b'a' ∷ []) (b'x' ∷ []) []))
      (variable (b'a' ∷ []) ++ variable (b'b' ∷ []))
    ≡ some (b'x' ∷ b'<' ∷ b's' ∷ b'i' ∷ b'n' ∷ b'_' ∷ b'b' ∷ b'y' ∷ [])
unfolding cmd_var_replace push_buitin_var_value
two_variables = refl
