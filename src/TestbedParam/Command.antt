-- ===== src/TestbedParam/Command.antt =====
-- The command of a task: the end of the constructor of
-- src/target/o_pocket/context/logic/objecitve/testbed_param.h. A path is put together by `fmt::format`.
use Prim.Native.Char.{code}
use Prim.Native.String.{◌++◌}
use device_broker.Prelude.{
  String, Bool, true, false, ◌||◌, Option, none, some, List, [], ◌∷◌, ℤ, eq_ℤ, pos, ◌==◌,
  if◌then◌else◌,
}
use device_broker.HttpService.{same_string}
use device_broker.FileOpt.{path_below}

-- What follows the last `/` or `\`, `none` where there is neither.
unfoldable pub after_slash : String → Option String
after_slash String.[] = none
after_slash (String.◌∷◌ c s) =
    let later = after_slash s in
    elim later [
      | some t ↦ some t
      | none ↦ if code c == b'/' || code c == b'\\' then some s else none
    ]

unfoldable pub material_filename : String → String
unfolding after_slash
material_filename url = elim (after_slash url) [ none ↦ url | some name ↦ name ]

-- The texts that a command is made of.
pub record Names : Type 0 where
  pub testbed_path : String
  pub metrial_path : String
  pub metrial_path_url : String
  pub result_dir_path : String
  pub extended_cmd_str : String
  pub log_path : String

abbrev pub material_path : Names → String
material_path n = path_below n.metrial_path (material_filename n.metrial_path_url)

-- The program's path, and whether it is the first of the two names, by whether that one is there.
unfoldable pub get_testbed_name : (exists : Bool) → String → Bool × String
get_testbed_name exists testbed_path =
    if exists
    then (true, path_below testbed_path "TESTBED_PLATFORM")
    else (false, path_below testbed_path "TESTBED_MAIN")

abbrev enter : Names → String → String
enter n program = "cd " ++ n.testbed_path ++ " && chmod a+x * && " ++ program

-- `gap` and `quiet` carry the white space that the formats do not agree on.
unfoldable pub module_cmd :
    Names → (program gap camera_type testbed_function taskname quiet : String) → String
module_cmd n program gap camera_type testbed_function taskname quiet =
    enter n program
    ++ gap
    ++ "--module="
    ++ camera_type
    ++ "  --function="
    ++ testbed_function
    ++ " --materialpath="
    ++ material_path n
    ++ "  --resultpath="
    ++ n.result_dir_path
    ++ "  --taskname="
    ++ taskname
    ++ " --fixedtimestamp=true  --materialname="
    ++ n.metrial_path_url
    ++ quiet
    ++ n.extended_cmd_str
    ++ " >> "
    ++ n.log_path

unfoldable pub plain_cmd : Names → (program camera_type : String) → String
plain_cmd n program camera_type =
    enter n program
    ++ " 123 "
    ++ camera_type
    ++ "  "
    ++ material_path n
    ++ " "
    ++ n.result_dir_path
    ++ " "
    ++ n.metrial_path_url
    ++ " "
    ++ n.extended_cmd_str
    ++ " >> "
    ++ n.log_path

unfoldable pub delete_all_cmd : Names → String → String
delete_all_cmd n program =
    enter n program
    ++ " --module=dms  --function=face_DeleteAll  --fixedtimestamp=true --materialname="
    ++ n.metrial_path_url
    ++ " --logEnable=false "
    ++ n.extended_cmd_str
    ++ " >> "
    ++ n.log_path

-- `run_cmd` after some assignments: the last one holds.
unfoldable pub assigned : String → List String → String
assigned run_cmd [] = run_cmd
assigned run_cmd (cmd ∷ cmds) = assigned cmd cmds

-- The material types; another one gives no command.
pub data MaterialType : Type 0 where
  dms oms register recognize algorithm other : MaterialType

unfoldable pub material_type_of : String → MaterialType
material_type_of t =
    if same_string t "dms"
    then dms
    else if same_string t "oms"
    then oms
    else if same_string t "register"
    then register
    else if same_string t "recognize"
    then recognize
    else if same_string t "algorithm"
    then algorithm
    else other

-- What is assigned to `run_cmd`, in order.
unfoldable pub commands : (exists : Bool) → MaterialType → (msg_id : ℤ) → Names → List String
unfolding get_testbed_name module_cmd plain_cmd delete_all_cmd
commands exists type msg_id n =
    let (is_first, program) = get_testbed_name exists n.testbed_path in
    let warning = λ (camera : String).
      (if is_first
        then module_cmd n program "  " camera "warning_Event" "task1" " --logEnable=false  "
        else plain_cmd n program camera)
      ∷ [] in
    elim type [
      | dms ↦ warning "dms"
      | oms ↦ warning "oms"
      | register ↦
          (let face =
              module_cmd n program "  " "dms" "face_Register" "task1" " --logEnable=false " in
            if eq_ℤ msg_id (pos 0) then delete_all_cmd n program ∷ face ∷ [] else face ∷ [])
      | recognize ↦
          module_cmd n program " " "dms" "face_Recognize" "task2" " --logEnable=false " ∷ []
      | algorithm ↦
          (let cmd =
              module_cmd n program " " "algorithm" "warning_Event" "task2" " --logEnable=false " in
            if is_first then cmd ∷ [] else [])
      | other ↦ []
    ]

unfoldable pub run_cmd_of :
    (exists : Bool) → (material_type : String) → (msg_id : ℤ) → Names → String
unfolding assigned commands material_type_of
run_cmd_of exists material_type msg_id n =
    assigned "" (commands exists (material_type_of material_type) msg_id n)
