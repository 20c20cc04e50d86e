-- ===== src/TestbedParam.antt =====
-- src/target/o_pocket/context/logic/objecitve/testbed_param.h: the folders and the command of a task,
-- from the fields that the JSON library finds in a message. What the operating system, the log and
-- <filesystem> answer and do are the fields of an `Env` and of a `Disk`.
pub mod CmdParser
mod Folders
mod Replaced
mod Tests
pub mod Command
pub mod Text
use Prim.Native.String.{◌++◌}
use device_broker.Prelude.{
  ℕ, zero, suc, ◌+◌, ◌-◌, ◌/◌, ◌%◌, String, Bool, true, false, not, ◌||◌, ◌&&◌, Option, none, some,
  List, [], ◌∷◌, ℤ, pos, negsuc, neg, ltb, ◌==◌, if◌then◌else◌,
}
use device_broker.HttpService.{same_string}
use device_broker.FileSystem.{Disk, normal_path}
use device_broker.FileSystem.Throwing.{
  Action, Outcome, done, raised, unending, pure, ◌>>=◌, ◌>>◌, ask, attempt,
}
use device_broker.FileOpt.{path_below}
use device_broker.TestbedParam.Text.{to_string, unquote}
use device_broker.TestbedParam.Command.{
  MaterialType, other, Names, run_cmd_of, material_type_of, material_filename,
}

-- What `contains` and the conversions find: `none` for a key that is missing, all of them where the
-- text does not parse.
pub record Req : Type 0 where
  pub parses : Bool
  pub parent_task_id : Option ℤ
  pub msg_id : Option ℤ
  pub upload_result_dir_path : Option String
  pub metrial_path_url : Option String
  pub material_type : Option String

-- `_configurations.json`: `none` where `at` throws.
pub record Config : Type 0 where
  pub formatted_inputs : Option String
  pub config_path : Option (List (Option (String × String)))

pub record Env (S : Type 0) : Type 0 where
  pub access : String → S → Bool
  pub mkdir : String → S → Bool × S
  pub create_directory : String → S → Bool × S
  pub current_path : S → Option String
  pub set_current_path : String → S → Bool × S
  pub read_config : String → S → Option Config
  pub cur_log_dir : String
  pub stem : String → String
  pub testbed_cmd_append_str : String

pub record TestbedParam : Type 0 where
  pub status : ℤ
  pub parent_task_id : ℤ
  pub msg_id : ℤ
  pub testbed_path : String
  pub result_dir_path : String
  pub metrial_dir : String
  pub metrial_path : String
  pub upload_result_dir_path : String
  pub metrial_path_url : String
  pub material_type : String
  pub run_cmd : String

abbrev parsed : {A B : Type 0} → (A → B) → B → Option A → B
parsed f old none = old
parsed f old (some v) = f v

abbrev missing : {A : Type 0} → Option A → Bool
missing none = true
missing (some v) = false

abbrev any_missing : Req → Bool
any_missing req =
    not req.parses
    || missing req.parent_task_id
    || missing req.msg_id
    || missing req.upload_result_dir_path
    || missing req.metrial_path_url
    || missing req.material_type

module _ {S : Type 0} (env : Env S) where
  -- A folder that is not there is made; the status is -1 from a failure on.
  unfoldable pub ensure : String → ℤ × S → ℤ × S
  ensure path (status, s) =
      let (made, t) = env.mkdir path s in
      if env.access path s then (status, s) else (if made then status else neg 1, t)

  unfoldable pub require : String → ℤ × S → ℤ × S
  require path (status, s) = (if env.access path s then status else neg 1, s)

  -- The folders of the constructor, in order: those that must be there, then those that are made.
  unfoldable pub folders :
      (root testbed_path : String) → (parent_task_id msg_id : ℤ) → ℤ × S → ℤ × S
  unfolding ensure require to_string
  folders root testbed_path parent_task_id msg_id st =
      let task = path_below testbed_path (to_string parent_task_id) in
      let message = path_below task (to_string msg_id) in
      ensure (path_below message "metrial") (
        ensure message (
          ensure (path_below message "result")
            (ensure message (ensure task (require testbed_path (require root st))))))

  module _ (fs : Disk S) where
    -- Only the first pair is looked at: the loop returns at its end. The folder is changed until then.
    unfoldable pub replace_first :
        (extended dir origin : String) → List (Option (String × String)) → Action S String
    unfolding normal_path
    replace_first extended dir origin [] = do attempt (env.set_current_path origin); pure ""
    replace_first extended dir origin (none ∷ pairs) = ask (λ _. none)
    replace_first extended dir origin (some (file_name, dst_dir) ∷ pairs) = do
      let src = path_below dir file_name
      normal_path fs src
      dst ← ask (fs.absolute (← normal_path fs (dst_dir ++ file_name)))
      found ← ask (fs.exists src)
      src' ← ask (fs.absolute src)
      if found && not (same_string src' dst) then attempt (fs.rename src dst) else pure tt
      pure extended

    unfoldable pub test_replace_file : (in_cfg_name in_cfg_absolute_dir : String) → Action S String
    unfolding replace_first
    test_replace_file in_cfg_name dir = do
      found ← ask (fs.exists (path_below dir in_cfg_name))
      if not found then pure "" else λ s. caught_text (replaced s)
      where
        replaced : Action S String
        replaced = do
          cfg ← ask (env.read_config (path_below dir in_cfg_name))
          extended ← ask (λ _. cfg.formatted_inputs)
          pairs ← ask (λ _. cfg.config_path)
          origin ← ask env.current_path
          attempt (env.set_current_path dir)
          replace_first extended dir origin pairs

        caught_text : Outcome String × S → Outcome String × S
        caught_text (done r, s) = (done r, s)
        caught_text (raised, s) = (done "", s)
        caught_text (unending, s) = (unending, s)

    -- The program is looked for where the type of the material is a known one.
    unfoldable pub platform_exists : String → MaterialType → Action S Bool
    platform_exists testbed_path other = pure false
    platform_exists testbed_path type = ask (fs.exists (path_below testbed_path "TESTBED_PLATFORM"))

    -- The numbers are not initialised: what they hold first is an argument.
    unfoldable pub make : (old_task old_msg : ℤ) → Req → Action S TestbedParam
    unfolding to_string unquote folders test_replace_file platform_exists material_type_of
    make old_task old_msg req s =
        let task_id = parsed (λ n. n) old_task req.parent_task_id in
        let msg_id = parsed (λ n. n) old_msg req.msg_id in
        let upload = parsed unquote "" req.upload_result_dir_path in
        let url = parsed unquote "" req.metrial_path_url in
        let type = parsed unquote "dms" req.material_type in
        let path : String = "/var/TESTBED/testbed_objective" in
        let metrial_dir = path_below path (to_string task_id) in
        let message = path_below metrial_dir (to_string msg_id) in
        let (status, s') =
          folders "/var/TESTBED" path task_id msg_id
            (if any_missing req then neg 1 else pos 0, s) in
        (do
          extended ← test_replace_file "_configurations.json" path
          log_dir ← λ t.
              (let (made, u) = env.create_directory (env.cur_log_dir ++ "/testbed") t in
                pure (if made then env.cur_log_dir ++ "/testbed" else env.cur_log_dir) u)
          exists ← platform_exists path (material_type_of type)
          pure (record {
            status = status;
            parent_task_id = task_id;
            msg_id = msg_id;
            testbed_path = path;
            result_dir_path = path_below message "result";
            metrial_dir = metrial_dir;
            metrial_path = path_below message "metrial";
            upload_result_dir_path = path_below upload (to_string msg_id) ++ "/";
            metrial_path_url = url;
            material_type = type;
            run_cmd = run_cmd_of exists type msg_id (record {
              testbed_path = path;
              metrial_path = path_below message "metrial";
              metrial_path_url = url;
              result_dir_path = path_below message "result";
              extended_cmd_str = extended ++ env.testbed_cmd_append_str;
              log_path = path_below log_dir (env.stem (material_filename url) ++ ".log");
            });
          }))
          s'
