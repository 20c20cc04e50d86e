-- ===== src/FileOpt/Jobs.antt =====
-- The two file jobs of the service: file_pull.cpp, file_clear.cpp and http_file_opt_request.cpp of
-- src/target/o_pocket/context/logic/file_opt.
use device_broker.Prelude.{
  String, Bool, true, false, not, ◌||◌, ◌&&◌, List, [], ◌∷◌, ℤ, pos, neg, nonzero, if◌then◌else◌,
}
use device_broker.Requests.{TaskFileOperationFilePull, TaskFileOperationFileClear}
use device_broker.TaskSuit.{
  TaskReturn, default_return, code, task_file_opt_file_pull, task_file_opt_file_clear,
}
use device_broker.HttpService.{same_string}
use device_broker.FileSystem.{Disk, delete_file}
use device_broker.FileSystem.Throwing.{Action, pure, ◌>>=◌, ask}
use device_broker.FileOpt.{Remote}

abbrev is_empty : List String → Bool
is_empty [] = true
is_empty (f ∷ fs) = false

module _ {S : Type 0} (fs : Disk S) where
  -- The files with the suffix among the entries of a walk.
  unfoldable pub with_suffix : String → List String → Action S (List String)
  with_suffix suffix [] = pure []
  with_suffix suffix (entry ∷ entries) = do
    file ← ask (fs.is_regular_file entry)
    rest ← with_suffix suffix entries
    pure (if file && same_string (fs.extension entry) suffix then entry ∷ rest else rest)

  unfoldable pub find_file_list_by_suffix : String → String → Action S (ℤ × List String)
  unfolding with_suffix
  find_file_list_by_suffix root_dir suffix = do
    found ← ask (fs.exists root_dir)
    folder ← if found then ask (fs.is_directory root_dir) else pure false
    if not folder
        then pure (neg 1, [])
        else do files ← with_suffix suffix (← ask (fs.entries root_dir)); pure (pos 0, files)

  unfoldable pub clear_file : List String → Action S ℤ
  unfolding delete_file
  clear_file [] = pure (pos 0)
  clear_file (cur_file ∷ files) = do
    ret ← delete_file fs cur_file false
    if nonzero ret then pure (neg 1) else clear_file files

  -- Only core files get a folder and a suffix.
  unfoldable pub file_operation_file_clear : TaskFileOperationFileClear → Action S TaskReturn
  unfolding find_file_list_by_suffix clear_file code
  file_operation_file_clear info =
      let core = same_string info.src_type "core_file" in
      if not (core || same_string info.src_type "log_file")
      then pure (failed (neg 1) "check file_clear_info fail")
      else do
        (ret, files) ←
            find_file_list_by_suffix (if core then "/var/log" else "")
              (if core then ".core" else "")
        if nonzero ret then pure (failed (neg 2) "find_file_list_by_suffix fail") else do
          ret ← clear_file files
          if nonzero ret then pure (failed (neg 3) "clear_file fail") else pure default_return
    where
      failed : ℤ → String → TaskReturn
      failed ret msg = record {
        code_msg = msg;
        code_value = ret;
        task_type = code task_file_opt_file_clear;
      }

  module _ (remote : Remote S) where
    -- The files of the list are not read.
    unfoldable pub smb_remote_upload_file :
        (in_url : String) → List String → (in_smb_usr in_smb_passwd : String) → Action S ℤ
    smb_remote_upload_file in_url in_local_file_list in_smb_usr in_smb_passwd s =
        let (ret, t) = remote.upload_all in_url "/var/run" in_smb_usr in_smb_passwd s in
        pure (if nonzero ret then neg 1 else pos 0) t

    unfoldable pub smb_remote_upload_file_by_suffix :
        (in_url in_local_dir in_file_suffix in_smb_usr in_smb_passwd : String) → Action S ℤ
    unfolding find_file_list_by_suffix smb_remote_upload_file
    smb_remote_upload_file_by_suffix in_url in_local_dir in_file_suffix in_smb_usr in_smb_passwd =
        do
          (ret, files) ← find_file_list_by_suffix in_local_dir in_file_suffix
          if nonzero ret || is_empty files then pure (neg 1) else do
            ret ← smb_remote_upload_file in_url files in_smb_usr in_smb_passwd
            if nonzero ret then pure (neg 2) else pure (pos 0)

    unfoldable pub file_operation_file_pull : TaskFileOperationFilePull → Action S TaskReturn
    unfolding smb_remote_upload_file_by_suffix code
    file_operation_file_pull info =
        let core = same_string info.src_type "core_file" in
        if not (same_string info.protocol "smb")
          || not (core || same_string info.src_type "log_file")
          || not (same_string info.opt_type "copy")
        then pure (answer (neg 1) "check file pull info fail")
        else do
          ret ←
              smb_remote_upload_file_by_suffix info.dst_url
                (if core then "/var/log" else "/var/i30_objective/objective/log")
                (if core then ".core" else ".log") info.smb_usr info.smb_passwd
          if nonzero ret
              then pure (answer (neg 2) "check file pull info fail")
              else pure (answer (pos 0) "file pull opt success")
      where
        answer : ℤ → String → TaskReturn
        answer ret msg = record {
          code_msg = msg;
          code_value = ret;
          task_type = code task_file_opt_file_pull;
        }
