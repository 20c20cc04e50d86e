-- ===== src/FileOpt/Ignored.antt =====
-- What the two file jobs of src/target/o_pocket/context/logic/file_opt leave undone.
use device_broker.Prelude.{
  ◌≡◌, inl, inr, refl, Bool-cases, String, false, some, List, ◌∷◌, ℤ, pos, neg, nonzero,
  if◌then◌else◌,
}
use device_broker.Requests.{TaskFileOperationFilePull, TaskFileOperationFileClear}
use device_broker.TaskSuit.{TaskReturn}
use device_broker.FileSystem.{Disk}
use device_broker.FileSystem.Throwing.{done, and_then, ask}
use device_broker.FileOpt.{Remote}
use device_broker.FileOpt.Jobs.{
  find_file_list_by_suffix, file_operation_file_clear, file_operation_file_pull,
}

module _ {S : Type 0} (fs : Disk S) (s : S) where
  -- A request to clear log files clears nothing: it looks in a folder whose path is empty, which
  -- there is none of, and answers -2.
  pub file_clear-log_files :
      (info : TaskFileOperationFileClear)
      → info.src_type ≡ "log_file"
      → fs.exists "" s ≡ some false
      → (r : TaskReturn) × (file_operation_file_clear fs info s ≡ (done r, s))
        × (r.code_value ≡ neg 2)
  unfolding file_operation_file_clear
  file_clear-log_files info type missing = (
    record { code_msg = "find_file_list_by_suffix fail"; code_value = neg 2; task_type = 6 },
    simp (type, ask, and_then, missing),
    refl,
  )

  -- A copy of core files that finds some uploads `/var/run` and not what it found: the disk is left as
  -- that upload leaves it, and the answer is 0 where it succeeds and -2 where it does not.
  file_pull-core_files :
      (remote : Remote S) (info : TaskFileOperationFilePull) (file : String) (files : List String)
      (ret : ℤ) (t : S)
      → info.src_type ≡ "core_file"
      → info.protocol ≡ "smb"
      → info.opt_type ≡ "copy"
      → find_file_list_by_suffix fs "/var/log" ".core" s ≡ (done (pos 0, file ∷ files), s)
      → remote.upload_all info.dst_url "/var/run" info.smb_usr info.smb_passwd s ≡ (ret, t)
      → (r : TaskReturn) × (file_operation_file_pull fs remote info s ≡ (done r, t))
        × (r.code_value ≡ (if nonzero ret then neg 2 else pos 0))
  unfolding file_operation_file_pull
  file_pull-core_files remote info file files ret t type protocol opt find upload =
      elim (Bool-cases (nonzero ret)) [
        | inl e ↦ (
          record { code_msg = "check file pull info fail"; code_value = neg 2; task_type = 5 },
          simp (type, protocol, opt, find, and_then, upload, e),
          simp e,
        )
        | inr e ↦ (
          record { code_msg = "file pull opt success"; code_value = pos 0; task_type = 5 },
          simp (type, protocol, opt, find, and_then, upload, e),
          simp e,
        )
      ]
