-- ===== src/Requests.antt =====
-- The bodies of requests and messages (src/target/o_pocket/context/http_handle/http_body_cvt.h).
-- Parsing a body is done by a library that the repository does not hold; the models take its
-- result. The fields that only go into connection strings are left out.
use device_broker.Prelude.{String, ℤ}

pub record UpdateTaskInfo : Type 0 where
  pub task_id : ℤ
  pub testbed_pkg_path : String
  pub license_file_url : String

pub record ObjectiveRabbitmqTaskInfo : Type 0 where
  pub metrial_number : ℤ
  pub parent_task_id : ℤ
  pub username_smb : String
  pub password_smb : String

pub record RabbitmqMsgTaskInfo : Type 0 where
  pub msg_id : ℤ
  pub parent_task_id : ℤ
  pub metrial_path_url : String
  pub upload_result_dir_path : String

pub record TaskDeviceState : Type 0 where
  pub task_id : ℤ
  pub reboot : ℤ

pub record TaskObjectiveTerminate : Type 0 where
  pub task_id : ℤ
  pub task_type : ℤ

pub record TaskFileOperationFilePull : Type 0 where
  pub task_id : ℤ
  pub protocol : String
  pub dst_url : String
  pub src_type : String
  pub opt_type : String
  pub smb_usr : String
  pub smb_passwd : String

pub record TaskFileOperationFileClear : Type 0 where
  pub task_id : ℤ
  pub src_type : String
