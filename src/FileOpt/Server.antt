-- ===== src/FileOpt/Server.antt =====
-- A server with one file of 2000 bytes, on which the theorems about the file operations of
-- src/target/o_pocket/context/logic are tried with the disk of FileSystem/Shelf.
use device_broker.Prelude.{true, false, none, some, [], ◌∷◌, pos}
use device_broker.Requests.{TaskFileOperationFilePull}
use device_broker.FileSystem.Shelf.{Shelf, put}
use device_broker.Archive.{Zip}
use device_broker.FileOpt.{Remote}

abbrev pub server : Remote Shelf
server = record {
  download_file = λ url p s. (true, put p (some (7 ∷ [])) s);
  file_size = λ url s. some 2000;
  upload_all = λ url p usr passwd s. (pos 0, s);
  download_one = λ url p usr passwd s. (pos 0, s);
  last_name = λ url. "a";
}

-- No archive can be read.
abbrev pub no_zip : Zip Shelf
no_zip = record {
  reader_init_file = λ p s. false;
  get_num_files = λ p s. 0;
  file_stat = λ p n s. none;
  is_file_a_directory = λ p n s. false;
  extract_to_file = λ p n q s. (false, s);
  locate_file = λ p s. false;
  add_file = λ b p q s. (false, s);
}

abbrev pub pull_core : TaskFileOperationFilePull
pull_core = record {
  task_id = pos 1;
  protocol = "smb";
  dst_url = "smb://h/d/";
  src_type = "core_file";
  opt_type = "copy";
  smb_usr = "u";
  smb_passwd = "p";
}
