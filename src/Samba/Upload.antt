-- ===== src/Samba/Upload.antt =====
-- The uploads of src/target/o_pocket/io/samba_transfer.{h,cpp}, its setters, and SafeSambaTrasfer.
use Prim.Native.String.{◌++◌, slice, len}
use device_broker.Prelude.{
  ℕ, ◌+◌, String, Bool, not, Option, none, some, List, [], ◌∷◌, ℤ, pos, negsuc, neg, if◌then◌else◌,
}
use device_broker.HttpService.{same_string}
use device_broker.Samba.{
  Share, SambaTransfer, dir_kind, reg_kind, slashes, after_last, remote_mkdir_recursive,
  write_remote, download_one,
}
use device_broker.Samba.Paths.{no_paths, get_file_paths_recursive}
use device_broker.Samba.Walk.{with_slash}

-- The setters of the addresses; `is_ip` is isIPBasedSMBPath, a regular expression of the C++ library.
unfoldable pub set_download_url :
    (is_ip : String → Bool) → String → SambaTransfer → ℤ × SambaTransfer
set_download_url is_ip url c =
    if is_ip url then (pos 0, record c { download_url = url }) else (neg 1, c)

unfoldable pub set_upload_url : (is_ip : String → Bool) → String → SambaTransfer → ℤ × SambaTransfer
set_upload_url is_ip url c =
    if is_ip url then (pos 0, record c { upload_url = url }) else (neg 1, c)

unfoldable pub set_file_download_path : String → SambaTransfer → SambaTransfer
set_file_download_path path c = record c { file_download_path = path ++ "/" }

-- One more than the position of the fourth `/`.
abbrev pub fourth : List ℕ → Option ℕ
fourth (a ∷ b ∷ c ∷ d ∷ ps) = some (d + 1)
fourth ps = none

module _ {S : Type 0} (share : Share S) where
  -- The folders of the address that follow its fourth `/`.
  unfoldable pub make_upload_folders : String → S → S
  unfolding slashes remote_mkdir_recursive
  make_upload_folders url s = elim (fourth (slashes 0 url)) [
    | none ↦ s
    | some index ↦ remote_mkdir_recursive share url index s
  ]

  -- Puts one file on the share, with the codes for a file that cannot be opened on the share or here.
  unfoldable pub put_file : (no_remote no_local : ℤ) → (path url : String) → S → ℤ × S
  unfolding write_remote
  put_file no_remote no_local path url s =
      let (made, t) = share.smb_create url s in
      if not (share.local_open path s)
      then (no_local, s)
      else if not made
      then (no_remote, t)
      else (pos 0, write_remote share url (share.local_reads 1024 path t) t)

  -- The first of its codes is positive.
  unfoldable pub upload_one : SambaTransfer → S → ℤ × SambaTransfer × S
  unfolding with_slash make_upload_folders after_last put_file
  upload_one c s =
      let url = with_slash c.upload_url in
      let d = record c { upload_url = url } in
      let t = make_upload_folders url s in
      if same_string c.upload_url "" then (pos 1, c, s) else elim (share.smb_stat url t) [
        | none ↦ (neg 2, d, t)
        | some remote ↦
            if not (dir_kind remote)
            then (neg 3, d, t)
            else if same_string c.file_upload_path ""
            then (neg 4, d, t)
            else elim (share.local_stat c.file_upload_path t) [
              | none ↦ (neg 5, d, t)
              | some local ↦
                  if not (reg_kind local)
                  then (neg 6, d, t)
                  else elim (after_last c.file_upload_path) [
                    | none ↦ (neg 7, d, t)
                    | some name ↦
                        (let (ret, u) =
                            put_file (neg 8) (neg 9) c.file_upload_path (url ++ name) t in
                          (ret, d, u))
                  ]
            ]
      ]

  -- The loop of UploadAll over the files that it has listed. The folders of a file are not made.
  unfoldable pub upload_files : (path upload_url : String) → List (String × ℕ) → S → ℤ × S
  unfolding put_file
  upload_files path upload_url [] s = (pos 0, s)
  upload_files path upload_url ((name, size) ∷ files) s =
      let (ret, t) =
        put_file (neg 7) (neg 8) name (upload_url ++ slice name (len path) (len name)) s in
      let rest = upload_files path upload_url files t in
      elim ret [ pos n ↦ rest | negsuc n ↦ (negsuc n, t) ]

  -- What the walk answers is not looked at; where it does not survive there is no answer.
  unfoldable pub upload_all : SambaTransfer → S → Option (ℤ × SambaTransfer × S)
  unfolding with_slash make_upload_folders upload_files get_file_paths_recursive
  upload_all c s =
      let url = with_slash c.upload_url in
      let d = record c { upload_url = url } in
      let t = make_upload_folders url s in
      if same_string c.upload_url "" then some (neg 1, c, s) else elim (share.smb_stat url t) [
        | none ↦ some (neg 2, d, t)
        | some remote ↦
            if not (dir_kind remote)
            then some (neg 3, d, t)
            else if same_string c.file_upload_path ""
            then some (neg 4, d, t)
            else elim (share.local_stat c.file_upload_path t) [
              | none ↦ some (neg 5, d, t)
              | some local ↦
                  if not (dir_kind local)
                  then some (neg 6, d, t)
                  else (let (opened, entries) = share.local_tree c.file_upload_path t in
                      elim (get_file_paths_recursive c.file_upload_path opened entries no_paths) [
                        | none ↦ none
                        | some (ret, found) ↦
                            (let (code, u) =
                                upload_files c.file_upload_path url found.all_file_paths t in
                              some (code, d, u))
                      ])
            ]
      ]

  -- SafeSambaTrasfer, which goes on where a setter has refused its address.
  unfoldable pub safe_download_one :
      (is_ip : String → Bool)
      → (url path : String) → SambaTransfer
      → S
      → SambaTransfer × Option (ℤ × S)
  unfolding set_download_url set_file_download_path download_one
  safe_download_one is_ip url path c s =
      let d = set_file_download_path path (set_download_url is_ip url c).1 in
      (d, download_one share d s)

  unfoldable pub safe_upload_all :
      (is_ip : String → Bool)
      → (url path : String) → SambaTransfer
      → S
      → Option (ℤ × SambaTransfer × S)
  unfolding set_upload_url upload_all
  safe_upload_all is_ip url path c s =
      upload_all (record (set_upload_url is_ip url c).1 { file_upload_path = path }) s
