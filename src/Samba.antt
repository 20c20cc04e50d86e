-- ===== src/Samba.antt =====
-- src/target/o_pocket/io/samba_transfer.{h,cpp}: files are fetched from a share and put on one. What
-- libsmbclient and the operating system answer and do are the fields of a `Share`; a read of a
-- file, and a write, is one of them.
pub mod Walk
pub mod Paths
pub mod Upload
mod Listed
mod Disk
mod Fetched
mod Folders
mod Tests
use Prim.Native.Char.{code}
use Prim.Native.String.{◌++◌, slice, len}
use device_broker.Prelude.{
  ℕ, suc, ◌+◌, ◌*◌, ◌-◌, String, Bool, true, false, not, ◌||◌, ◌&&◌, Option, none, some, List, [],
  ◌∷◌, ℤ, pos, neg, nonzero, ltb, leb, ◌==◌, if◌then◌else◌,
}
use device_broker.HttpService.{same_string}
use device_broker.Samba.Paths.{Entries}
use device_broker.Samba.Walk.{Nodes, Found, nothing_found, with_slash, get_file_urls_recursive}

pub data Kind : Type 0 where
  is_dir is_reg is_special : Kind

abbrev pub dir_kind : Kind → Bool
dir_kind is_dir = true
dir_kind is_reg = false
dir_kind is_special = false

abbrev pub reg_kind : Kind → Bool
reg_kind is_dir = false
reg_kind is_reg = true
reg_kind is_special = false

pub record Share (S : Type 0) : Type 0 where
  pub smb_stat : String → S → Option Kind
  pub smb_tree : String → S → Bool × Nodes
  pub smb_mkdir : String → S → S
  pub smb_open : String → S → Bool
  pub smb_create : String → S → Bool × S
  pub local_stat : String → S → Option Kind
  pub local_tree : String → S → Bool × Entries
  pub local_mkdir : String → S → S
  pub local_open : String → S → Bool
  pub local_create : String → S → Bool × S
  -- What the reads of a file with a buffer of some bytes return, up to the first that returns nothing
  -- or fails.
  pub smb_reads : ℕ → String → S → List (List ℕ)
  pub smb_write : String → List ℕ → S → S
  pub local_reads : ℕ → String → S → List (List ℕ)
  pub local_write : String → List ℕ → S → S

pub record SambaTransfer : Type 0 where
  pub download_url : String
  pub upload_url : String
  pub file_download_path : String
  pub file_upload_path : String
  pub file_suffixes : List String

-- The positions of the `/` of a text, of which the first character stands at `at`.
unfoldable pub slashes : ℕ → String → List ℕ
slashes at String.[] = []
slashes at (String.◌∷◌ c s) =
    let later = slashes (at + len (String.◌∷◌ c String.[])) s in
    if code c == b'/' then at ∷ later else later

-- remoteMkdirRecursive: which of the positions end a folder that is made, from `index` on. `size` is the
-- length of the path, which is not empty.
unfoldable pub remote_ends : (size index : ℕ) → List ℕ → List ℕ
remote_ends size index [] = []
remote_ends size index (p ∷ ps) =
    let skipped = remote_ends size index ps in
    let made = remote_ends size (p + 1) ps in
    if leb (size - 1) index then [] else if ltb p index then skipped else p ∷ made

-- locateMkdirRecursive: the same, with another end.
unfoldable pub local_ends : (size index : ℕ) → List ℕ → List ℕ
local_ends size index [] = []
local_ends size index (p ∷ ps) =
    let skipped = local_ends size index ps in
    let made = local_ends size (p + 1) ps in
    if ltb size index then [] else if ltb p index then skipped else p ∷ made

-- What follows the last `/`, `none` where there is none.
unfoldable pub after_last : String → Option String
after_last String.[] = none
after_last (String.◌∷◌ c s) =
    let later = after_last s in
    elim later [ some t ↦ some t | none ↦ if code c == b'/' then some s else none ]

abbrev pub is_empty : List String → Bool
is_empty [] = true
is_empty (x ∷ xs) = false

module _ {S : Type 0} (share : Share S) where
  unfoldable pub make_remote : String → List ℕ → S → S
  make_remote path [] s = s
  make_remote path (p ∷ ps) s = make_remote path ps (share.smb_mkdir (slice path 0 p) s)

  unfoldable pub make_local : String → List ℕ → S → S
  make_local path [] s = s
  make_local path (p ∷ ps) s = make_local path ps (elim (share.local_stat (slice path 0 p) s) [
    | none ↦ share.local_mkdir (slice path 0 p) s
    | some kind ↦ s
  ])

  unfoldable pub remote_mkdir_recursive : String → ℕ → S → S
  unfolding slashes remote_ends make_remote
  remote_mkdir_recursive path index s =
      make_remote path (remote_ends (len path) index (slashes 0 path)) s

  unfoldable pub locate_mkdir_recursive : String → ℕ → S → S
  unfolding slashes local_ends make_local
  locate_mkdir_recursive path index s =
      make_local path (local_ends (len path) index (slashes 0 path)) s

  -- The loops that write what is read.
  unfoldable pub write_local : String → List (List ℕ) → S → S
  write_local target [] s = s
  write_local target (buffer ∷ buffers) s =
      write_local target buffers (share.local_write target buffer s)

  unfoldable pub write_remote : String → List (List ℕ) → S → S
  write_remote target [] s = s
  write_remote target (buffer ∷ buffers) s =
      write_remote target buffers (share.smb_write target buffer s)

  -- The loop of DownloadAll over the files that it has listed.
  unfoldable pub download_files : (download_url path : String) → List (String × ℕ) → S → ℤ × S
  unfolding locate_mkdir_recursive write_local
  download_files download_url path [] s = (pos 0, s)
  download_files download_url path ((url, size) ∷ files) s =
      let target = path ++ slice url (len download_url) (len url) in
      let t = locate_mkdir_recursive target 0 s in
      let (made, u) = share.local_create target t in
      let v = write_local target (share.smb_reads 1024 url u) u in
      let rest = download_files download_url path files v in
      if not (share.smb_open url t) then (neg 7, t) else if not made then (neg 6, u) else rest

  -- What the walk answers is not looked at: what it has listed so far is downloaded.
  unfoldable pub download_all : SambaTransfer → S → ℤ × S
  unfolding get_file_urls_recursive download_files
  download_all c s =
      let (opened, nodes) = share.smb_tree c.download_url s in
      let (ret, found) =
        get_file_urls_recursive c.file_suffixes c.download_url opened nodes nothing_found in
      let files =
        download_files c.download_url c.file_download_path found.specific_suffix_file_urls s in
      if same_string c.download_url "" then (neg 1, s) else elim (share.smb_stat c.download_url s) [
        | none ↦ (neg 2, s)
        | some kind ↦
            if not (dir_kind kind)
            then (neg 3, s)
            else if same_string c.file_download_path ""
            then (neg 4, s)
            else if is_empty c.file_suffixes
            then (neg 5, s)
            else files
      ]

  -- `none` where the target cannot be created: the code writes to it all the same, and does not survive.
  unfoldable pub download_one : SambaTransfer → S → Option (ℤ × S)
  unfolding locate_mkdir_recursive after_last write_local
  download_one c s =
      if same_string c.file_download_path ""
      then some (neg 1, s)
      else if same_string c.download_url ""
      then some (neg 2, s)
      else elim (share.smb_stat c.download_url s) [
        | none ↦ some (neg 3, s)
        | some kind ↦
            if not (reg_kind kind)
            then some (neg 4, s)
            else if not (share.smb_open c.download_url s)
            then some (neg 6, s)
            else fetch (after_last c.download_url)
      ]
    where
      fetch : Option String → Option (ℤ × S)
      fetch none = some (neg 5, s)
      fetch (some name) =
          let target = c.file_download_path ++ name in
          let (made, t) = share.local_create target (locate_mkdir_recursive target 0 s) in
          let buffers = share.smb_reads (1024 * 1024 * 10) c.download_url t in
          if made then some (pos 0, write_local target buffers t) else none
