-- ===== src/Samba/Paths.antt =====
-- The walk over a folder of the disk of src/target/o_pocket/io/samba_transfer.cpp,
-- GetFilePathsRecursive. What a folder holds when it is read is a tree.
use Prim.Native.String.{◌++◌}
use device_broker.Prelude.{
  ℕ, ◌+◌, ◌%◌, ◌^◌, String, Bool, Option, none, some, List, [], ℤ, pos, neg, ltb_ℤ, if◌then◌else◌,
}
use device_broker.Samba.Walk.{with_slash, is_dots, snoc}

-- What `stat` tells of a name: a file with the 32 bits of its size, a folder, with whether `opendir`
-- opens it, or nothing.
mutual
  pub data Entry : Type 0 where
    file : String → ℕ → Entry
    folder : String → Bool → Entries → Entry
    unreadable : String → Entry

  pub data Entries : Type 0 where
    nil : Entries
    cons : Entry → Entries → Entries

-- `allFilePaths` and `allUploadFileSize`
pub record Paths : Type 0 where
  pub all_file_paths : List (String × ℕ)
  pub all_upload_file_size : ℕ

abbrev pub no_paths : Paths
no_paths = record { all_file_paths = []; all_upload_file_size = 0 }

-- `none` where a folder cannot be opened: the code compares the null handle with 0, reads from it, and
-- does not survive.
unfoldable mutual
  unfolding with_slash

  pub walk_entry : String → Entry → Paths → Option (ℤ × Paths)
  walk_entry url (file name size) f =
      if is_dots name
      then some (pos 0, f)
      else some (
        pos 0,
        record f {
          all_file_paths = snoc f.all_file_paths (url ++ name, size);
          all_upload_file_size = (f.all_upload_file_size + size) % 2 ^ 32;
        },
      )
  walk_entry url (folder name opened entries) f =
      let below = walk_entries (with_slash (url ++ name ++ "/")) entries f in
      if is_dots name
      then some (pos 0, f)
      else if opened
      then elim below [
        | none ↦ none
        | some (ret, g) ↦ if ltb_ℤ ret (pos 0) then some (neg 1, g) else some (pos 0, g)
      ]
      else none
  walk_entry url (unreadable name) f = if is_dots name then some (pos 0, f) else some (neg 1, f)

  pub walk_entries : String → Entries → Paths → Option (ℤ × Paths)
  walk_entries url nil f = some (pos 0, f)
  walk_entries url (cons entry entries) f = elim (walk_entry url entry f) [
    | none ↦ none
    | some (ret, g) ↦
        (let rest = walk_entries url entries g in
          if ltb_ℤ ret (pos 0) then some (neg 1, g) else rest)
  ]

unfoldable pub get_file_paths_recursive : String → Bool → Entries → Paths → Option (ℤ × Paths)
unfolding walk_entries with_slash
get_file_paths_recursive path opened entries f =
    if opened then walk_entries (with_slash path) entries f else none
