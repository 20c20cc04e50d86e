-- ===== src/FileSystem.antt =====
-- src/target/o_pocket/filesystem/filesystem_impl.inl: the file operations, over what <filesystem>
-- answers and does. `<filesystem>` is a library outside the repository's own code: a `Disk` has a
-- field for each of its functions that is called: a question is `none` where it throws, a change
-- `false`. A path is its text.
pub mod Kept
pub mod Move
mod Names
pub mod Shelf
mod Sizes
pub mod Steps
mod Tests
pub mod Throwing
use device_broker.Prelude.{
  ℕ, zero, suc, ◌+◌, ◌%◌, ◌^◌, String, Bool, true, false, not, ◌&&◌, Option, none, some, List, [],
  ◌∷◌, ℤ, pos, neg, ltb, leb, ◌==◌, if◌then◌else◌,
}
use device_broker.FileSystem.Throwing.{
  Action, Outcome, done, raised, unending, pure, and_then, ◌>>=◌, ◌>>◌, ask, attempt, catching,
}

pub record Disk (S : Type 0) : Type 0 where
  pub exists : String → S → Option Bool
  pub is_regular_file : String → S → Option Bool
  pub is_directory : String → S → Option Bool
  pub file_size : String → S → Option ℕ
  pub available : String → S → Option ℕ
  pub entries : String → S → Option (List String)
  pub absolute : String → S → Option String
  pub canonical : String → S → Option String
  pub relative : String → String → S → Option String
  pub join : String → String → String
  pub filename : String → String
  pub parent_path : String → String
  pub extension : String → String
  pub lexically_normal : String → String
  pub remove : String → S → Bool × S
  pub remove_all : String → S → Bool × S
  pub create_directories : String → S → Bool × S
  pub rename : String → String → S → Bool × S
  pub copy_file : Bool → String → String → S → Bool × S
  pub copy : Bool → String → String → S → Bool × S

-- What the size of a file or folder is made of.
pub record Space : Type 0 where
  pub size_byte : ℕ
  pub folder_num : ℕ
  pub file_num : ℕ

abbrev pub no_space : Space
no_space = record { size_byte = 0; folder_num = 0; file_num = 0 }

module _ {S : Type 0} (fs : Disk S) where
  -- `throw std::runtime_error(msg)`
  abbrev throw : {A : Type 0} → Action S A
  throw s = (raised, s)

  -- A path that names nothing, or no file and no folder, throws.
  unfoldable pub normal_path : String → Action S String
  normal_path input_file = do
    found ← ask (fs.exists input_file)
    folder ← if found then ask (fs.is_directory input_file) else throw
    file ← if folder then pure true else ask (fs.is_regular_file input_file)
    (if folder
        then pure (fs.parent_path (fs.lexically_normal (fs.join input_file "file.txt")))
        else if file
        then pure (fs.lexically_normal input_file)
        else throw)

  unfoldable pub copy_file :
      (src_file dst_folder : String) → (to_override to_contain_src_folder : Bool) → Action S ℤ
  copy_file src_file dst_folder to_override to_contain_src_folder = catching do
    found ← ask (fs.exists src_file)
    if not found then pure (neg 1) else do
      there ← ask (fs.exists dst_folder)
      if there then pure tt else attempt (fs.create_directories dst_folder)
      file ← ask (fs.is_regular_file src_file)
      let below = fs.join dst_folder (fs.filename src_file)
      if file
          then (do
            taken ← if to_override then pure false else ask (fs.exists below)
            if taken
                then pure (pos 0)
                else do attempt (fs.copy_file true src_file below); pure (pos 0))
          else do
            folder ← ask (fs.is_directory src_file)
            if not folder then pure (pos 0) else do
              if to_contain_src_folder then attempt (fs.create_directories below) else pure tt
              attempt (
                  fs.copy to_override src_file
                    (if to_contain_src_folder then below else dst_folder))
              pure (pos 0)

  unfoldable pub clean_folder : String → Action S ℤ
  clean_folder src_folder = catching do
    found ← ask (fs.exists src_folder)
    if found then attempt (fs.remove_all src_folder) else pure tt
    attempt (fs.create_directories src_folder)
    pure (pos 0)

  unfoldable pub delete_file : String → Bool → Action S ℤ
  delete_file src_file to_contain_src_folder = catching do
    found ← ask (fs.exists src_file)
    if not found then pure (neg 1) else do
      file ← ask (fs.is_regular_file src_file)
      if file then (do attempt (fs.remove src_file); pure (pos 0)) else do
        folder ← ask (fs.is_directory src_file)
        if not folder then pure (pos 0) else do
          attempt (fs.remove_all src_file)
          if to_contain_src_folder then attempt (fs.create_directories src_file) else pure tt
          pure (pos 0)

  -- One more entry of the walk: a file counts with its size, anything else as a folder.
  unfoldable pub count_entries : List String → Space → Action S Space
  count_entries [] n = pure n
  count_entries (entry ∷ entries) n = do
    file ← ask (fs.is_regular_file entry)
    size ← if file then ask (fs.file_size entry) else pure 0
    count_entries entries (
        if file
        then record n { size_byte = (n.size_byte + size) % 2 ^ 64; file_num = n.file_num + 1 }
        else record n { folder_num = n.folder_num + 1 })

  -- The answer and the three outputs, which an exception leaves as they were then: `none` here.
  unfoldable pub obtain_file_space : String → Action S (ℤ × Option Space)
  unfolding count_entries
  obtain_file_space src_file s = handled (counted s)
    where
      counted : Action S (ℤ × Option Space)
      counted = do
        found ← ask (fs.exists src_file)
        if not found then pure (neg 1, some no_space) else do
          file ← ask (fs.is_regular_file src_file)
          size ← if file then ask (fs.file_size src_file) else pure 0
          if file
              then pure (pos 0, some (record no_space { size_byte = size; file_num = 1 }))
              else do
                folder ← ask (fs.is_directory src_file)
                if not folder then pure (pos 0, some no_space) else do
                  n ←
                      count_entries (← ask (fs.entries src_file))
                        (record no_space { folder_num = 1 })
                  pure (pos 0, some n)

      handled : Outcome (ℤ × Option Space) × S → Outcome (ℤ × Option Space) × S
      handled (done r, t) = (done r, t)
      handled (raised, t) = (done (neg 10, none), t)
      handled (unending, t) = (unending, t)

  -- The answer, and the output where it is written.
  unfoldable pub obtain_folder_remain_space : String → S → ℤ × Option ℕ
  obtain_folder_remain_space src_folder s = elim (fs.is_directory src_folder s) [
    | none ↦ (neg 10, none)
    | some false ↦ (neg 1, none)
    | some true ↦ (elim (fs.available src_folder s) [
      | none ↦ (neg 10, none)
      | some n ↦ (pos 0, some n)
    ])
  ]
