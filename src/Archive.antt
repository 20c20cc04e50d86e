-- ===== src/Archive.antt =====
-- src/target/o_pocket/compress/miniz_impl.inl: archives are written and unpacked. miniz is a library
-- outside the repository: a `Zip` has a field for each of its functions that is called, over what is on
-- the disk and in the archive being written.
mod Contents
mod Unpacked
mod Tests
use device_broker.Prelude.{
  ℕ, zero, suc, ◌+◌, String, Bool, true, false, not, Option, none, some, List, [], ◌∷◌, ℤ, pos, neg,
  nonzero, ◌==◌, if◌then◌else◌,
}
use device_broker.FileSystem.{Disk, normal_path}
use device_broker.FileSystem.Move.{occurs, move_file}
use device_broker.FileSystem.Throwing.{Action, pure, ◌>>=◌, ◌>>◌, ask, attempt, catching}

pub record Zip (S : Type 0) : Type 0 where
  pub reader_init_file : String → S → Bool
  pub get_num_files : String → S → ℕ
  pub file_stat : String → ℕ → S → Option String
  pub is_file_a_directory : String → ℕ → S → Bool
  pub extract_to_file : String → ℕ → String → S → Bool × S
  pub locate_file : String → S → Bool
  pub add_file : Bool → String → String → S → Bool × S

module _ {S : Type 0} (fs : Disk S) (zip : Zip S) where
  -- A call whose `false` is an answer.
  abbrev answer_of : (S → Bool × S) → Action S Bool
  answer_of m s = let (b, t) = m s in pure b t

  -- One file under a name that must be new, with the code of a refusal by miniz.
  unfoldable pub append_file : ℕ → Bool → String → String → Action S ℤ
  append_file refused fast name file = do
    there ← ask (λ s. some (zip.locate_file name s))
    if there then pure (neg 2) else do
      added ← answer_of (zip.add_file fast name file)
      pure (if added then pos 0 else neg refused)

  unfoldable pub append_entries : Bool → String → List String → Action S ℤ
  unfolding append_file
  append_entries fast base [] = pure (pos 0)
  append_entries fast base (entry ∷ entries) = do
    name ← ask (fs.relative entry base)
    folder ← ask (fs.is_directory entry)
    ret ← if folder then pure (pos 0) else append_file 5 fast name entry
    if nonzero ret then pure ret else append_entries fast base entries

  -- The two appends after their paths are known: a file under its name, a folder by its entries.
  unfoldable pub append_path :
      Bool → String → (name_of : Action S String) → (base : String) → Action S ℤ
  unfolding append_file append_entries
  append_path fast input_file name_of base = do
    found ← ask (fs.exists input_file)
    if not found then pure (neg 1) else do
      file ← ask (fs.is_regular_file input_file)
      if file then (do append_file 3 fast (← name_of) input_file) else do
        folder ← ask (fs.is_directory input_file)
        if not folder
            then pure (neg 4)
            else do append_entries fast base (← ask (fs.entries input_file))

  unfoldable pub append_direct : String → Bool → Action S ℤ
  unfolding append_path
  append_direct input_file_or_dir fast = catching do
    input_file ← normal_path fs (← ask (fs.absolute input_file_or_dir))
    append_path fast input_file (pure (fs.filename input_file)) (fs.parent_path input_file)

  unfoldable pub append_relative : String → String → Bool → Action S ℤ
  unfolding append_path
  append_relative input_file_or_dir input_relative_root_path fast = catching do
    input ← ask (fs.absolute input_file_or_dir)
    root ← ask (fs.absolute input_relative_root_path)
    input_file ← normal_path fs input
    append_path fast input_file
        (if occurs root input_file
          then ask (fs.relative input_file root)
          else pure (fs.filename input_file))
        (if occurs root input_file then root else fs.parent_path input_file)

  -- One entry, and the root folder after it: the first entry gives it where it is a folder.
  unfoldable pub unpack_entry : String → String → ℕ → Option String → Action S (ℤ × Option String)
  unpack_entry file out idx root = do
    stat ← ask (λ s. some (zip.file_stat file idx s))
    elim stat [
      | none ↦ pure (neg 2, root)
      | some name ↦ (do
        folder ← ask (λ s. some (zip.is_file_a_directory file idx s))
        if folder
            then (do
              attempt (fs.create_directories (fs.join out name))
              pure (pos 0, if idx == 0 then some (fs.join out name) else root))
            else do
              attempt (fs.create_directories (fs.parent_path (fs.join out name)))
              written ← answer_of (zip.extract_to_file file idx (fs.join out name))
              pure (if written then pos 0 else neg 3, root))
    ]

  -- The entries from `idx` on, `left` of them.
  unfoldable pub unpack :
      String → String → (left idx : ℕ) → Option String → Action S (ℤ × Option String)
  unfolding unpack_entry
  unpack file out zero idx root = pure (pos 0, root)
  unpack file out (suc left) idx root = do
    (ret, root') ← unpack_entry file out idx root
    if nonzero ret then pure (ret, root') else unpack file out left (idx + 1) root'

  unfoldable pub strip_root : ℕ → Bool → String → Option String → Action S ℤ
  unfolding move_file
  strip_root fuel false out root = pure (pos 0)
  strip_root fuel true out none = pure (pos 0)
  strip_root fuel true out (some root) = do
    ret ← move_file fs fuel root out true true false
    pure (if nonzero ret then neg 7 else pos 0)

  unfoldable pub recursive_decompress : ℕ → String → String → Bool → Action S ℤ
  unfolding unpack strip_root
  recursive_decompress fuel file out is_strip_root_dir = catching do
    found ← ask (fs.exists file)
    if not found then pure (neg 1) else do
      attempt (fs.create_directories out)
      opened ← ask (λ s. some (zip.reader_init_file file s))
      if not opened then pure (neg 1) else do
        n ← ask (λ s. some (zip.get_num_files file s))
        (ret, root) ← unpack file out n 0 none
        if nonzero ret then pure ret else strip_root fuel is_strip_root_dir out root
