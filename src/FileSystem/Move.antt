-- ===== src/FileSystem/Move.antt =====
-- `move_file` of src/target/o_pocket/filesystem/filesystem_impl.inl: one file, or a folder, which is
-- renamed or copied and may lie in its target.
use Prim.Native.String.{find, len}
use device_broker.Prelude.{
  ℕ, zero, suc, String, Bool, false, not, ◌&&◌, ℤ, pos, neg, leb, ◌==◌, if◌then◌else◌,
}
use device_broker.FileSystem.{Disk, normal_path}
use device_broker.FileSystem.Throwing.{
  Action, unending, pure, ◌>>=◌, ◌>>◌, and_then, ask, attempt, catching,
}

-- `s.find(t) != npos`, and `s.find(t) == 0`.
abbrev pub occurs : String → String → Bool
occurs t s = leb (find s t) (len s)

abbrev pub starts : String → String → Bool
starts t s = find s t == 0

module _ {S : Type 0} (fs : Disk S) where
  unfoldable pub path_contain : String → String → Action S Bool
  path_contain path1 path2 = do
    cpath1 ← ask (fs.canonical path1)
    cpath2 ← ask (fs.canonical path2)
    pure (starts cpath1 cpath2)

  -- `while (fs::exists(tmp_path)) tmp_path = tmp_path / "tmp_for_name"`, for as many rounds as the fuel.
  unfoldable pub free_name : ℕ → String → Action S String
  free_name zero tmp_path s = (unending, s)
  free_name (suc fuel) tmp_path s =
      and_then (ask (fs.exists tmp_path) s)
        λ found. if found then free_name fuel (fs.join tmp_path "tmp_for_name") else pure tmp_path

  -- The two ways of `move_file`, for a file and for a folder.
  unfoldable pub move_regular :
      (to_rename_or_copy to_override : Bool) → (src dst_folder : String) → Action S ℤ
  move_regular to_rename_or_copy to_override src dst_folder = do
    let dst = fs.join dst_folder (fs.filename src)
    found ← ask (fs.exists dst)
    if found && not to_override then pure (pos 0) else do
      attempt (fs.remove dst)
      if to_rename_or_copy
          then attempt (fs.rename src dst)
          else attempt (fs.copy_file false src dst)
      pure (pos 0)

  -- The source is renamed out of the way where the text of its path has the target's in it.
  unfoldable pub rename_folder : ℕ → (src dst : String) → Action S ℤ
  unfolding path_contain free_name
  rename_folder fuel src dst = do
    inside ← path_contain src dst
    if inside then pure (neg 2) else do
      src' ← if not (occurs dst src) then pure src else do
        tmp ← free_name fuel (← ask (fs.absolute (fs.parent_path dst)))
        attempt (fs.create_directories tmp)
        attempt (fs.remove_all tmp)
        attempt (fs.rename src tmp)
        pure tmp
      attempt (fs.remove_all dst)
      attempt (fs.rename src' dst)
      pure (pos 0)

  unfoldable pub move_folder :
      ℕ
      → (to_rename_or_copy to_override to_contain_src_folder : Bool) → (src dst_folder : String)
      → Action S ℤ
  unfolding normal_path rename_folder
  move_folder fuel to_rename_or_copy to_override to_contain_src_folder src dst_folder = do
    let dst' = if to_contain_src_folder then fs.join dst_folder (fs.filename src) else dst_folder
    attempt (fs.create_directories dst')
    dst ← normal_path fs dst'
    if to_rename_or_copy
        then rename_folder fuel src dst
        else do attempt (fs.copy to_override src dst); attempt (fs.remove_all src); pure (pos 0)

  unfoldable pub move_file :
      ℕ
      → (in_src_file dst_folder : String)
      → (to_rename_or_copy to_override to_contain_src_folder : Bool) → Action S ℤ
  unfolding normal_path move_regular move_folder
  move_file fuel in_src_file dst_folder to_rename_or_copy to_override to_contain_src_folder =
      catching do
        found ← ask (fs.exists in_src_file)
        if not found then pure (neg 1) else do
          src ← normal_path fs (← ask (fs.absolute in_src_file))
          file ← ask (fs.is_regular_file src)
          if file then move_regular to_rename_or_copy to_override src dst_folder else do
            folder ← ask (fs.is_directory src)
            (if folder
                then move_folder fuel to_rename_or_copy to_override to_contain_src_folder src
                    dst_folder
                else pure (neg 1))
