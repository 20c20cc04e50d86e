-- ===== src/FileSystem/Sizes.antt =====
-- The size of a folder, by `obtain_file_space` of
-- src/target/o_pocket/filesystem/filesystem_impl.inl: an independent count of what the walk meets.
use device_broker.Prelude.{
  ℕ, ◌+◌, ◌%◌, ◌^◌, ◌<◌, String, Bool, true, false, some, List, [], ◌∷◌, ◌≡◌, refl, inl, inr, pos,
  length, if◌then◌else◌, arith, Bool-cases,
}
use device_broker.FileSystem.{Disk, Space, count_entries, obtain_file_space}
use device_broker.FileSystem.Throwing.{done, ask}

-- The sizes of the files among some entries, and how many there are.
abbrev pub total_size : (is_file : String → Bool) → (size : String → ℕ) → List String → ℕ
total_size is_file size [] = 0
total_size is_file size (p ∷ ps) =
    let rest = total_size is_file size ps in if is_file p then size p + rest else rest

abbrev pub total_files : (String → Bool) → List String → ℕ
total_files is_file [] = 0
total_files is_file (p ∷ ps) =
    let rest = total_files is_file ps in if is_file p then rest + 1 else rest

module _ {S : Type 0} (fs : Disk S) (s : S) (is_file : String → Bool) (size : String → ℕ)
    (regular : (p : String) → fs.is_regular_file p s ≡ some (is_file p))
    (sized : (p : String) → is_file p ≡ true → fs.file_size p s ≡ some (size p)) where
  abbrev Counted : Space → List String → Space → Type 0
  Counted n ps r =
      (r.size_byte ≡ (n.size_byte + total_size is_file size ps) % 2 ^ 64)
      × (r.file_num ≡ n.file_num + total_files is_file ps)
      × (r.folder_num + total_files is_file ps ≡ n.folder_num + length ps)

  count_entries-Counted :
      (ps : List String) (n : Space)
      → n.size_byte < 2 ^ 64
      → (r : Space) × (count_entries fs ps n s ≡ (done r, s)) × Counted n ps r
  unfolding count_entries
  count_entries-Counted [] n small = (n, refl, (omega arith, omega arith, omega arith))
  count_entries-Counted (p ∷ ps) n small = elim (Bool-cases (is_file p)) [
    | inl e ↦
        (let n' : Space = record n {
          size_byte = (n.size_byte + size p) % 2 ^ 64;
          file_num = n.file_num + 1;
        } in
          let (r, run, (bytes, files, folders)) = count_entries-Counted ps n' (omega arith) in
          (
            r,
            simp (ask, regular p, e, sized p e, run),
            (ground (arith, e, bytes), ground (arith, e, files), ground (arith, e, folders)),
          ))
    | inr e ↦
        (let n' : Space = record n { folder_num = n.folder_num + 1 } in
          let (r, run, (bytes, files, folders)) = count_entries-Counted ps n' small in
          (
            r,
            simp (ask, regular p, e, run),
            (ground (arith, e, bytes), ground (arith, e, files), ground (arith, e, folders)),
          ))
  ]

  -- Where the questions of the walk are answered, a folder's size is the sum of the sizes of the
  -- files below it, modulo 2 ^ 64, and every entry counts once, as a file or as a folder, the folder
  -- itself among them.
  pub obtain_file_space-Counted :
      (p : String) (ps : List String)
      → fs.exists p s ≡ some true
      → fs.is_regular_file p s ≡ some false
      → fs.is_directory p s ≡ some true
      → fs.entries p s ≡ some ps
      → (r : Space) × (obtain_file_space fs p s ≡ (done (pos 0, some r), s))
        × (r.size_byte ≡ total_size is_file size ps % 2 ^ 64)
        × (r.file_num ≡ total_files is_file ps)
        × (r.folder_num + r.file_num ≡ length ps + 1)
  unfolding obtain_file_space
  obtain_file_space-Counted p ps found file folder walk =
      let (r, run, (bytes, files, folders)) =
        count_entries-Counted ps (record { size_byte = 0; folder_num = 1; file_num = 0 }) ltz in
      (
        r,
        simp (ask, found, file, folder, walk, run),
        ground (arith, bytes),
        ground (arith, files),
        ground (arith, files, folders),
      )
    where
      ltz : 0 < 2 ^ 64
      ltz = omega arith
