-- ===== src/Archive/Contents.antt =====
-- What an archive of src/target/o_pocket/compress/miniz_impl.inl holds, and when it is on the disk, where
-- miniz and <filesystem> write as they are documented to.
use device_broker.Prelude.{
  ℕ, ◌+◌, ◌≤◌, ◌<◌, ◌≡◌, ◌≢◌, String, Bool, true, false, Option, some, List,
}
use device_broker.FileSystem.{Disk}
use device_broker.Archive.{Zip}

-- The archive `file` has `count` entries, which do not change while it is unpacked; `content p s` is
-- what the file at the path `p` holds.
pub record Unpacks {S : Type 0} (fs : Disk S) (zip : Zip S) (file : String) : Type 0 where
  pub content : String → S → Option (List ℕ)
  pub count : ℕ
  pub name : ℕ → Option String
  pub folder : ℕ → Bool
  pub packed : ℕ → List ℕ
  pub counted : (s : S) → zip.get_num_files file s ≡ count
  pub named : (n : ℕ) (s : S) → zip.file_stat file n s ≡ name n
  pub is_folder : (n : ℕ) (s : S) → zip.is_file_a_directory file n s ≡ folder n
  pub extracts :
      (n : ℕ) (p : String) (s t : S)
      → zip.extract_to_file file n p s ≡ (true, t)
      → content p t ≡ some (packed n)
  pub extracts_only :
      (n : ℕ) (p q : String) (s t : S)
      → zip.extract_to_file file n p s ≡ (true, t)
      → p ≢ q
      → content q t ≡ content q s
  pub makes_folder :
      (p q : String) (s t : S) → fs.create_directories p s ≡ (true, t) → content q t ≡ content q s

module _ {S : Type 0} (fs : Disk S) (zip : Zip S) (file out : String)
    (u : Unpacks fs zip file) where
  -- The n-th entry is a file that goes to the path `p`.
  pub record GoesTo (n : ℕ) (p : String) : Type 0 where
    pub entry : String
    pub stat : u.name n ≡ some entry
    pub regular : u.folder n ≡ false
    pub path : fs.join out entry ≡ p

  -- The entries from `idx` on, `left` of them, are on the disk, but for a file that a later one has
  -- replaced, and no other file has changed.
  pub record Unpacked (left idx : ℕ) (s t : S) : Type 0 where
    pub written :
        (n : ℕ) (p : String)
        → idx ≤ n
        → n < idx + left
        → GoesTo n p
        → ((m : ℕ) → n < m → m < idx + left → GoesTo m p → ⊥)
        → u.content p t ≡ some (u.packed n)
    pub others :
        (q : String)
        → ((n : ℕ) → idx ≤ n → n < idx + left → GoesTo n q → ⊥)
        → u.content q t ≡ u.content q s
