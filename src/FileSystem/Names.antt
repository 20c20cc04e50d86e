-- ===== src/FileSystem/Names.antt =====
-- The search for a free name in `move_file` of src/target/o_pocket/filesystem/filesystem_impl.inl ends.
use device_broker.Prelude.{ℕ, zero, suc, ◌<◌, ◌≡◌, String, true, false, some, arith}
use device_broker.FileSystem.{Disk}
use device_broker.FileSystem.Throwing.{done, ask, and_then}
use device_broker.FileSystem.Move.{free_name}

module _ {S : Type 0} (fs : Disk S) where
  -- The n-th name that is tried.
  abbrev tmp_name : ℕ → String → String
  tmp_name zero tmp_path = tmp_path
  tmp_name (suc n) tmp_path = tmp_name n (fs.join tmp_path "tmp_for_name")

  -- The search ends with the first name that is not taken, with one round more than there are taken
  -- ones before it.
  free_name-ends :
      (n : ℕ) (tmp_path : String) (s : S)
      → ((i : ℕ) → i < n → fs.exists (tmp_name i tmp_path) s ≡ some true)
      → fs.exists (tmp_name n tmp_path) s ≡ some false
      → free_name fs (suc n) tmp_path s ≡ (done (tmp_name n tmp_path), s)
  unfolding free_name
  free_name-ends zero tmp_path s taken free = simp (ask, and_then, free)
  free_name-ends (suc n) tmp_path s taken free = simp (
    ask,
    and_then,
    taken 0 (omega arith),
    free_name-ends n (fs.join tmp_path "tmp_for_name") s (λ i h. taken (suc i) (omega (arith, h)))
        free,
  )
