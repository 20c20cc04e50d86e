-- ===== src/Samba/Fetched.antt =====
-- What a download of a folder by src/target/o_pocket/io/samba_transfer.cpp leaves on the disk.
use device_broker.Prelude.{
  ℕ, ◌≡◌, refl, ap, sym, ◌∙◌, String, Bool, true, false, not, Option, none, some, List, [], ◌∷◌, ℤ,
  pos, neg, All, if◌then◌else◌, arith,
}
use device_broker.HttpService.{same_string}
use device_broker.Samba.{
  Share, SambaTransfer, Kind, is_dir, is_reg, is_special, dir_kind, is_empty,
  locate_mkdir_recursive, write_local, download_files, download_all,
}
use device_broker.Samba.Disk.{
  Lawful, target_of, Apart, Fetched, fetched, fetched-remote, fetched-local, fetched-target,
}
use device_broker.Samba.Walk.{Nodes, with_slash, get_file_urls_recursive, nothing_found}
use device_broker.Samba.Listed.{
  listed_nodes, open_nodes, wanted, floats, get_file_urls_recursive-lists,
}

module _ {S : Type 0} {share : Share S} {remote local : String → S → Option (List ℕ)}
    (lawful : Lawful share remote local) where
  tests-pass :
      (opened made : Bool) (t u v : S) (rest : ℤ × S)
      → Path
          (ℤ × S)
          (if not opened then (neg 7, t) else if not made then (neg 6, u) else rest)
          (pos 0, v)
      → (opened ≡ true) × (made ≡ true) × Path (ℤ × S) rest (pos 0, v)
  tests-pass false made t u v rest e = absurd (ground (arith, e))
  tests-pass true false t u v rest e = absurd (ground (arith, e))
  tests-pass true true t u v rest e = (refl, refl, e)

  -- A download of some files that answers 0 has opened the first and created its target, and gone on.
  goes_on :
      (d path url : String) (size : ℕ) (files : List (String × ℕ)) (s v : S)
      → Path (ℤ × S) (download_files share d path ((url, size) ∷ files) s) (pos 0, v)
      → let target = target_of d path (url, size) in
        let t = locate_mkdir_recursive share target 0 s in
        (share.smb_open url t ≡ true)
        × ((share.local_create target t).0 ≡ true)
        × Path (ℤ × S) (download_files share d path files (fetched share url target s)) (pos 0, v)
  unfolding download_files fetched
  goes_on d path url size files s v e =
      let target : String = target_of d path (url, size) in
      let t : S = locate_mkdir_recursive share target 0 s in
      let made : Bool × S = share.local_create target t in
      tests-pass (share.smb_open url t) made.0 t made.1 v
        (download_files share d path files
          (write_local share target (share.smb_reads 1024 url made.1) made.1))
        e

  files-remote :
      (d path q : String) (files : List (String × ℕ)) (s v : S)
      → Path (ℤ × S) (download_files share d path files s) (pos 0, v)
      → remote q v ≡ remote q s
  unfolding download_files
  files-remote d path q [] s v e = ap (λ r. remote q r.1) (sym e)
  files-remote d path q ((url, size) ∷ files) s v e =
      let target : String = target_of d path (url, size) in
      files-remote d path q files (fetched share url target s) v
        (goes_on d path url size files s v e).2
      ∙ fetched-remote lawful url target q s

  files-local :
      (d path q : String) (files : List (String × ℕ)) (s v : S)
      → Path (ℤ × S) (download_files share d path files s) (pos 0, v)
      → All (λ g. ¬ (q ≡ target_of d path g)) files
      → local q v ≡ local q s
  unfolding download_files
  files-local d path q [] s v e h = ap (λ r. local q r.1) (sym e)
  files-local d path q ((url, size) ∷ files) s v e h =
      let target : String = target_of d path (url, size) in
      files-local d path q files (fetched share url target s) v
        (goes_on d path url size files s v e).2 h.1
      ∙ fetched-local lawful url target q s h.0

  download_files-Fetched :
      (d path : String) (files : List (String × ℕ)) (s v : S)
      → Path (ℤ × S) (download_files share d path files s) (pos 0, v)
      → Apart d path files
      → Fetched remote local d path files v
  download_files-Fetched d path [] s v e h = tt
  download_files-Fetched d path ((url, size) ∷ files) s v e h =
      let target : String = target_of d path (url, size) in
      let w : S = fetched share url target s in
      let (opened, made, later) = goes_on d path url size files s v e in
      (
        files-local d path target files w v later h.0
            ∙ fetched-target lawful url target s opened made
            ∙ sym (fetched-remote lawful url target url s)
            ∙ sym (files-remote d path url files w v later),
        download_files-Fetched d path files w v later h.1,
      )

  checks-pass :
      (no_url no_path no_suffix : Bool) (kind : Option Kind) (s v : S) (rest : ℤ × S)
      → Path
          (ℤ × S)
          (if no_url then (neg 1, s) else elim kind [
            | none ↦ (neg 2, s)
            | some k ↦
                if not (dir_kind k)
                then (neg 3, s)
                else if no_path
                then (neg 4, s)
                else if no_suffix
                then (neg 5, s)
                else rest
          ])
          (pos 0, v)
      → Path (ℤ × S) rest (pos 0, v)
  checks-pass true b3 b4 k s v rest e = absurd (ground (arith, e))
  checks-pass false b3 b4 none s v rest e = absurd (ground (arith, e))
  checks-pass false b3 b4 (some is_reg) s v rest e = absurd (ground (arith, e))
  checks-pass false b3 b4 (some is_special) s v rest e = absurd (ground (arith, e))
  checks-pass false true b4 (some is_dir) s v rest e = absurd (ground (arith, e))
  checks-pass false false true (some is_dir) s v rest e = absurd (ground (arith, e))
  checks-pass false false false (some is_dir) s v rest e = e

  -- The loop of a download that answers 0 is reached, and has the list that the walk made.
  reaches_files :
      (c : SambaTransfer) (nodes : Nodes) (s v : S)
      → Path (Bool × Nodes) (share.smb_tree c.download_url s) (true, nodes)
      → open_nodes nodes ≡ true
      → Path (ℤ × S) (download_all share c s) (pos 0, v)
      → Path
          (ℤ × S)
          (download_files share c.download_url c.file_download_path
            (floats (wanted c.file_suffixes (listed_nodes (with_slash c.download_url) nodes)))
            s)
          (pos 0, v)
  unfolding download_all
  reaches_files c nodes s v t o e =
      let d : String = c.download_url in
      let listed : (Bool × Nodes) → List (String × ℕ) = λ tree.
        (let (ret, found) = get_file_urls_recursive c.file_suffixes d tree.0 tree.1 nothing_found in
          found.specific_suffix_file_urls) in
      let same =
        ap listed t
        ∙ ap (λ r. r.1.specific_suffix_file_urls)
            (get_file_urls_recursive-lists c.file_suffixes d nodes o) in
      ap (λ files. download_files share d c.file_download_path files s) (sym same)
      ∙ checks-pass (same_string d "") (same_string c.file_download_path "")
          (is_empty c.file_suffixes) (share.smb_stat d s) s v
          (download_files share d c.file_download_path (listed (share.smb_tree d s)) s) e

  -- A download of a folder that answers 0, where every folder that the walk meets can be opened and no
  -- two wanted files go to the same place, on a share where no read fails and a disk where no write
  -- fails: every wanted file of the tree is then on the disk, below the download's path, with the bytes
  -- that it holds on the share.
  pub download_all-Fetched :
      (c : SambaTransfer) (nodes : Nodes) (s v : S)
      → Path (Bool × Nodes) (share.smb_tree c.download_url s) (true, nodes)
      → open_nodes nodes ≡ true
      → let files =
          floats (wanted c.file_suffixes (listed_nodes (with_slash c.download_url) nodes)) in
        Apart c.download_url c.file_download_path files
        → Path (ℤ × S) (download_all share c s) (pos 0, v)
        → Fetched remote local c.download_url c.file_download_path files v
  download_all-Fetched c nodes s v t o a e =
      download_files-Fetched c.download_url c.file_download_path
        (floats (wanted c.file_suffixes (listed_nodes (with_slash c.download_url) nodes))) s v
        (reaches_files c nodes s v t o e) a

  -- Where every listed file can be opened and every target created, whatever was done before, the loop
  -- of a download answers 0.
  pub download_files_succeeds :
      ((url : String) (s : S) → share.smb_open url s ≡ true)
      → ((p : String) (s : S) → (share.local_create p s).0 ≡ true)
      → (d path : String) (files : List (String × ℕ)) (s : S)
      → (v : S) × Path (ℤ × S) (download_files share d path files s) (pos 0, v)
  unfolding download_files fetched
  download_files_succeeds opens creates d path [] s = (s, refl)
  download_files_succeeds opens creates d path ((url, size) ∷ files) s =
      let target : String = target_of d path (url, size) in
      let t : S = locate_mkdir_recursive share target 0 s in
      let (v, e) =
        download_files_succeeds opens creates d path files (fetched share url target s) in
      (v, rw (opens url t, creates target t) e)

  -- And so does the whole download, of a folder, with a path and a suffix.
  pub download_all_succeeds :
      ((url : String) (s : S) → share.smb_open url s ≡ true)
      → ((p : String) (s : S) → (share.local_create p s).0 ≡ true)
      → (c : SambaTransfer) (s : S) → same_string c.download_url "" ≡ false
      → share.smb_stat c.download_url s ≡ some is_dir
      → same_string c.file_download_path "" ≡ false
      → is_empty c.file_suffixes ≡ false
      → (v : S) × Path (ℤ × S) (download_all share c s) (pos 0, v)
  unfolding download_all
  download_all_succeeds opens creates c s h1 h2 h3 h4 =
      let d : String = c.download_url in
      let (opened, nodes) = share.smb_tree d s in
      let (ret, found) = get_file_urls_recursive c.file_suffixes d opened nodes nothing_found in
      let (v, e) =
        download_files_succeeds opens creates d c.file_download_path found.specific_suffix_file_urls
          s in
      (v, rw (h1, h2, h3, h4) e)
