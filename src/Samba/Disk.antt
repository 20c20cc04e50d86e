-- ===== src/Samba/Disk.antt =====
-- What the steps of a download by src/target/o_pocket/io/samba_transfer.cpp do to the files of the
-- share and of the disk.
use Prim.Native.String.{◌++◌, slice, len}
use device_broker.Prelude.{
  ℕ, ◌≡◌, refl, ◌∙◌, ap, sym, true, String, Option, none, some, List, [], ◌∷◌, All,
}
use device_broker.Samba.{
  Share, Kind, make_local, locate_mkdir_recursive, slashes, local_ends, write_local,
}
use device_broker.Samba.Listed.{append, append-empty, append_assoc}

-- What is read of a file, as one.
abbrev pub joined : List (List ℕ) → List ℕ
joined [] = []
joined (buffer ∷ buffers) = append buffer (joined buffers)

-- What the operations do to the files of the share and of the disk, each the bytes that it holds. A
-- file that can be opened on the share is there, and its reads return the whole of it, so none of
-- them fails; a file that is opened for writing is empty, and a write adds to its end; nothing else
-- is changed, by these or by making a folder.
pub record Lawful {S : Type 0} (share : Share S) (remote local : String → S → Option (List ℕ))
    : Type 0 where
  pub mkdir_remote : (p q : String) (s : S) → remote q (share.local_mkdir p s) ≡ remote q s
  pub mkdir_local : (p q : String) (s : S) → local q (share.local_mkdir p s) ≡ local q s
  pub open_remote :
      (p : String) (s : S) → share.smb_open p s ≡ true → (c : List ℕ) × (remote p s ≡ some c)
  pub reads_remote :
      (n : ℕ) (p : String) (s : S) (c : List ℕ)
      → remote p s ≡ some c
      → joined (share.smb_reads n p s) ≡ c
  pub create_remote : (p q : String) (s : S) → remote q ((share.local_create p s).1) ≡ remote q s
  pub create_local :
      (p q : String) (s : S) → ¬ (q ≡ p) → local q ((share.local_create p s).1) ≡ local q s
  pub create_target :
      (p : String) (s : S)
      → (share.local_create p s).0 ≡ true
      → local p ((share.local_create p s).1) ≡ some []
  pub write_remote :
      (p q : String) (b : List ℕ) (s : S) → remote q (share.local_write p b s) ≡ remote q s
  pub write_local :
      (p q : String) (b : List ℕ) (s : S)
      → ¬ (q ≡ p)
      → local q (share.local_write p b s) ≡ local q s
  pub write_target :
      (p : String) (b c : List ℕ) (s : S)
      → local p s ≡ some c
      → local p (share.local_write p b s) ≡ some (append c b)

-- Where a listed file goes to.
abbrev pub target_of : (download_url path : String) → String × ℕ → String
target_of download_url path (url, size) = path ++ slice url (len download_url) (len url)

abbrev pub Apart : (download_url path : String) → List (String × ℕ) → Type 0
Apart d path [] = Unit
Apart d path (f ∷ fs) = All (λ g. ¬ (target_of d path f ≡ target_of d path g)) fs × Apart d path fs

-- Every file of a list is on the disk with what it holds on the share.
abbrev pub Fetched :
    {S C : Type 0} (remote local : String → S → Option C) (d path : String)
    → List (String × ℕ)
    → S
    → Type 0
Fetched remote local d path files s = All (λ f. local (target_of d path f) s ≡ remote f.0 s) files

-- After one file has been fetched.
unfoldable pub fetched : {S : Type 0} (share : Share S) (url target : String) → S → S
unfolding write_local
fetched share url target s =
    let u = (share.local_create target (locate_mkdir_recursive share target 0 s)).1 in
    write_local share target (share.smb_reads 1024 url u) u

module _ {S : Type 0} {share : Share S} {remote local : String → S → Option (List ℕ)}
    (lawful : Lawful share remote local) where
  made-keeps :
      (k : Option Kind) (p q : String) (s : S)
      → let t : S = elim k [ none ↦ share.local_mkdir p s | some kind ↦ s ] in
        (remote q t ≡ remote q s) × (local q t ≡ local q s)
  made-keeps none p q s = (lawful.mkdir_remote p q s, lawful.mkdir_local p q s)
  made-keeps (some kind) p q s = (refl, refl)

  make_local-keeps :
      (path q : String) (ps : List ℕ) (s : S)
      → (remote q (make_local share path ps s) ≡ remote q s)
        × (local q (make_local share path ps s) ≡ local q s)
  unfolding make_local
  make_local-keeps path q [] s = (refl, refl)
  make_local-keeps path q (p ∷ ps) s =
      let folder : String = slice path 0 p in
      let made = made-keeps (share.local_stat folder s) folder q s in
      let later =
        make_local-keeps path q ps (elim (share.local_stat folder s) [
          | none ↦ share.local_mkdir folder s
          | some kind ↦ s
        ]) in
      (later.0 ∙ made.0, later.1 ∙ made.1)

  pub folders-keep :
      (path q : String) (s : S)
      → (remote q (locate_mkdir_recursive share path 0 s) ≡ remote q s)
        × (local q (locate_mkdir_recursive share path 0 s) ≡ local q s)
  unfolding locate_mkdir_recursive
  folders-keep path q s = make_local-keeps path q (local_ends (len path) 0 (slashes 0 path)) s

  writes-keep :
      (p q : String) (bs : List (List ℕ)) (s : S)
      → (remote q (write_local share p bs s) ≡ remote q s)
        × (¬ (q ≡ p) → local q (write_local share p bs s) ≡ local q s)
  unfolding write_local
  writes-keep p q [] s = (refl, λ h. refl)
  writes-keep p q (b ∷ bs) s =
      let later = writes-keep p q bs (share.local_write p b s) in
      (later.0 ∙ lawful.write_remote p q b s, λ h. later.1 h ∙ lawful.write_local p q b s h)

  writes-target :
      (p : String) (bs : List (List ℕ)) (c : List ℕ) (s : S)
      → local p s ≡ some c
      → local p (write_local share p bs s) ≡ some (append c (joined bs))
  unfolding write_local
  writes-target p [] c s h = h ∙ ap some (sym (append-empty c))
  writes-target p (b ∷ bs) c s h =
      writes-target p bs (append c b) (share.local_write p b s) (lawful.write_target p b c s h)
      ∙ ap some (append_assoc c b (joined bs))

  pub fetched-remote :
      (url target q : String) (s : S) → remote q (fetched share url target s) ≡ remote q s
  unfolding fetched
  fetched-remote url target q s =
      let t : S = locate_mkdir_recursive share target 0 s in
      let u : S = (share.local_create target t).1 in
      (writes-keep target q (share.smb_reads 1024 url u) u).0
      ∙ lawful.create_remote target q t
      ∙ (folders-keep target q s).0

  pub fetched-local :
      (url target q : String) (s : S)
      → ¬ (q ≡ target)
      → local q (fetched share url target s) ≡ local q s
  unfolding fetched
  fetched-local url target q s h =
      let t : S = locate_mkdir_recursive share target 0 s in
      let u : S = (share.local_create target t).1 in
      (writes-keep target q (share.smb_reads 1024 url u) u).1 h
      ∙ lawful.create_local target q t h
      ∙ (folders-keep target q s).1

  -- Of a file that can be opened, with a target that can be created.
  pub fetched-target :
      (url target : String) (s : S)
      → let t = locate_mkdir_recursive share target 0 s in
        share.smb_open url t ≡ true
        → (share.local_create target t).0 ≡ true
        → local target (fetched share url target s) ≡ remote url s
  unfolding fetched
  fetched-target url target s opened made =
      let t : S = locate_mkdir_recursive share target 0 s in
      let u : S = (share.local_create target t).1 in
      let (c, there) = lawful.open_remote url t opened in
      let read = lawful.reads_remote 1024 url u c (lawful.create_remote target url t ∙ there) in
      writes-target target (share.smb_reads 1024 url u) [] u (lawful.create_target target t made)
      ∙ ap some read
      ∙ sym there
      ∙ (folders-keep target url s).0
