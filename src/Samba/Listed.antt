-- ===== src/Samba/Listed.antt =====
-- What the walk of src/target/o_pocket/io/samba_transfer.cpp lists, against the files of the tree.
use Prim.Native.String.{◌++◌}
use device_broker.Prelude.{
  ℕ, ◌+◌, ◌%◌, ◌^◌, ◌≡◌, refl, ap, sym, ◌∙◌, inl, inr, String, Bool, true, false, Bool-cases, List,
  [], ◌∷◌, pos, if◌then◌else◌, arith,
}
use device_broker.Samba.Walk.{
  Node, file, folder, Nodes, nil, cons, Found, nothing_found, with_slash, is_dots, is_wanted,
  push_file, snoc, to_float, walk_node, walk_nodes, get_file_urls_recursive,
}

abbrev pub append : {A : Type 0} → List A → List A → List A
append [] ys = ys
append (x ∷ xs) ys = x ∷ append xs ys

-- The files of a tree with their whole paths; `.` and `..` name nothing of their own.
abbrev mutual
  pub listed_node : String → Node → List (String × ℕ)
  listed_node url (file name size) = if is_dots name then [] else (url ++ name, size) ∷ []
  listed_node url (folder name opened nodes) =
      let below = listed_nodes (with_slash (url ++ name ++ "/")) nodes in
      if is_dots name then [] else below

  pub listed_nodes : String → Nodes → List (String × ℕ)
  listed_nodes url nil = []
  listed_nodes url (cons node nodes) = append (listed_node url node) (listed_nodes url nodes)

-- Every folder that is walked can be opened.
abbrev mutual
  pub open_node : Node → Bool
  open_node (file name size) = true
  open_node (folder name opened nodes) =
      let below = open_nodes nodes in if is_dots name then true else if opened then below else false

  pub open_nodes : Nodes → Bool
  open_nodes nil = true
  open_nodes (cons node nodes) =
      let rest = open_nodes nodes in if open_node node then rest else false

-- Those of some files that are wanted.
abbrev pub wanted : List String → List (String × ℕ) → List (String × ℕ)
wanted suffixes [] = []
wanted suffixes ((path, size) ∷ files) =
    let rest = wanted suffixes files in
    if is_wanted suffixes path then (path, size) ∷ rest else rest

-- What the lists of the object hold for some files.
abbrev pub floats : List (String × ℕ) → List (String × ℕ)
floats [] = []
floats ((path, size) ∷ files) = (path, to_float size) ∷ floats files

-- Some sizes added up in an `int`.
abbrev pub total : ℕ → List (String × ℕ) → ℕ
total n [] = n
total n ((path, size) ∷ files) = total ((n + size) % 2 ^ 32) files

pushes : List String → List (String × ℕ) → Found → Found
pushes suffixes [] f = f
pushes suffixes ((path, size) ∷ files) f = pushes suffixes files (push_file suffixes path size f)

pushes-append :
    (suffixes : List String) (xs ys : List (String × ℕ)) (f : Found)
    → pushes suffixes (append xs ys) f ≡ pushes suffixes ys (pushes suffixes xs f)
unfolding pushes
pushes-append suffixes [] ys f = refl
pushes-append suffixes ((p, n) ∷ xs) ys f = pushes-append suffixes xs ys (push_file suffixes p n f)

mutual
  unfolding walk_node walk_nodes pushes

  walk_node-pushes :
      (suffixes : List String) (url : String) (node : Node) (f : Found)
      → open_node node ≡ true
      → walk_node suffixes url node f ≡ (pos 0, pushes suffixes (listed_node url node) f)
  walk_node-pushes suffixes url (file name size) f h = elim (Bool-cases (is_dots name)) [
    | inl e ↦ simp e
    | inr e ↦ simp e
  ]
  walk_node-pushes suffixes url (folder name opened nodes) f h = elim (Bool-cases (is_dots name)) [
    | inl e ↦ simp e
    | inr e ↦
        (let is_open : opened ≡ true = ground (arith, e, h) in
          let below : open_nodes nodes ≡ true = ground (arith, e, h) in
          simp (
            e,
            is_open,
            walk_nodes-pushes suffixes (with_slash (url ++ name ++ "/")) nodes f below,
          ))
  ]

  walk_nodes-pushes :
      (suffixes : List String) (url : String) (nodes : Nodes) (f : Found)
      → open_nodes nodes ≡ true
      → walk_nodes suffixes url nodes f ≡ (pos 0, pushes suffixes (listed_nodes url nodes) f)
  walk_nodes-pushes suffixes url nil f h = refl
  walk_nodes-pushes suffixes url (cons node nodes) f h =
      let here : open_node node ≡ true = ground (arith, h) in
      let rest : open_nodes nodes ≡ true = ground (arith, h) in
      simp (
        walk_node-pushes suffixes url node f here,
        walk_nodes-pushes suffixes url nodes (pushes suffixes (listed_node url node) f) rest,
        pushes-append suffixes (listed_node url node) (listed_nodes url nodes) f,
      )

snoc-append : {A : Type 0} (xs ys : List A) (x : A) → append (snoc xs x) ys ≡ append xs (x ∷ ys)
snoc-append [] ys x = refl
snoc-append (z ∷ zs) ys x = ap (λ l. z ∷ l) (snoc-append zs ys x)

pub append-empty : {A : Type 0} (xs : List A) → append xs [] ≡ xs
append-empty [] = refl
append-empty (x ∷ xs) = ap (λ l. x ∷ l) (append-empty xs)

pub append_assoc :
    {A : Type 0} (xs ys zs : List A) → append (append xs ys) zs ≡ append xs (append ys zs)
append_assoc [] ys zs = refl
append_assoc (x ∷ xs) ys zs = ap (λ l. x ∷ l) (append_assoc xs ys zs)

-- What the pushes of some files add to what was found.
record Added (suffixes : List String) (files : List (String × ℕ)) (f g : Found) : Type 0 where
  all : g.all_file_urls ≡ append f.all_file_urls (floats files)
  all_size : g.all_download_file_size ≡ total f.all_download_file_size files
  specific :
      g.specific_suffix_file_urls
      ≡ append f.specific_suffix_file_urls (floats (wanted suffixes files))
  specific_size :
      g.specific_suffix_file_size ≡ total f.specific_suffix_file_size (wanted suffixes files)

pushed_all :
    (suffixes : List String) (p : String) (n : ℕ) (f : Found)
    → (push_file suffixes p n f).all_file_urls ≡ snoc f.all_file_urls (p, to_float n)
unfolding push_file
pushed_all suffixes p n f = elim (Bool-cases (is_wanted suffixes p)) [
  | inl e ↦ simp e
  | inr e ↦ simp e
]

pushed_size :
    (suffixes : List String) (p : String) (n : ℕ) (f : Found)
    → (push_file suffixes p n f).all_download_file_size ≡ (f.all_download_file_size + n) % 2 ^ 32
unfolding push_file
pushed_size suffixes p n f = elim (Bool-cases (is_wanted suffixes p)) [
  | inl e ↦ simp e
  | inr e ↦ simp e
]

pushed_wanted :
    (suffixes : List String) (p : String) (n : ℕ) (f : Found)
    → is_wanted suffixes p ≡ true
    → ((push_file suffixes p n f).specific_suffix_file_urls
        ≡ snoc f.specific_suffix_file_urls (p, to_float n))
      × ((push_file suffixes p n f).specific_suffix_file_size
          ≡ (f.specific_suffix_file_size + n) % 2 ^ 32)
unfolding push_file
pushed_wanted suffixes p n f e = (simp e, simp e)

pushed_other :
    (suffixes : List String) (p : String) (n : ℕ) (f : Found)
    → is_wanted suffixes p ≡ false
    → ((push_file suffixes p n f).specific_suffix_file_urls ≡ f.specific_suffix_file_urls)
      × ((push_file suffixes p n f).specific_suffix_file_size ≡ f.specific_suffix_file_size)
unfolding push_file
pushed_other suffixes p n f e = (simp e, simp e)

pushes-Added :
    (suffixes : List String) (files : List (String × ℕ)) (f : Found)
    → Added suffixes files f (pushes suffixes files f)
unfolding pushes
pushes-Added suffixes [] f = record {
  all = sym (append-empty f.all_file_urls);
  all_size = refl;
  specific = sym (append-empty f.specific_suffix_file_urls);
  specific_size = refl;
}
pushes-Added suffixes ((p, n) ∷ files) f =
    let g : Found = push_file suffixes p n f in
    let later = pushes-Added suffixes files g in
    elim (Bool-cases (is_wanted suffixes p)) [
      | inl e ↦
          (let w : wanted suffixes ((p, n) ∷ files) ≡ (p, n) ∷ wanted suffixes files = simp e in
            record {
              all =
                  later.all
                  ∙ ap (λ l. append l (floats files)) (pushed_all suffixes p n f)
                  ∙ snoc-append f.all_file_urls (floats files) (p, to_float n);
              all_size = later.all_size ∙ ap (λ a. total a files) (pushed_size suffixes p n f);
              specific =
                  later.specific
                  ∙ ap (λ l. append l (floats (wanted suffixes files)))
                      (pushed_wanted suffixes p n f e).0
                  ∙ snoc-append f.specific_suffix_file_urls (floats (wanted suffixes files))
                      (p, to_float n)
                  ∙ ap (λ l. append f.specific_suffix_file_urls (floats l)) (sym w);
              specific_size =
                  later.specific_size
                  ∙ ap (λ a. total a (wanted suffixes files)) (pushed_wanted suffixes p n f e).1
                  ∙ ap (total f.specific_suffix_file_size) (sym w);
            })
      | inr e ↦
          (let w : wanted suffixes ((p, n) ∷ files) ≡ wanted suffixes files = simp e in
            record {
              all =
                  later.all
                  ∙ ap (λ l. append l (floats files)) (pushed_all suffixes p n f)
                  ∙ snoc-append f.all_file_urls (floats files) (p, to_float n);
              all_size = later.all_size ∙ ap (λ a. total a files) (pushed_size suffixes p n f);
              specific =
                  later.specific
                  ∙ ap (λ l. append l (floats (wanted suffixes files)))
                      (pushed_other suffixes p n f e).0
                  ∙ ap (λ l. append f.specific_suffix_file_urls (floats l)) (sym w);
              specific_size =
                  later.specific_size
                  ∙ ap (λ a. total a (wanted suffixes files)) (pushed_other suffixes p n f e).1
                  ∙ ap (total f.specific_suffix_file_size) (sym w);
            })
    ]

Found-ext :
    (g : Found) (all : List (String × ℕ)) (all_size : ℕ) (specific : List (String × ℕ))
    (specific_size : ℕ)
    → g.all_file_urls ≡ all
    → g.all_download_file_size ≡ all_size
    → g.specific_suffix_file_urls ≡ specific
    → g.specific_suffix_file_size ≡ specific_size
    → g ≡ record {
      all_file_urls = all;
      all_download_file_size = all_size;
      specific_suffix_file_urls = specific;
      specific_suffix_file_size = specific_size;
    }
Found-ext g all all_size specific specific_size e0 e1 e2 e3 = cc (e0, e1, e2, e3)

pub get_file_urls_recursive-lists :
    (suffixes : List String) (url : String) (nodes : Nodes)
    → open_nodes nodes ≡ true
    → let files = listed_nodes (with_slash url) nodes in
      get_file_urls_recursive suffixes url true nodes nothing_found ≡ (
        pos 0,
        record {
          all_file_urls = floats files;
          all_download_file_size = total 0 files;
          specific_suffix_file_urls = floats (wanted suffixes files);
          specific_suffix_file_size = total 0 (wanted suffixes files);
        },
      )
unfolding get_file_urls_recursive
get_file_urls_recursive-lists suffixes url nodes h =
    let files : List (String × ℕ) = listed_nodes (with_slash url) nodes in
    let a = pushes-Added suffixes files nothing_found in
    walk_nodes-pushes suffixes (with_slash url) nodes nothing_found h
    ∙ ap (λ g. (pos 0, g))
        (Found-ext (pushes suffixes files nothing_found) (floats files) (total 0 files)
          (floats (wanted suffixes files)) (total 0 (wanted suffixes files)) a.all a.all_size
          a.specific a.specific_size)
