-- ===== src/Archive/Unpacked.antt =====
-- What recursive_decompress of src/target/o_pocket/compress/miniz_impl.inl leaves on the disk, where miniz
-- and <filesystem> write as they are documented to.
use mathlib.Core.Path.{subst}
use native.Mathlib.Decide.{dec_lt}
use device_broker.Prelude.{
  ℕ, zero, suc, ◌+◌, ◌≡◌, ◌⊎◌, inl, inr, refl, sym, ap, ◌∙◌, String, true, false, Bool-cases,
  Option, none, some, Option-cases, ℤ, pos, neg, nonzero, ◌==◌, if◌then◌else◌, arith,
}
use device_broker.FileSystem.{Disk}
use device_broker.FileSystem.Kept.{change-cases}
use device_broker.FileSystem.Throwing.{Outcome, done, raised, and_then, ask, attempted}
use device_broker.Archive.Contents.{Unpacks, GoesTo, Unpacked}
use device_broker.Archive.{Zip, unpack_entry, unpack, recursive_decompress}

module _ {S : Type 0} (fs : Disk S) (zip : Zip S) (file out : String)
    (u : Unpacks fs zip file) where
  data Stopped : Outcome (ℤ × Option String) → Type 0 where
    threw : Stopped raised
    failed : (r : ℤ) (root : Option String) → nonzero r ≡ true → Stopped (done (r, root))

  -- One entry.
  record Extracted (n : ℕ) (s t : S) : Type 0 where
    wrote : (p : String) → GoesTo fs zip file out u n p → u.content p t ≡ some (u.packed n)
    kept : (q : String) → (GoesTo fs zip file out u n q → ⊥) → u.content q t ≡ u.content q s

  abbrev Cases : Outcome (ℤ × Option String) × S → (S → Type 0) → Type 0
  Cases run After =
      ((root : Option String) × (t : S) × (run ≡ (done (pos 0, root), t)) × After t)
      ⊎ ((o : Outcome (ℤ × Option String)) × (t : S) × (run ≡ (o, t)) × Stopped o)

  extracted :
      (n : ℕ) (entry : String) (s t v : S)
      → u.name n ≡ some entry
      → u.folder n ≡ false
      → fs.create_directories (fs.parent_path (fs.join out entry)) s ≡ (true, t)
      → zip.extract_to_file file n (fs.join out entry) t ≡ (true, v)
      → Extracted n s v
  extracted n entry s t v e f made got = record {
    wrote = λ p g.
        let same : entry ≡ g.entry = ground (arith, e, g.stat) in
        subst (λ q. u.content q v ≡ some (u.packed n)) (ap (fs.join out) same ∙ g.path)
          (u.extracts n (fs.join out entry) t v got);
    kept = λ q g.
        u.extracts_only n (fs.join out entry) q t v got
          (λ h. g (record { entry = entry; stat = e; regular = f; path = h }))
        ∙ u.makes_folder (fs.parent_path (fs.join out entry)) q s t made;
  }

  unpack_entry-cases :
      (n : ℕ) (root : Option String) (s : S)
      → Cases (unpack_entry fs zip file out n root s) (Extracted n s)
  unfolding unpack_entry
  unpack_entry-cases n root s = elim (Option-cases (u.name n)) [
    | inl e ↦ inr (done (neg 2, root), s, simp (ask, u.named n s, e), failed (neg 2) root refl)
    | inr (entry, e) ↦
        (let stat : zip.file_stat file n s ≡ some entry = u.named n s ∙ e in
          elim (Bool-cases (u.folder n)) [
            | inl f ↦ elim (change-cases (fs.create_directories (fs.join out entry) s)) [
              | inl (t, made) ↦ inl (
                (if n == 0 then some (fs.join out entry) else root),
                t,
                simp (ask, stat, and_then, u.is_folder n s, f, attempted, made),
                record {
                  wrote = λ p g. absurd (ground (arith, f, g.regular));
                  kept = λ q g. u.makes_folder (fs.join out entry) q s t made;
                },
              )
              | inr (t, failed_to) ↦ inr (
                raised,
                t,
                simp (ask, stat, and_then, u.is_folder n s, f, attempted, failed_to),
                threw,
              )
            ]
            | inr f ↦
                elim (change-cases (fs.create_directories (fs.parent_path (fs.join out entry)) s)) [
                  | inr (t, failed_to) ↦ inr (
                    raised,
                    t,
                    simp (ask, stat, and_then, u.is_folder n s, f, attempted, failed_to),
                    threw,
                  )
                  | inl (t, made) ↦
                      elim (change-cases (zip.extract_to_file file n (fs.join out entry) t)) [
                        | inr (v, failed_to) ↦ inr (
                          done (neg 3, root),
                          v,
                          simp
                              (ask, stat, and_then, u.is_folder n s, f, attempted, made, failed_to),
                          failed (neg 3) root refl,
                        )
                        | inl (v, got) ↦ inl (
                          root,
                          v,
                          simp (ask, stat, and_then, u.is_folder n s, f, attempted, made, got),
                          extracted n entry s t v e f made got,
                        )
                      ]
                ]
          ])
  ]

  joined :
      (left idx : ℕ) (s t v : S)
      → Extracted idx s t
      → Unpacked fs zip file out u left (idx + 1) t v
      → Unpacked fs zip file out u (suc left) idx s v
  joined left idx s t v x y = record {
    written = λ n p from below g later. elim (dec_lt idx n) [
      | yes after ↦ y.written n p (omega arith) (omega arith) g (λ m c d. later m c (omega arith))
      | no first ↦
          (let same : n ≡ idx = omega arith in
            y.others p (λ m c d. later m (omega arith) (omega arith))
            ∙ subst (λ k. u.content p t ≡ some (u.packed k)) (sym same)
                (x.wrote p (subst (λ k. GoesTo fs zip file out u k p) same g)))
    ];
    others = λ q h.
        y.others q (λ m c d. h m (omega arith) (omega arith))
        ∙ x.kept q (h idx (omega arith) (omega arith));
  }

  ends_at_entry :
      (left idx : ℕ) (root : Option String) (s t : S) (o : Outcome (ℤ × Option String))
      → unpack_entry fs zip file out idx root s ≡ (o, t)
      → Stopped o
      → unpack fs zip file out (suc left) idx root s ≡ (o, t)
  unfolding unpack
  ends_at_entry left idx root s t o run threw = simp (run, and_then)
  ends_at_entry left idx root s t o run (failed r root' bad) = simp (run, and_then, bad)

  unpack-cases :
      (left idx : ℕ) (root : Option String) (s : S)
      → Cases (unpack fs zip file out left idx root s) (Unpacked fs zip file out u left idx s)
  unfolding unpack
  unpack-cases zero idx root s = inl (
    root,
    s,
    refl,
    record { written = λ n p a b g h. absurd (omega arith); others = λ q h. refl },
  )
  unpack-cases (suc left) idx root s = elim (unpack_entry-cases idx root s) [
    | inr (o, t, run, stop) ↦ inr (o, t, ends_at_entry left idx root s t o run stop, stop)
    | inl (root', t, run, x) ↦ elim (unpack-cases left (idx + 1) root' t) [
      | inr (o, v, run', stop) ↦ inr (o, v, simp (run, and_then, run'), stop)
      | inl (root'', v, run', y) ↦
          inl (root'', v, simp (run, and_then, run'), joined left idx s t v x y)
    ]
  ]

  -- The answer of a decompression that started in the state `s`.
  abbrev pub Decompressed : S → Outcome ℤ × S → Type 0
  Decompressed s run =
      ((t : S) × (run ≡ (done (pos 0), t)) × Unpacked fs zip file out u u.count 0 s t)
      ⊎ ((r : ℤ) × (t : S) × (run ≡ (done r, t)) × (nonzero r ≡ true))

  ends_early :
      (fuel : ℕ) (s t v : S) (o : Outcome (ℤ × Option String))
      → fs.exists file s ≡ some true
      → fs.create_directories out s ≡ (true, t)
      → zip.reader_init_file file t ≡ true
      → unpack fs zip file out u.count 0 none t ≡ (o, v)
      → Stopped o
      → Decompressed s (recursive_decompress fs zip fuel file out false s)
  unfolding recursive_decompress
  ends_early fuel s t v o e made opened run threw =
      inr (neg 10, v, simp (ask, e, attempted, made, opened, u.counted t, and_then, run), refl)
  ends_early fuel s t v o e made opened run (failed r root bad) =
      inr (r, v, simp (ask, e, attempted, made, opened, u.counted t, and_then, run, bad), bad)

  -- Unpacking without stripping the root folder always ends with an answer. Where it is 0, every file of
  -- the archive is at its path with what was packed, unless a later entry has the same path, and no file
  -- at another path has changed.
  pub recursive_decompress-Decompressed :
      (fuel : ℕ) (s : S) → Decompressed s (recursive_decompress fs zip fuel file out false s)
  unfolding recursive_decompress
  recursive_decompress-Decompressed fuel s = elim (Option-cases (fs.exists file s)) [
    | inl e ↦ inr (neg 10, s, simp (ask, e), refl)
    | inr (false, e) ↦ inr (neg 1, s, simp (ask, e), refl)
    | inr (true, e) ↦ elim (change-cases (fs.create_directories out s)) [
      | inr (t, failed_to) ↦ inr (neg 10, t, simp (ask, e, attempted, failed_to), refl)
      | inl (t, made) ↦ elim (Bool-cases (zip.reader_init_file file t)) [
        | inr closed ↦ inr (neg 1, t, simp (ask, e, attempted, made, closed), refl)
        | inl opened ↦ elim (unpack-cases u.count 0 none t) [
          | inr (o, v, run, stop) ↦ ends_early fuel s t v o e made opened run stop
          | inl (root, v, run, y) ↦ inl (
            v,
            simp (ask, e, attempted, made, opened, u.counted t, and_then, run),
            record {
              written = y.written;
              others = λ q h. y.others q h ∙ u.makes_folder out q s t made;
            },
          )
        ]
      ]
    ]
  ]
