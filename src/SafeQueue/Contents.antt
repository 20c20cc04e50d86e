-- ===== src/SafeQueue/Contents.antt =====
-- The multiset of a SafeQueue's items over any interleaving, inserts included
-- (src/target/o_pocket/context/threadpool/safe_queue.hpp).
use mathlib.Core.List.{append-nil, append_assoc, perm_middle, Perm}
use mathlib.Core.List.Perm
use device_broker.Prelude.{
  ◌≡◌, Bool, false, some, List, [], ◌∷◌, ◌++◌, pos, arith, inl, inr, Bool-cases,
}
use device_broker.SafeQueue.{SafeQueue, insert_before, insert_sync, try_insert, insert_async}
use device_broker.SafeQueue.Fifo.{FifoStep, step-fifo}

module _ {ℓ} {A : Type ℓ} where
  -- Any completed operation: one of `FifoStep`, or an insert before the first accepted item.
  pub data Step : SafeQueue A → List A → List A → SafeQueue A → Type ℓ where
    fifo : {q q' : SafeQueue A} {ns os : List A} → FifoStep q ns os q' → Step q ns os q'
    inserted_sync :
        (p : A → Bool) (v : A) (q : SafeQueue A) {q' : SafeQueue A}
        → q.is_stop_flag ≡ false
        → insert_sync p v q ≡ some q'
        → Step q (v ∷ []) [] q'
    inserted_try :
        (p : A → Bool) (v : A) (q : SafeQueue A) {q' : SafeQueue A}
        → try_insert p v q ≡ (pos 0, q')
        → Step q (v ∷ []) [] q'
    inserted_async :
        (p : A → Bool) (v : A) (q : SafeQueue A) {q' : SafeQueue A}
        → insert_async p v q ≡ (pos 0, q')
        → Step q (v ∷ []) [] q'

  pub data Reach (q : SafeQueue A) : List A → List A → SafeQueue A → Type ℓ where
    here : Reach q [] [] q
    next :
        {ins outs ns os : List A} {r s : SafeQueue A}
        → Reach q ins outs r
        → Step r ns os s
        → Reach q (ins ++ ns) (outs ++ os) s

  pub insert_before-perm :
      (p : A → Bool) (v : A) (xs : List A) → Perm (insert_before p v xs) (v ∷ xs)
  unfolding insert_before
  insert_before-perm p v [] = Perm.refl (v ∷ [])
  insert_before-perm p v (x ∷ xs) = elim (Bool-cases (p x)) [
    | inl found ↦ rw found (Perm.refl (v ∷ x ∷ xs))
    | inr later ↦ rw later (Perm.trans (Perm.cons x (insert_before-perm p v xs)) (Perm.swap v x xs))
  ]

  insert-perm :
      (p : A → Bool) (v : A) (xs : List A) {ys : List A}
      → ys ≡ insert_before p v xs
      → Perm (xs ++ v ∷ []) ys
  insert-perm p v xs e =
      rw e (Perm.trans (perm_middle xs []) (rw append-nil (Perm.symm (insert_before-perm p v xs))))

  step-perm :
      {q q' : SafeQueue A} {ns os : List A}
      → Step q ns os q'
      → Perm (q.inner_queue ++ ns) (os ++ q'.inner_queue)
  unfolding insert_sync try_insert insert_async
  step-perm {q} {ns = ns} (fifo st) = rw (← step-fifo st) (Perm.refl (q.inner_queue ++ ns))
  step-perm (inserted_sync p v q s e) = insert-perm p v q.inner_queue (ground arith)
  step-perm (inserted_try p v q e) = insert-perm p v q.inner_queue (ground arith)
  step-perm (inserted_async p v q e) = insert-perm p v q.inner_queue (ground arith)

  -- No operation loses, copies or invents an item: over any history, inserts included, what was
  -- queued and what entered are, as a multiset, what left and what is still queued.
  pub Reach-perm :
      {q q' : SafeQueue A} {ins outs : List A}
      → Reach q ins outs q'
      → Perm (q.inner_queue ++ ins) (outs ++ q'.inner_queue)
  Reach-perm {q} here = rw append-nil (Perm.refl q.inner_queue)
  Reach-perm {q} (next {ins} {outs} {ns} {os} {r} {s} h st) =
      rw (← append_assoc q.inner_queue ins ns, append_assoc outs os s.inner_queue)
        (Perm.trans (Perm.append (Reach-perm h) (Perm.refl ns))
          (rw (append_assoc outs r.inner_queue ns) (Perm.append (Perm.refl outs) (step-perm st))))
