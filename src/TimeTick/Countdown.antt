-- ===== src/TimeTick/Countdown.antt =====
-- What the countdown of src/target/o_pocket/common/time_tick.inl keeps.
use std.Path.{subst}
use device_broker.Prelude.{true, false, List, [], ◌∷◌, ◌++◌, ℤ, ◌≡◌, refl, arith, sym}
use device_broker.TimeTick.{
  Thread, launched, marked, expired, released, asleep, called, TimeTick, make, start,
  update_expired_time, advance, Step, starts, updates, runs, Reach, here, next,
}

-- Expiry is for good: no later start and no update takes it back.
step-expired : {s t : TimeTick} → Step s t → s.is_expired ≡ true → t.is_expired ≡ true
unfolding start update_expired_time advance
step-expired (starts e) h = ground (arith, e, h)
step-expired (updates ms e) h = ground (arith, e, h)
step-expired (runs before after launched l e) h = ground (arith, e, h)
step-expired (runs before after marked l e) h = ground (arith, e, h)
step-expired (runs before after expired l e) h = ground (arith, e, h)
step-expired (runs before after released l e) h = ground (arith, e, h)
step-expired (runs before after (asleep time) l e) h = ground (arith, e, h)
step-expired (runs before after (called time) l e) h = ground (arith, e, h)

Reach-expired : {s t : TimeTick} → Reach s t → s.is_expired ≡ true → t.is_expired ≡ true
Reach-expired here h = h
Reach-expired (next r st) h = step-expired st (Reach-expired r h)

-- What holds while the only thread is at a point.
pub Fits : Thread → TimeTick → Type 0
Fits launched s = (s.is_running ≡ false) × (s.is_expired ≡ false)
Fits marked s = (s.is_running ≡ true) × (s.is_expired ≡ false)
Fits (asleep time) s = (time ≡ s.time_ms) × (s.is_running ≡ true) × (s.is_expired ≡ false)
Fits expired s = (s.is_running ≡ true) × (s.is_expired ≡ true)
Fits released s = (s.is_running ≡ false) × (s.is_expired ≡ true)
Fits (called time) s = (s.is_running ≡ false) × (s.is_expired ≡ true)

-- Nothing is said of a tick that was started twice.
Kept : List Thread → TimeTick → Type 0
Kept [] s = (s.is_running ≡ false) × (s.is_expired ≡ false)
Kept (p ∷ []) s = Fits p s
Kept (p ∷ q ∷ ps) s = Unit

start-Kept : (ps : List Thread) (s : TimeTick) → Kept ps s → Kept (launched ∷ ps) ((start s).1)
unfolding Kept Fits start
start-Kept [] s h = h
start-Kept (p ∷ ps) s h = tt

update-Fits :
    (ms : ℤ) (p : Thread) (s : TimeTick) → Fits p s → Fits p ((update_expired_time ms s).1)
unfolding Fits update_expired_time
update-Fits ms launched s h = ground (arith, h)
update-Fits ms marked s h = ground (arith, h)
update-Fits ms (asleep time) s h = ground (arith, h)
update-Fits ms expired s h = ground (arith, h)
update-Fits ms released s h = ground (arith, h)
update-Fits ms (called time) s h = ground (arith, h)

update-Kept :
    (ms : ℤ) (ps : List Thread) (s : TimeTick) → Kept ps s → Kept ps ((update_expired_time ms s).1)
unfolding Kept update_expired_time
update-Kept ms [] s h = ground (arith, h)
update-Kept ms (p ∷ []) s h = update-Fits ms p s h
update-Kept ms (p ∷ q ∷ ps) s h = tt

-- What the list of threads is does not matter to `Fits`.
advance-Fits :
    (ps : List Thread) (p : Thread) (s : TimeTick)
    → Fits p s
    → (let (p', s') = advance p s in Fits p' (record s' { threads = ps }))
unfolding Fits advance
advance-Fits ps launched s h = (refl, h.1)
advance-Fits ps marked s h = (refl, h.0, h.1)
advance-Fits ps (asleep time) s h = (h.1, refl)
advance-Fits ps expired s h = (refl, h.1)
advance-Fits ps released s h = h
advance-Fits ps (called time) s h = h

advance-Kept :
    (before after : List Thread) (p : Thread) (s : TimeTick)
    → Kept (before ++ p ∷ after) s
    → (let (p', s') = advance p s in
        Kept (before ++ p' ∷ after) (record s' { threads = before ++ p' ∷ after }))
unfolding Kept
advance-Kept [] [] p s h = advance-Fits ((advance p s).0 ∷ []) p s h
advance-Kept [] (q ∷ qs) p s h = tt
advance-Kept (b ∷ []) after p s h = tt
advance-Kept (b ∷ c ∷ bs) after p s h = tt

update-threads : (ms : ℤ) (s : TimeTick) → (update_expired_time ms s).1.threads ≡ s.threads
unfolding update_expired_time
update-threads ms s = ground arith

step-Kept : {s t : TimeTick} → Step s t → Kept s.threads s → Kept t.threads t
unfolding Kept Fits start
step-Kept {s} (starts e) h = rw e (start-Kept s.threads s h)
step-Kept {s} (updates ms e) h = rw (e, update-threads ms s) (update-Kept ms s.threads s h)
step-Kept {s} (runs before after p l e) h = rw e (advance-Kept before after p s (rw (sym l) h))

Reach-Kept : {s t : TimeTick} → Reach s t → Kept s.threads s → Kept t.threads t
Reach-Kept here h = h
Reach-Kept (next r st) h = step-Kept st (Reach-Kept r h)

-- A tick that was started once: its thread sleeps for the time that the tick has, the tick counts
-- as running from the thread's first access to the one after the sleep, and as expired from the
-- end of the sleep on, however updates of the time come in between.
pub countdown-Fits :
    (ms : ℤ) (p : Thread) {s : TimeTick} → Reach (make ms) s → s.threads ≡ p ∷ [] → Fits p s
unfolding Kept make
countdown-Fits ms p {s} r e =
    let k : Kept s.threads s = Reach-Kept r (refl, refl) in subst (λ ps. Kept ps s) e k

-- An update that comes before the callback is accepted, and the callback is told the new time,
-- which is not the one that the thread slept for.
pub late_update :
    (ms other : ℤ)
    → (s : TimeTick) × (t : TimeTick) × Reach (make ms) s
      × (s.threads ≡ asleep ms ∷ [])
      × Reach s t
      × (t.threads ≡ called other ∷ [])
unfolding make start update_expired_time advance
late_update ms other =
    let r1 : Reach (make ms) _ = next here (starts refl) in
    let r2 : Reach (make ms) _ = next r1 (runs [] [] launched refl refl) in
    let r3 : Reach (make ms) _ = next r2 (runs [] [] marked refl refl) in
    let q1 : Reach _ _ = next here (runs [] [] (asleep ms) refl refl) in
    let q2 : Reach _ _ = next q1 (runs [] [] expired refl refl) in
    let q3 : Reach _ _ = next q2 (updates other refl) in
    let q4 : Reach _ _ = next q3 (runs [] [] released refl refl) in (_, _, r3, refl, q4, refl)
