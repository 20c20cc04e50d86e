-- ===== src/Messages/Bounded.antt =====
-- What the message queue holds, in any interleaving of the receiving thread and its clients
-- (src/target/o_pocket/io/message_manager.h).
use mathlib.Core.List.{append-nil, append_assoc}
use device_broker.Prelude.{
  ℕ, zero, suc, ◌+◌, ◌-◌, ◌≤◌, ◌<◌, ◌≡◌, refl, String, Bool, true, false, some, List, [], ◌∷◌, ◌++◌,
  ℤ, pos, neg, nonzero, length, length-append, arith,
}
use device_broker.Messages.{
  Adder, idle, received, admitted, MessageManage, make, add_receive, add_acquire, add_push, get,
  del, enable, disable, to_stop, drain, destroy, release,
}

-- The manager, and two histories: what the connection delivered and what clients have taken.
pub record Traffic : Type 0 where
  pub manage : MessageManage
  pub delivered : List String
  pub taken : List String

pub data Step (s t : Traffic) : Type 0 where
  gets_message :
      (task : String)
      → s.manage.adder ≡ idle
      → s.manage.stop ≡ false
      → s.manage.state ≡ true
      → t ≡ record s {
        manage = add_receive (pos 0) task s.manage;
        delivered = s.delivered ++ task ∷ [];
      }
      → Step s t
  gets_error :
      (ret : ℤ) (task : String)
      → s.manage.adder ≡ idle
      → nonzero ret ≡ true
      → t ≡ record s { manage = add_receive ret task s.manage }
      → Step s t
  gets_permit :
      (task : String) {m : MessageManage}
      → s.manage.adder ≡ received task
      → add_acquire task s.manage ≡ some m
      → t ≡ record s { manage = m }
      → Step s t
  pushes :
      (task : String)
      → s.manage.adder ≡ admitted task
      → t ≡ record s { manage = add_push task s.manage }
      → Step s t
  is_got :
      (before : String) (is_wait : Bool) {msg : String} {m : MessageManage}
      → get before is_wait s.manage ≡ some (pos 0, msg, m)
      → t ≡ record s { manage = m; taken = s.taken ++ msg ∷ [] }
      → Step s t
  finds_none :
      (before : String) {msg : String} {m : MessageManage}
      → get before false s.manage ≡ some (neg 1, msg, m)
      → t ≡ record s { manage = m }
      → Step s t
  is_deleted :
      {msg : String} {m : MessageManage}
      → del s.manage ≡ some (msg, m)
      → t ≡ record s { manage = m; taken = s.taken ++ msg ∷ [] }
      → Step s t
  enables : t ≡ record s { manage = enable s.manage } → Step s t
  disables : t ≡ record s { manage = disable s.manage } → Step s t
  stops : t ≡ record s { manage = to_stop s.manage } → Step s t

pub data Reach (s : Traffic) : Traffic → Type 0 where
  here : Reach s s
  next : {t u : Traffic} → Reach s t → Step t u → Reach s u

-- The message in the receiving thread's hands, and the permit that it has for it.
abbrev pub in_hand : Adder → List String
in_hand (received task) = task ∷ []
in_hand (admitted task) = task ∷ []
in_hand adder = []

abbrev pub permits_of : Adder → ℕ
permits_of (admitted task) = 1
permits_of adder = 0

record Inv (limit : ℕ) (s : Traffic) : Type 0 where
  permits :
      (free : ℕ) × (s.manage.sem ≡ pos free)
      × (free + length s.manage.queue + permits_of s.manage.adder ≡ limit)
  in_order : s.delivered ≡ s.taken ++ s.manage.queue ++ in_hand s.manage.adder

step-Inv : (limit : ℕ) {s t : Traffic} → Step s t → Inv limit s → Inv limit t
unfolding add_receive add_acquire add_push get del enable disable to_stop
step-Inv limit {s} (gets_message task a b c d) v =
    ground (arith, append-nil (s.taken ++ s.manage.queue))
step-Inv limit (gets_error ret task a b c) v = ground arith
step-Inv limit (gets_permit task a b c) v = record {
  permits = (v.permits.0 - 1, ground arith, ground arith);
  in_order = ground arith;
}
step-Inv limit {s} (pushes task a b) v = ground (
  arith,
  append_assoc s.taken s.manage.queue (task ∷ []),
  append-nil (s.taken ++ (s.manage.queue ++ task ∷ [])),
  length-append s.manage.queue (task ∷ []),
)
step-Inv limit {s} (is_got before is_wait {msg} {m} a b) v = record {
  permits = (v.permits.0 + 1, ground arith, ground arith);
  in_order = ground (arith, append_assoc s.taken (msg ∷ []) m.queue);
}
step-Inv limit (finds_none before a b) v = ground arith
step-Inv limit {s} (is_deleted {msg} {m} a b) v = record {
  permits = (v.permits.0 + 1, ground arith, ground arith);
  in_order = ground (arith, append_assoc s.taken (msg ∷ []) m.queue);
}
step-Inv limit (enables a) v = ground arith
step-Inv limit (disables a) v = ground arith
step-Inv limit (stops a) v = ground arith

Reach-Inv : (limit : ℕ) {s t : Traffic} → Inv limit s → Reach s t → Inv limit t
Reach-Inv limit v here = v
Reach-Inv limit v (next r st) = step-Inv limit st (Reach-Inv limit v r)

abbrev pub fresh : ℕ → Traffic
fresh limit = record { manage = make limit; delivered = []; taken = [] }

fresh-Inv : (limit : ℕ) → Inv limit (fresh limit)
unfolding make
fresh-Inv limit = record { permits = (limit, refl, omega arith); in_order = refl }

-- However the receiving thread and its clients interleave, the queue is never longer than the
-- limit; the permits that are free, the queue and the message that has a permit but is not queued
-- yet add up to the limit; and what was delivered is, in order, what was taken, then what is
-- queued, then what the receiving thread holds.
pub queue_bounded :
    (limit : ℕ) {s : Traffic}
    → Reach (fresh limit) s
    → (free : ℕ) × (s.manage.sem ≡ pos free)
      × (free + length s.manage.queue + permits_of s.manage.adder ≡ limit)
      × (length s.manage.queue ≤ limit)
      × (s.delivered ≡ s.taken ++ s.manage.queue ++ in_hand s.manage.adder)
queue_bounded limit r =
    let v = Reach-Inv limit (fresh-Inv limit) r in
    let (free, count, total) = v.permits in (free, count, total, omega arith, v.in_order)

drain_all :
    (fuel : ℕ) (m : MessageManage) (xs : List String)
    → m.queue ≡ xs
    → length xs < fuel
    → (end : MessageManage) × (drain fuel m ≡ some (xs, end))
      × (end.queue ≡ [])
      × (end.stop ≡ m.stop)
      × (end.state ≡ m.state)
unfolding drain get
drain_all zero m xs e h = absurd (omega arith)
drain_all (suc fuel) m [] e h = (m, ground arith, e, refl, refl)
drain_all (suc fuel) m (x ∷ xs) e h =
    let (end, a, b, c, d) =
      drain_all fuel (record m { queue = xs; sem = release m.sem }) xs refl (omega arith) in
    (end, ground arith, b, c, d)

-- The destructor's loop ends once it has one round more than there are messages queued: it has
-- lost every message that was queued, in order, and leaves the queue empty.
pub destroy_drains :
    (fuel : ℕ) (m : MessageManage)
    → length m.queue < fuel
    → (end : MessageManage) × (destroy fuel m ≡ some (m.queue, end))
      × (end.queue ≡ [])
      × (end.stop ≡ true)
      × (end.state ≡ false)
unfolding destroy disable to_stop
destroy_drains fuel m h = drain_all fuel (disable (to_stop m)) m.queue refl h
