-- ===== src/TimeTick.antt =====
-- src/target/o_pocket/common/time_tick.inl, class TimeTick: a countdown on a thread of its own.
-- The threads that were started share the object; each step below is one of their accesses, in any
-- interleaving with the calls on the object. That a sleep lasts as long as it was asked to is the
-- clock's, and the callback is only recorded.
pub mod Countdown
mod Tests
use device_broker.Prelude.{Bool, true, false, List, [], ◌∷◌, ◌++◌, ℤ, ◌≡◌, if◌then◌else◌}

-- Where a thread is: launched, after `is_running_.store(true)`, asleep for a time, after
-- `is_expired_.store(true)`, after `is_running_.store(false)`, and out of its callback, which was
-- given a time.
pub data Thread : Type 0 where
  launched marked expired released : Thread
  asleep called : ℤ → Thread

pub record TimeTick : Type 0 where
  pub time_ms : ℤ
  pub is_expired : Bool
  pub is_running : Bool
  pub threads : List Thread

unfoldable pub make : ℤ → TimeTick
make in_expired_time_ms = record {
  time_ms = in_expired_time_ms;
  is_expired = false;
  is_running = false;
  threads = [];
}

unfoldable pub start : TimeTick → Bool × TimeTick
start s = (true, record s { threads = launched ∷ s.threads })

unfoldable pub update_expired_time : ℤ → TimeTick → Bool × TimeTick
update_expired_time in_expired_time_ms s =
    if s.is_running then (false, s) else (true, record s { time_ms = in_expired_time_ms })

-- What a thread does next, and where it is then. One that has called the callback has ended.
unfoldable pub advance : Thread → TimeTick → Thread × TimeTick
advance launched s = (marked, record s { is_running = true })
advance marked s = (asleep s.time_ms, s)
advance (asleep time) s = (expired, record s { is_expired = true })
advance expired s = (released, record s { is_running = false })
advance released s = (called s.time_ms, s)
advance (called time) s = (called time, s)

pub data Step (s t : TimeTick) : Type 0 where
  starts : t ≡ (start s).1 → Step s t
  updates : (ms : ℤ) → t ≡ (update_expired_time ms s).1 → Step s t
  runs :
      (before after : List Thread) (at : Thread)
      → s.threads ≡ before ++ at ∷ after
      → (let (at', s') = advance at s in t ≡ record s' { threads = before ++ at' ∷ after })
      → Step s t

pub data Reach (s : TimeTick) : TimeTick → Type 0 where
  here : Reach s s
  next : {t u : TimeTick} → Reach s t → Step t u → Reach s u
