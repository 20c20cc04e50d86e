-- ===== src/Messages/Tests.antt =====
-- The message queue's properties at a concrete history (src/target/o_pocket/io/message_manager.h).
use device_broker.Prelude.{ℕ, ◌+◌, ◌≤◌, ◌≡◌, refl, true, false, [], ◌∷◌, ◌++◌, pos}
use device_broker.Messages.{idle, make, add_receive, add_acquire, add_push, enable}
use device_broker.Messages.Bounded.{Traffic, Step, Reach, fresh, queue_bounded}

-- One message delivered and queued, by a manager for two.
abbrev one_queued : Traffic
one_queued = record {
  manage = record { sem = pos 1; queue = "a" ∷ []; stop = false; state = true; adder = idle };
  delivered = "a" ∷ [];
  taken = [];
}

delivers : Reach (fresh 2) one_queued
unfolding make enable add_receive add_acquire add_push
delivers =
    let r1 = Reach.next Reach.here (Step.enables refl) in
    let r2 = Reach.next r1 (Step.gets_message "a" refl refl refl refl) in
    let r3 = Reach.next r2 (Step.gets_permit "a" refl refl refl) in
    Reach.next r3 (Step.pushes "a" refl refl)

queue_bounded_example :
    (free : ℕ) × (pos 1 ≡ pos free)
    × (free + 1 + 0 ≡ 2)
    × (1 ≤ 2)
    × (one_queued.delivered ≡ one_queued.taken ++ one_queued.manage.queue ++ [])
queue_bounded_example = queue_bounded 2 delivers
