-- ===== src/MessageBus/Tests.antt =====
-- The bus at concrete channels (src/target/o_pocket/context/threadpool/message_bus.hpp).
use device_broker.Prelude.{◌≡◌, refl, true, false, [], ◌∷◌, neg}
use device_broker.MessageBus.{MessageBus, make, post, channel_register}

-- A strict bus with channel 1, on which listeners 7 and 9 listen.
abbrev bus : MessageBus
bus = record { is_strict_channel = true; listener_map = (1, 7 ∷ 9 ∷ []) ∷ []; channel_set = 1 ∷ [] }

refuses_unknown : post 2 bus ≡ (neg 1, [], bus)
unfolding post
refuses_unknown = refl

-- A bus that is not strict refuses every registration.
loose_register : (channel_register 1 (make false)).0 ≡ neg 1
unfolding channel_register make
loose_register = refl
