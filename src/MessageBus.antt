-- ===== src/MessageBus.antt =====
-- src/target/o_pocket/context/threadpool/message_bus.hpp, class MessageBus over `int` channels, the
-- one that the objective holds. A channel is known by its number, a listener by its address, in
-- whose order a set keeps it. What a listener does with a message is its own; an operation gives
-- the listeners that it calls, in order.
pub mod Delivery
mod Tests
use device_broker.Prelude.{
  ℕ, String, Bool, true, false, not, ◌&&◌, Option, none, some, List, [], ◌∷◌, ◌++◌, ℤ, pos, neg,
  ltb, ◌==◌, if◌then◌else◌, map,
}

pub record MessageBus : Type 0 where
  pub is_strict_channel : Bool
  pub listener_map : List (ℕ × List ℕ)
  pub channel_set : List ℕ

unfoldable pub make : Bool → MessageBus
make is_strict = record { is_strict_channel = is_strict; listener_map = []; channel_set = [] }

unfoldable pub elem : ℕ → List ℕ → Bool
elem a [] = false
elem a (x ∷ xs) = if x == a then true else elem a xs

-- std::set::insert
unfoldable pub set_insert : ℕ → List ℕ → List ℕ
set_insert a [] = a ∷ []
set_insert a (x ∷ xs) =
    if x == a then x ∷ xs else if ltb a x then a ∷ x ∷ xs else x ∷ set_insert a xs

-- The loop that erases what equals a.
unfoldable pub erase : ℕ → List ℕ → List ℕ
erase a [] = []
erase a (x ∷ xs) = if x == a then erase a xs else x ∷ erase a xs

-- `listener_map_[channel]` as it is read, and as it is set, which makes the entry if need be.
unfoldable pub listeners : ℕ → List (ℕ × List ℕ) → List ℕ
listeners channel [] = []
listeners channel ((c, ls) ∷ rest) = if c == channel then ls else listeners channel rest

unfoldable pub set_listeners : ℕ → List ℕ → List (ℕ × List ℕ) → List (ℕ × List ℕ)
set_listeners channel ls [] = (channel, ls) ∷ []
set_listeners channel ls ((c, old) ∷ rest) =
    if c == channel
    then (c, ls) ∷ rest
    else if ltb channel c
    then (channel, ls) ∷ (c, old) ∷ rest
    else (c, old) ∷ set_listeners channel ls rest

abbrev pub touch : ℕ → List ℕ → MessageBus → MessageBus
touch channel ls b = record b { listener_map = set_listeners channel ls b.listener_map }

unfoldable pub check_channel : ℕ → MessageBus → Bool
unfolding elem
check_channel channel b = if b.is_strict_channel then elem channel b.channel_set else true

-- The answer, the listeners called, and the bus.
unfoldable pub post : ℕ → MessageBus → ℤ × List ℕ × MessageBus
unfolding check_channel listeners set_listeners
post channel b =
    let set = listeners channel b.listener_map in
    if not (check_channel channel b) then (neg 1, [], b) else (elim set [
      | [] ↦ (neg 2, [], touch channel [] b)
      | l ∷ ls ↦ (neg 1, l ∷ ls, touch channel (l ∷ ls) b)
    ])

abbrev label : ℕ × List ℕ → List (ℕ × ℕ)
label (c, ls) = map (λ l. (c, l)) ls

-- Each channel with each of its listeners, in order.
unfoldable pub broadcast : List (ℕ × List ℕ) → List (ℕ × ℕ)
broadcast [] = []
broadcast (item ∷ items) = label item ++ broadcast items

unfoldable pub channel_register : ℕ → MessageBus → ℤ × MessageBus
unfolding check_channel set_insert
channel_register channel b =
    if check_channel channel b
    then (neg 1, b)
    else (pos 0, record b { channel_set = set_insert channel b.channel_set })

unfoldable pub channel_cancel : ℕ → MessageBus → ℤ × MessageBus
unfolding elem erase
channel_cancel channel b =
    if elem channel b.channel_set
    then (pos 0, record b { channel_set = erase channel b.channel_set })
    else (neg 1, b)

unfoldable pub listener_attach : ℕ → ℕ → MessageBus → ℤ × MessageBus
unfolding check_channel listeners set_insert set_listeners
listener_attach channel listener b =
    if not (check_channel channel b)
    then (neg 1, b)
    else (pos 0, touch channel (set_insert listener (listeners channel b.listener_map)) b)

unfoldable pub listener_detach : ℕ → ℕ → MessageBus → ℤ × MessageBus
unfolding check_channel listeners erase elem set_listeners
listener_detach channel listener b =
    let set = listeners channel b.listener_map in
    if not (check_channel channel b)
    then (neg 1, b)
    else (if elem listener set then pos 0 else neg 2, touch channel (erase listener set) b)
