-- ===== src/MessageBus/Delivery.antt =====
-- Who gets a message (src/target/o_pocket/context/threadpool/message_bus.hpp).
use device_broker.Prelude.{ℕ, ◌≡◌, refl, true, false, List, [], ◌∷◌, pos, neg, arith}
use device_broker.MessageBus.{
  MessageBus, elem, set_insert, erase, listeners, set_listeners, check_channel, post,
  listener_attach, listener_detach, touch,
}

elem-set_insert : (a : ℕ) (xs : List ℕ) → elem a (set_insert a xs) ≡ true
unfolding elem set_insert
elem-set_insert a [] = ground arith
elem-set_insert a (x ∷ xs) = ground (arith, elem-set_insert a xs)

elem-erase : (a : ℕ) (xs : List ℕ) → elem a (erase a xs) ≡ false
unfolding elem erase
elem-erase a [] = refl
elem-erase a (x ∷ xs) = ground (arith, elem-erase a xs)

listeners-set_listeners :
    (channel : ℕ) (ls : List ℕ) (m : List (ℕ × List ℕ))
    → listeners channel (set_listeners channel ls m) ≡ ls
unfolding listeners set_listeners
listeners-set_listeners channel ls [] = ground arith
listeners-set_listeners channel ls ((c, old) ∷ rest) =
    ground (arith, listeners-set_listeners channel ls rest)

post_calls :
    (channel : ℕ) (b : MessageBus) (ls : List ℕ)
    → check_channel channel b ≡ true
    → listeners channel b.listener_map ≡ ls
    → (post channel b).1 ≡ ls
unfolding post
post_calls channel b [] c e = ground arith
post_calls channel b (l ∷ ls) c e = ground arith

post_answers :
    (channel listener : ℕ) (b : MessageBus)
    → check_channel channel b ≡ true
    → elem listener (listeners channel b.listener_map) ≡ true
    → (post channel b).0 ≡ neg 1
unfolding post elem
post_answers channel listener b c h = answers (listeners channel b.listener_map) refl h
  where
    answers :
        (ls : List ℕ)
        → listeners channel b.listener_map ≡ ls
        → elem listener ls ≡ true
        → (post channel b).0 ≡ neg 1
    answers [] e k = absurd (ground arith)
    answers (l ∷ ls) e k = ground arith

touch_listeners :
    (channel : ℕ) (ls : List ℕ) (b : MessageBus)
    → check_channel channel b ≡ true
    → (post channel (touch channel ls b)).1 ≡ ls
unfolding check_channel
touch_listeners channel ls b c =
    post_calls channel (touch channel ls b) ls c (listeners-set_listeners channel ls b.listener_map)

-- A listener whose attachment is answered by 0 is called by the next post on its channel, which
-- answers -1 all the same, as a post on a channel that is refused does.
attach_then_post :
    (channel listener : ℕ) (b : MessageBus)
    → (listener_attach channel listener b).0 ≡ pos 0
    → let p = post channel (listener_attach channel listener b).1 in
      (elem listener p.1 ≡ true) × (p.0 ≡ neg 1)
unfolding listener_attach
attach_then_post channel listener b h =
    let open_channel : check_channel channel b ≡ true = ground arith in
    let ls = set_insert listener (listeners channel b.listener_map) in
    let attached : (listener_attach channel listener b).1 ≡ touch channel ls b = ground arith in
    rw attached (
      rw (touch_listeners channel ls b open_channel) (elem-set_insert listener _),
      post_answers channel listener (touch channel ls b) open_channel
          (rw (listeners-set_listeners channel ls b.listener_map) (elem-set_insert listener _)),
    )

-- A listener whose detachment is answered by 0 was called by a post before it on the channel, and
-- is not called by one after it.
pub detach_then_post :
    (channel listener : ℕ) (b : MessageBus)
    → (listener_detach channel listener b).0 ≡ pos 0
    → (elem listener (post channel b).1 ≡ true)
      × (elem listener (post channel (listener_detach channel listener b).1).1 ≡ false)
unfolding listener_detach
detach_then_post channel listener b h =
    let open_channel : check_channel channel b ≡ true = ground arith in
    let set = listeners channel b.listener_map in
    let there : elem listener set ≡ true = ground arith in
    let detached : (listener_detach channel listener b).1 ≡ touch channel (erase listener set) b =
      ground arith in
    (
      rw (post_calls channel b set open_channel refl) there,
      rw detached (
          rw (touch_listeners channel (erase listener set) b open_channel)
            (elem-erase listener set)),
    )
