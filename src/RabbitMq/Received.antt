-- ===== src/RabbitMq/Received.antt =====
-- What becomes of a message that src/target/o_pocket/io/rabbitmq_handle.cpp asks for, and how the
-- connection numbers its failures.
use device_broker.Prelude.{
  ◌≡◌, sym, ap, ◌∙◌, false, not, ◌==◌, Bool-cases, arith, if◌then◌else◌, inl, inr, String, List, [],
  ◌∷◌, ℤ, pos, neg,
}
use device_broker.FileSystem.Steps.{Ends, first_failure, first_failure-Ends}
use device_broker.FileSystem.Throwing.{Action, done, and_then}
use device_broker.RabbitMq.{
  Client, get_empty_method, response_normal, Settings, send, receive, one, try_it, login_both,
  open_channels, bind_queues, connection, receive_message,
}

-- The broker's queue, as the protocol documents a get without acknowledgement: a get that takes a
-- message takes the first one off the queue, and it is the next one to be read; one that finds no message
-- changes nothing. Of a get that fails nothing is documented, and nothing is supposed.
pub record Queue {S : Type 0} (client : Client S) (queue : String) : Type 0 where
  pub pending : S → List String
  pub next : S → String
  pub get_empty :
      (s : S)
      → (client.basic_get queue s).0.id ≡ get_empty_method
      → pending (client.basic_get queue s).1 ≡ pending s
  pub get_taken :
      (s : S)
      → ((client.basic_get queue s).0.id == get_empty_method) ≡ false
      → (client.basic_get queue s).0.reply_type ≡ response_normal
      → pending s ≡ next (client.basic_get queue s).1 ∷ pending (client.basic_get queue s).1
  pub read : (s : S) → pending (client.read_message s).1 ≡ pending s
  pub read_some :
      (s : S) → (client.read_message s).0.0 ≡ response_normal → (client.read_message s).0.1 ≡ next s

-- How a call ends: with a message, the first one that was queued; without one, the queue and the caller's
-- text as they were; by a get that failed, the caller's text as it was; or with the first message lost.
pub data Received (task : String) (before after : List String) : ℤ × String → Type 0 where
  got : (m : String) → before ≡ m ∷ after → Received task before after (pos 0, m)
  nothing : before ≡ after → Received task before after (neg 1, task)
  broken : Received task before after (neg 2, task)
  lost : (m : String) → before ≡ m ∷ after → Received task before after (neg 3, task)

module _ {S : Type 0} (client : Client S) (c : Settings) where
  abbrev pub connection_steps : List (Action S ℤ)
  connection_steps =
      one client (client.new_connection send)
      ∷ one client (client.new_connection receive)
      ∷ one client (client.tcp_socket_new send)
      ∷ one client (client.tcp_socket_new receive)
      ∷ try_it client (client.socket_open send c.hostname c.port)
      ∷ try_it client (client.socket_open receive c.hostname c.port)
      ∷ login_both client c
      ∷ open_channels client
      ∷ bind_queues client c
      ∷ []

  -- A connection is made in nine steps, in this order, and each on the state that the one before left:
  -- the two handles, the two sockets, the two addresses, the logins, the channels, the bindings. The
  -- first that fails is the last one taken, and the answer is minus its number, or 0.
  pub connection-Ends : (s : S) → Ends 1 connection_steps s (connection client c s)
  unfolding connection first_failure
  connection-Ends s = first_failure-Ends 1 connection_steps s

  module _ (q : Queue client c.receive_queue_name) where
    -- What is taken is read, or lost.
    read-Received :
        (task : String) (s t : S)
        → q.pending s ≡ q.next t ∷ q.pending t
        → let (message, u) = client.read_message t in
          Received task
            (q.pending s)
            (q.pending u)
            (if not (message.0 == response_normal) then (neg 3, task) else (pos 0, message.1))
    read-Received task s t queued =
        let o = client.read_message t in
        let left : q.pending s ≡ q.next t ∷ q.pending o.1 =
          queued ∙ ap (λ ms. q.next t ∷ ms) (sym (q.read t)) in
        elim (Bool-cases (o.0.0 == response_normal)) [
          | inr fails ↦ rw fails (lost (q.next t) left)
          | inl works ↦ rw works (
              got o.0.1
                (left ∙ ap (λ n. n ∷ q.pending o.1) (sym (q.read_some t (ground (arith, works))))))
        ]

    -- A call ends, and its answer says what became of the broker's queue: 0 with the first message, which
    -- is off the queue; -1 with the queue and the caller's text as they were; -2, where the get failed, with
    -- the caller's text as it was; or -3, and the first message is off the queue and lost.
    pub receive_message-Received :
        (task : String) (s : S)
        → (r : ℤ × String) × (t : S) × (receive_message client c task s ≡ (done r, t))
          × Received task (q.pending s) (q.pending t) r
    unfolding receive_message
    receive_message-Received task s =
        let (reply, t) = client.basic_get c.receive_queue_name s in
        elim (Bool-cases (reply.id == get_empty_method)) [
          | inl e ↦ (
            (neg 1, task),
            t,
            simp (e, and_then),
            nothing (sym (q.get_empty s (ground (arith, e)))),
          )
          | inr e ↦ elim (Bool-cases (reply.reply_type == response_normal)) [
            | inr f ↦ ((neg 2, task), t, simp (e, f, and_then), broken)
            | inl f ↦ (
              (if not ((client.read_message t).0.0 == response_normal)
                  then (neg 3, task)
                  else (pos 0, (client.read_message t).0.1)),
              (client.read_message t).1,
              simp (e, f, and_then),
              read-Received task s t (q.get_taken s e (ground (arith, f))),
            )
          ]
        ]
