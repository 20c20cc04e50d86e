-- ===== src/RabbitMq/Tests.antt =====
-- The connections to a broker with a queue in memory (src/target/o_pocket/io/rabbitmq_handle.cpp).
use device_broker.Prelude.{◌==◌, String, true, false, none, List, [], ◌∷◌, ◌≡◌, refl, ℤ, pos, arith}
use device_broker.FileSystem.Throwing.{done}
use device_broker.RabbitMq.{
  Client, Reply, get_empty_method, Settings, Req, settings_of, make, receive_message,
}
use device_broker.RabbitMq.Received.{Queue, Received, receive_message-Received}

-- What is queued, and what was taken last.
pub record Broker : Type 0 where
  pub queued : List String
  pub last : String

abbrev get : List String → Broker → Reply × Broker
get [] b = (record { id = get_empty_method; reply_type = 1 }, b)
get (m ∷ ms) b = (record { id = 3932231; reply_type = 1 }, record { queued = ms; last = m })

abbrev client : Client Broker
client = record {
  new_connection = λ side b. (true, b);
  tcp_socket_new = λ side b. (true, b);
  socket_open = λ side host port b. (pos 0, b);
  login = λ side v u p b. (true, b);
  channel_open = λ side b. b;
  channel_reply = λ side b. (true, b);
  queue_bind = λ side q e k b. (true, b);
  basic_publish = λ e k m b. (pos 0, b);
  basic_get = λ q b. get b.queued b;
  read_message = λ b. ((1, b.last), b);
  close = λ side b. b;
}

abbrev nothing_given : Req
nothing_given = record {
  parses = false;
  hostname = none;
  port = none;
  username = none;
  password = none;
  exchange = none;
  vhost = none;
  receive_routing_key = none;
  receive_queue_name = none;
  send_routing_key = none;
  send_queue_name = none;
}

abbrev settings : Settings
settings = settings_of (pos 5672) nothing_given

abbrev two : Broker
two = record { queued = "a" ∷ "b" ∷ []; last = "" }

-- A text that does not parse is no obstacle: the state is the connection's.
unread_settings : (make client (pos 5672) nothing_given two).0 ≡ done (settings, pos 0)
unfolding make settings_of
unread_settings = refl

get-empty :
    (ms : List String) (b : Broker)
    → b.queued ≡ ms
    → (get ms b).0.id ≡ get_empty_method
    → (get ms b).1.queued ≡ b.queued
get-empty [] b q e = refl
get-empty (m ∷ ms) b q e = ground (arith, e)

get-taken :
    (ms : List String) (b : Broker)
    → ((get ms b).0.id == get_empty_method) ≡ false
    → ms ≡ (get ms b).1.last ∷ (get ms b).1.queued
get-taken [] b e = ground (arith, e)
get-taken (m ∷ ms) b e = refl

abbrev queue : Queue client settings.receive_queue_name
queue = record {
  pending = λ b. b.queued;
  next = λ b. b.last;
  get_empty = λ s e. get-empty s.queued s refl e;
  get_taken = λ s e f. get-taken s.queued s e;
  read = λ s. refl;
  read_some = λ s e. refl;
}

receive_message-Received_example :
    (r : ℤ × String) × (t : Broker) × (receive_message client settings "" two ≡ (done r, t))
    × Received "" ("a" ∷ "b" ∷ []) t.queued r
receive_message-Received_example = receive_message-Received client settings queue "" two
