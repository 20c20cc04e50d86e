-- ===== src/RabbitMq.antt =====
-- src/target/o_pocket/io/rabbitmq_handle.{h,cpp}: the two connections to the message broker. librabbitmq
-- is a library outside the repository: a `Client` has a field for each of its functions that is called,
-- over what is on the network and in the broker.
mod Received
mod Tests
use device_broker.Prelude.{
  ℕ, ◌==◌, String, Bool, true, false, not, ◌||◌, ◌&&◌, Option, none, some, ℤ, pos, neg, nonzero,
  if◌then◌else◌,
}
use device_broker.FileSystem.Throwing.{Action, Outcome, done, pure, ◌>>=◌}
use device_broker.TestbedParam.Text.{unquote}

-- Which of the two connections.
pub data Side : Type 0 where
  send receive : Side

-- What the code looks at of an `amqp_rpc_reply_t`.
pub record Reply : Type 0 where
  pub id : ℕ
  pub reply_type : ℕ

-- AMQP_BASIC_GET_EMPTY_METHOD and AMQP_RESPONSE_NORMAL.
abbrev pub get_empty_method : ℕ
get_empty_method = 3932232

abbrev pub response_normal : ℕ
response_normal = 1

pub record Client (S : Type 0) : Type 0 where
  pub new_connection : Side → S → Bool × S
  pub tcp_socket_new : Side → S → Bool × S
  pub socket_open : Side → String → ℤ → S → ℤ × S
  pub login : Side → (vhost username password : String) → S → Bool × S
  pub channel_open : Side → S → S
  pub channel_reply : Side → S → Bool × S
  pub queue_bind : Side → (queue exchange key : String) → S → Bool × S
  pub basic_publish : (exchange key message : String) → S → ℤ × S
  pub basic_get : (queue : String) → S → Reply × S
  pub read_message : S → (ℕ × String) × S
  pub close : Side → S → S

pub record Settings : Type 0 where
  pub hostname : String
  pub port : ℤ
  pub username : String
  pub password : String
  pub exchange : String
  pub vhost : String
  pub receive_routing_key : String
  pub receive_queue_name : String
  pub send_routing_key : String
  pub send_queue_name : String

-- What `contains` and the conversions find, all of them `none` where the text does not parse.
pub record Req : Type 0 where
  pub parses : Bool
  pub hostname : Option String
  pub port : Option ℤ
  pub username : Option String
  pub password : Option String
  pub exchange : Option String
  pub vhost : Option String
  pub receive_routing_key : Option String
  pub receive_queue_name : Option String
  pub send_routing_key : Option String
  pub send_queue_name : Option String

abbrev text : Option String → String
text none = ""
text (some s) = unquote s

abbrev number : ℤ → Option ℤ → ℤ
number garbage none = garbage
number garbage (some n) = n

-- A port that is missing is not initialised: what it holds is an argument.
unfoldable pub settings_of : ℤ → Req → Settings
settings_of garbage req = record {
  hostname = text req.hostname;
  port = number garbage req.port;
  username = text req.username;
  password = text req.password;
  exchange = text req.exchange;
  vhost = text req.vhost;
  receive_routing_key = text req.receive_routing_key;
  receive_queue_name = text req.receive_queue_name;
  send_routing_key = text req.send_routing_key;
  send_queue_name = text req.send_queue_name;
}

module _ {S : Type 0} (client : Client S) where
  abbrev pub try_it : {A : Type 0} → (S → A × S) → Action S A
  try_it m s = let (a, t) = m s in pure a t

  abbrev code_if : Bool → ℤ
  code_if true = pos 0
  code_if false = neg 1

  -- A call that answers whether it succeeded, and the same of two calls, both of which are made.
  abbrev pub one : (S → Bool × S) → Action S ℤ
  one m s = let (b, t) = m s in pure (code_if b) t

  abbrev pub both : (m n : S → Bool × S) → Action S ℤ
  both m n s = let (b, t) = m s in let (c, u) = n t in pure (code_if (b && c)) u

  -- The channels are opened before their replies are read.
  abbrev pub open_channels : Action S ℤ
  open_channels s =
      both (client.channel_reply send) (client.channel_reply receive)
        (client.channel_open receive (client.channel_open send s))

  -- Each queue is bound over the other one's connection.
  abbrev pub bind_queues : Settings → Action S ℤ
  bind_queues c =
      both (client.queue_bind send c.receive_queue_name c.exchange c.receive_routing_key)
        (client.queue_bind receive c.send_queue_name c.exchange c.send_routing_key)

  abbrev pub login_both : Settings → Action S ℤ
  login_both c =
      both (client.login send c.vhost c.username c.password)
        (client.login receive c.vhost c.username c.password)

  unfoldable pub connection : Settings → Action S ℤ
  connection c = do
    sendConn ← one (client.new_connection send)
    if nonzero sendConn then pure (neg 1) else do
      receiveConn ← one (client.new_connection receive)
      if nonzero receiveConn then pure (neg 2) else do
        sendSocket ← one (client.tcp_socket_new send)
        if nonzero sendSocket then pure (neg 3) else do
          receiveSocket ← one (client.tcp_socket_new receive)
          if nonzero receiveSocket then pure (neg 4) else do
            status ← try_it (client.socket_open send c.hostname c.port)
            if nonzero status then pure (neg 5) else do
              status ← try_it (client.socket_open receive c.hostname c.port)
              if nonzero status then pure (neg 6) else do
                login_reply ← login_both c
                if nonzero login_reply then pure (neg 7) else do
                  channel_reply ← open_channels
                  if nonzero channel_reply then pure (neg 8) else do
                    ret ← bind_queues c
                    if nonzero ret then pure (neg 9) else pure (pos 0)

  -- The constructor: the handler's settings and its `state_`, which the connection's answer overwrites.
  unfoldable pub make : ℤ → Req → Action S (Settings × ℤ)
  unfolding settings_of connection
  make garbage req = do
    state ← connection (settings_of garbage req)
    pure (settings_of garbage req, state)

  unfoldable pub send_message : Settings → String → Action S ℤ
  send_message c message = do
    ret ← try_it (client.basic_publish c.exchange c.send_routing_key message)
    if nonzero ret then pure ret else pure (pos 0)

  -- The answer, and what `task` holds after it. The message is asked for without an acknowledgement.
  unfoldable pub receive_message : Settings → (task : String) → Action S (ℤ × String)
  receive_message c task = do
    res_get_ok ← try_it (client.basic_get c.receive_queue_name)
    if res_get_ok.id == get_empty_method
        then pure (neg 1, task)
        else if not (res_get_ok.reply_type == response_normal)
        then pure (neg 2, task)
        else do
          message ← try_it client.read_message
          pure (if not (message.0 == response_normal) then (neg 3, task) else (pos 0, message.1))

  unfoldable pub disconnection : S → S
  disconnection s = client.close receive (client.close send s)
