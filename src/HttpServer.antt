-- ===== src/HttpServer.antt =====
-- src/target/o_pocket/http/http_server.{h,cpp} and http_handler.{h,cpp}: the server's launch and stop,
-- the list of routers, and the callback that asks them. What mongoose does is a parameter.
mod Routing
pub mod Launched
mod Tests
use Prim.Native.String.{◌++◌}
use device_broker.Prelude.{
  ℕ, zero, suc, ◌+◌, String, Bool, true, false, not, Option, none, some, List, [], ◌∷◌, ℤ, pos, neg,
  nonzero, if◌then◌else◌,
}

-- RequestInfo, without the addresses of the two ends of the connection.
pub record RequestInfo : Type 0 where
  pub method : String
  pub uri : String
  pub body : String

pub record ResponseInfo : Type 0 where
  pub errcode : ℤ
  pub header : String
  pub body : String

pub record ResponseHeader : Type 0 where
  pub key : String
  pub value : String

unfoldable pub reponse_header_splice : List ResponseHeader → String
reponse_header_splice [] = ""
reponse_header_splice (h ∷ hs) = h.key ++ ": " ++ h.value ++ "\r\n" ++ reponse_header_splice hs

-- A router without its name, over its world: `http_msg_accept` answers 0 where it has handled the request.
pub record Router (P W : Type 0) : Type 0 where
  pub register_priority : P
  pub enable : Bool
  pub http_msg_accept : RequestInfo → ResponseInfo → W → ℤ × ResponseInfo × W

abbrev pub clean : ResponseInfo
clean = record { errcode = pos 0; header = ""; body = "" }

module _ {P W : Type 0} where
  -- The loop of output_uniform_callback, with the response that the routers share. `none`: nobody replies.
  unfoldable pub call_routers :
      RequestInfo → List (Router P W) → ResponseInfo → W → Option ResponseInfo × W
  call_routers request [] response w = (none, w)
  call_routers request (r ∷ rs) response w =
      let skipped = call_routers request rs response w in
      let (ret, written, next) = r.http_msg_accept request response w in
      let asked = call_routers request rs written next in
      if not r.enable then skipped else if nonzero ret then asked else (some written, next)

  unfoldable pub output_uniform_callback :
      (is_http_msg : Bool) → RequestInfo → List (Router P W) → W → Option ResponseInfo × W
  unfolding call_routers
  output_uniform_callback is_http_msg request routers w =
      let asked = call_routers request routers clean w in if is_http_msg then asked else (none, w)

  unfoldable pub router_list_check : List (Router P W) → Bool
  router_list_check [] = false
  router_list_check (r ∷ rs) = let rest = router_list_check rs in if r.enable then true else rest

  -- std::list::sort, which is stable, with the comparison of the priorities.
  module _ (less : P → P → Bool) where
    unfoldable pub insert : Router P W → List (Router P W) → List (Router P W)
    insert r [] = r ∷ []
    insert r (x ∷ xs) =
        let later = insert r xs in
        if less x.register_priority r.register_priority then x ∷ later else r ∷ x ∷ xs

    unfoldable pub sort : List (Router P W) → List (Router P W)
    unfolding insert
    sort [] = []
    sort (r ∷ rs) = insert r (sort rs)

    abbrev pub push_back : Router P W → List (Router P W) → List (Router P W)
    push_back r [] = r ∷ []
    push_back r (x ∷ xs) = x ∷ push_back r xs

    -- static_register_and_add_router, for one router after another.
    unfoldable pub register_all : List (Router P W) → List (Router P W) → List (Router P W)
    unfolding sort
    register_all [] routers = routers
    register_all (r ∷ rs) routers = register_all rs (sort (push_back r routers))

-- What mongoose does: listening on an address, a poll, in which the callbacks run, and the end.
pub record Mongoose (W : Type 0) : Type 0 where
  pub mgr_init : W → W
  pub http_listen : String → W → Bool × W
  pub mgr_poll : W → W
  pub mgr_free : W → W

-- An address, and whether it has a callback.
pub record HttpServerConnect : Type 0 where
  pub listen_url : String
  pub has_callback : Bool

pub record MgHttpServer : Type 0 where
  pub vec_connect : List HttpServerConnect
  pub to_stop : Bool
  pub is_running : Bool

abbrev pub make : List HttpServerConnect → MgHttpServer
make connects = record { vec_connect = connects; to_stop = false; is_running = false }

-- `to_stop`, also the destructor.
abbrev pub stop : MgHttpServer → MgHttpServer
stop s = if s.is_running then record s { to_stop = true } else s

abbrev pub check_connect_info : List HttpServerConnect → ℤ
check_connect_info [] = pos 0
check_connect_info (c ∷ cs) =
    let rest = check_connect_info cs in if c.has_callback then rest else neg 1

-- How a function ends.
pub data Ended (W : Type 0) : Type 0 where
  returned : W → Ended W
  threw : W → Ended W

module _ {W : Type 0} (mongoose : Mongoose W) where
  unfoldable pub listen_all : List HttpServerConnect → W → Bool × W
  listen_all [] w = (true, w)
  listen_all (c ∷ cs) w =
      let (listens, next) = mongoose.http_listen c.listen_url w in
      let rest = listen_all cs next in if listens then rest else (false, next)

  -- The loop: `ends n` tells whether the n-th test sees the stop or the signal. It takes fuel.
  unfoldable pub poll_loop : (ends : ℕ → Bool) → (fuel n : ℕ) → W → Option W
  poll_loop ends zero n w = none
  poll_loop ends (suc fuel) n w =
      let rest = poll_loop ends fuel (n + 1) (mongoose.mgr_poll w) in
      if ends n then some w else rest

  unfoldable pub do_connect : (ends : ℕ → Bool) → ℕ → List HttpServerConnect → W → Option (Ended W)
  unfolding listen_all poll_loop
  do_connect ends fuel connects w =
      let (listens, next) = listen_all connects (mongoose.mgr_init w) in
      if nonzero (check_connect_info connects)
      then some (returned w)
      else if not listens
      then some (threw next)
      else elim (poll_loop ends fuel 0 next) [
        | none ↦ none
        | some last ↦ some (returned (mongoose.mgr_free last))
      ]

  -- Whether it throws, and the server after it.
  unfoldable pub launch :
      (ends : ℕ → Bool) → ℕ → MgHttpServer → W → Option (Bool × MgHttpServer × W)
  unfolding do_connect
  launch ends fuel s w =
      if s.is_running then some (false, s, w) else elim (do_connect ends fuel s.vec_connect w) [
        | none ↦ none
        | some (threw last) ↦ some (true, record s { is_running = true }, last)
        | some (returned last) ↦
            some (false, record s { is_running = false; to_stop = false }, last)
      ]
