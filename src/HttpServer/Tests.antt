-- ===== src/HttpServer/Tests.antt =====
-- Runs of the model of src/target/o_pocket/http.
use device_broker.Prelude.{
  arith, ℕ, ◌+◌, ◌≡◌, refl, Bool, true, false, some, List, [], ◌∷◌, ℤ, pos, neg, ltb, leb,
}
use device_broker.HttpServer.{
  RequestInfo, Router, clean, call_routers, output_uniform_callback, insert, sort, register_all,
  Mongoose, MgHttpServer, make, listen_all, launch,
}
use device_broker.HttpServer.Launched.{launch-ends}
use device_broker.HttpServer.Routing.{Answered, output_uniform_callback-Outcome}

-- The world counts the routers that are asked.
abbrev refusing : ℕ → Bool → Router ℕ ℕ
refusing n enable = record {
  register_priority = n;
  enable = enable;
  http_msg_accept = λ request given w. (neg 1, given, w + 1);
}

abbrev answering : ℕ → ℤ → Router ℕ ℕ
answering n errcode = record {
  register_priority = n;
  enable = true;
  http_msg_accept = λ request given w. (pos 0, record given { errcode = errcode }, w + 1);
}

abbrev routers : List (Router ℕ ℕ)
routers = answering 9 (pos 500) ∷ refusing 0 true ∷ answering 4 (pos 200) ∷ refusing 2 false ∷ []

abbrev get : RequestInfo
get = record { method = "GET"; uri = "/device_service/log"; body = "" }

ltb_asym : (a b : ℕ) → ltb a b ≡ true → ltb b a ≡ false
ltb_asym a b h = ground arith

ltb_trans : (a b c : ℕ) → ltb b a ≡ false → ltb c b ≡ false → ltb c a ≡ false
ltb_trans a b c h k = ground arith

output_uniform_callback-Outcome_example :
    Answered ltb get routers (record clean { errcode = pos 200 }) 2
unfolding register_all sort insert output_uniform_callback call_routers
output_uniform_callback-Outcome_example =
    output_uniform_callback-Outcome ltb ltb_asym ltb_trans get routers 0

-- A place where only one address is free.
abbrev one_address : Mongoose ℕ
one_address = record {
  mgr_init = λ w. w;
  http_listen = λ url w. (ltb w 1, w + 1);
  mgr_poll = λ w. w;
  mgr_free = λ w. 0;
}

abbrev two_addresses : MgHttpServer
two_addresses = make (
    record { listen_url = "http://0.0.0.0:8000"; has_callback = true }
    ∷ record { listen_url = "http://0.0.0.0:8001"; has_callback = true }
    ∷ [])

launch-ends_example :
    (thrown : Bool) × (t : MgHttpServer) × (v : ℕ) × (launch one_address (leb 3) 4 two_addresses 0
      ≡ some (thrown, t, v))
    × (t.is_running ≡ thrown)
    × (thrown ≡ false → t.to_stop ≡ false)
    × (thrown ≡ true
        → (later : ℕ → Bool) (k : ℕ) (u : ℕ) → launch one_address later k t u ≡ some (false, t, u))
    × (thrown ≡ true)
unfolding listen_all
launch-ends_example = launch-ends one_address (leb 3) 3 4 two_addresses 0 refl refl (omega arith)
