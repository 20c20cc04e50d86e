-- ===== src/HttpServer/Routing.antt =====
-- Which router answers a request (src/target/o_pocket/http/http_handler.{h,cpp}).
use mathlib.Core.Path.{subst}
use mathlib.Core.List.{Memᴰ}
use mathlib.Core.List.Memᴰ.{head, tail}
use device_broker.Prelude.{
  arith, inl, inr, Bool-cases, All, All-map, ◌≡◌, refl, sym, Bool, true, false, Option, none, some,
  List, [], ◌∷◌, nonzero, ◌⊎◌, if◌then◌else◌,
}
use device_broker.HttpServer.{
  RequestInfo, ResponseInfo, Router, clean, call_routers, output_uniform_callback, insert, sort,
  push_back, register_all,
}

-- A router that is disabled, or refuses the request with some response so far and in some state.
abbrev pub Passed : {P W : Type 0} → RequestInfo → Router P W → Type 0
Passed {W = W} request r =
    (r.enable ≡ false)
    ⊎ ((given : ResponseInfo) × (w : W) × (nonzero (r.http_msg_accept request given w).0 ≡ true))

module _ {P W : Type 0} (less : P → P → Bool) where
  -- The answer of a list of routers.
  abbrev pub Answered : RequestInfo → List (Router P W) → ResponseInfo → W → Type 0
  Answered request rs response last =
      (r : Router P W) × Memᴰ r rs
      × (r.enable ≡ true)
      × ((given : ResponseInfo) × (w : W) × (nonzero (r.http_msg_accept request given w).0 ≡ false)
          × ((r.http_msg_accept request given w).1 ≡ response)
          × ((r.http_msg_accept request given w).2 ≡ last))
      × All (λ q. less q.register_priority r.register_priority ≡ true → Passed request q) rs

  -- What becomes of a request: nobody replies, when every router has passed it, or there is an answer.
  abbrev pub Outcome : RequestInfo → List (Router P W) → Option ResponseInfo → W → Type 0
  Outcome request rs none last = All (Passed request) rs
  Outcome request rs (some response) last = Answered request rs response last

module _ {P W : Type 0} (less : P → P → Bool)
    (less_asym : (a b : P) → less a b ≡ true → less b a ≡ false)
    (less_trans : (a b c : P) → less b a ≡ false → less c b ≡ false → less c a ≡ false) where
  abbrev IsSorted : List (Router P W) → Type 0
  IsSorted [] = Unit
  IsSorted (x ∷ xs) =
      All (λ y. less y.register_priority x.register_priority ≡ false) xs × IsSorted xs

  insert-All :
      (Q : Router P W → Type 0) (r : Router P W) (xs : List (Router P W))
      → Q r
      → All Q xs
      → All Q (insert less r xs)
  unfolding insert
  insert-All Q r [] h hs = (h, tt)
  insert-All Q r (x ∷ xs) h hs = elim (Bool-cases (less x.register_priority r.register_priority)) [
    | inl e ↦ rw e ((hs.0, insert-All Q r xs h hs.1))
    | inr e ↦ rw e ((h, hs))
  ]

  insert-IsSorted :
      (r : Router P W) (xs : List (Router P W)) → IsSorted xs → IsSorted (insert less r xs)
  unfolding insert
  insert-IsSorted r [] s = (tt, tt)
  insert-IsSorted r (x ∷ xs) s = elim (Bool-cases (less x.register_priority r.register_priority)) [
    | inl e ↦ rw e (
        (
          insert-All _ r xs (less_asym x.register_priority r.register_priority e) s.0,
          insert-IsSorted r xs s.1,
        ))
    | inr e ↦ rw e (
        (
          (
            e,
            All-map _ _
                (λ y h. less_trans r.register_priority x.register_priority y.register_priority e h)
                xs s.0,
          ),
          s,
        ))
  ]

  sort-IsSorted : (rs : List (Router P W)) → IsSorted (sort less rs)
  unfolding sort
  sort-IsSorted [] = tt
  sort-IsSorted (r ∷ rs) = insert-IsSorted r (sort less rs) (sort-IsSorted rs)

  register_all-IsSorted :
      (rs routers : List (Router P W)) → IsSorted routers → IsSorted (register_all less rs routers)
  unfolding register_all
  register_all-IsSorted [] routers s = s
  register_all-IsSorted (r ∷ rs) routers s =
      register_all-IsSorted rs (sort less (push_back less r routers))
        (sort-IsSorted (push_back less r routers))

  further :
      (request : RequestInfo) (r : Router P W) (rs : List (Router P W))
      (reply : Option ResponseInfo) (last : W)
      → Passed request r
      → Outcome less request rs reply last
      → Outcome less request (r ∷ rs) reply last
  further request r rs none last p others = (p, others)
  further request r rs (some response) last p (q, m, on, call, others) =
      (q, tail m, on, call, ((λ h. p), others))

  -- The outcome of a run of the routers that is known to be another.
  same_outcome :
      (request : RequestInfo) (rs : List (Router P W)) (p q : Option ResponseInfo × W)
      → Path (Option ResponseInfo × W) p q
      → Outcome less request rs q.0 q.1
      → Outcome less request rs p.0 p.1
  same_outcome request rs p q e h = subst (λ x. Outcome less request rs x.0 x.1) (sym e) h

  call_routers-Outcome :
      (request : RequestInfo) (rs : List (Router P W)) (given : ResponseInfo) (w : W)
      → IsSorted rs
      → Outcome less request rs
          (call_routers request rs given w).0
          (call_routers request rs given w).1
  unfolding call_routers
  call_routers-Outcome request [] given w s = tt
  call_routers-Outcome request (r ∷ rs) given w s =
      let written : ResponseInfo = (r.http_msg_accept request given w).1 in
      let next : W = (r.http_msg_accept request given w).2 in
      elim (Bool-cases r.enable) [
        | inr off ↦
            same_outcome request (r ∷ rs) (call_routers request (r ∷ rs) given w)
              (call_routers request rs given w) (simp off)
              (further request r rs (call_routers request rs given w).0
                (call_routers request rs given w).1 (inl off)
                (call_routers-Outcome request rs given w s.1))
        | inl on ↦ elim (Bool-cases (nonzero (r.http_msg_accept request given w).0)) [
          | inl refused ↦
              same_outcome request (r ∷ rs) (call_routers request (r ∷ rs) given w)
                (call_routers request rs written next) (simp (on, refused))
                (further request r rs (call_routers request rs written next).0
                  (call_routers request rs written next).1 (inr (given, w, refused))
                  (call_routers-Outcome request rs written next s.1))
          | inr accepted ↦
              same_outcome request (r ∷ rs) (call_routers request (r ∷ rs) given w)
                (some written, next) (simp (on, accepted))
                (
                  r,
                  head refl,
                  on,
                  (given, w, accepted, refl, refl),
                  (
                    (λ h.
                        absurd
                          (ground (arith, h, less_asym r.register_priority r.register_priority h))),
                    All-map _ _ (λ q not_less is_less. absurd (ground (arith, not_less, is_less)))
                        rs s.0,
                  ),
                )
        ]
      ]

  from_branch :
      (Q : Router P W → Type 0) (r x : Router P W) (xs ys : List (Router P W)) (is_less : Bool)
      → (All Q ys → Q r × All Q xs)
      → All Q (if is_less then x ∷ ys else r ∷ x ∷ xs)
      → Q r × All Q (x ∷ xs)
  from_branch Q r x xs ys true k h = let later = k h.1 in (later.0, (h.0, later.1))
  from_branch Q r x xs ys false k h = h

  insert-All-elements :
      (Q : Router P W → Type 0) (r : Router P W) (xs : List (Router P W))
      → All Q (insert less r xs)
      → Q r × All Q xs
  unfolding insert
  insert-All-elements Q r [] h = h
  insert-All-elements Q r (x ∷ xs) h =
      from_branch Q r x xs (insert less r xs) (less x.register_priority r.register_priority)
        (λ k. insert-All-elements Q r xs k) h

  sort-All : (Q : Router P W → Type 0) (rs : List (Router P W)) → All Q rs → All Q (sort less rs)
  unfolding sort
  sort-All Q [] h = tt
  sort-All Q (r ∷ rs) h = insert-All Q r (sort less rs) h.0 (sort-All Q rs h.1)

  sort-All-elements :
      (Q : Router P W → Type 0) (rs : List (Router P W)) → All Q (sort less rs) → All Q rs
  unfolding sort
  sort-All-elements Q [] h = tt
  sort-All-elements Q (r ∷ rs) h =
      let parts = insert-All-elements Q r (sort less rs) h in
      (parts.0, sort-All-elements Q rs parts.1)

  push_back-All :
      (Q : Router P W → Type 0) (r : Router P W) (xs : List (Router P W))
      → Q r
      → All Q xs
      → All Q (push_back less r xs)
  push_back-All Q r [] h hs = (h, tt)
  push_back-All Q r (x ∷ xs) h hs = (hs.0, push_back-All Q r xs h hs.1)

  push_back-All-elements :
      (Q : Router P W → Type 0) (r : Router P W) (xs : List (Router P W))
      → All Q (push_back less r xs)
      → Q r × All Q xs
  push_back-All-elements Q r [] h = h
  push_back-All-elements Q r (x ∷ xs) h =
      let later = push_back-All-elements Q r xs h.1 in (later.0, (h.0, later.1))

  -- What holds of the routers that are registered holds of those that the server keeps, and the other
  -- way round.
  register_all-All :
      (Q : Router P W → Type 0) (rs routers : List (Router P W))
      → All Q rs
      → All Q routers
      → All Q (register_all less rs routers)
  unfolding register_all
  register_all-All Q [] routers h k = k
  register_all-All Q (r ∷ rs) routers h k =
      register_all-All Q rs (sort less (push_back less r routers)) h.1
        (sort-All Q (push_back less r routers) (push_back-All Q r routers h.0 k))

  register_all-All-elements :
      (Q : Router P W → Type 0) (rs routers : List (Router P W))
      → All Q (register_all less rs routers)
      → All Q rs × All Q routers
  unfolding register_all
  register_all-All-elements Q [] routers h = (tt, h)
  register_all-All-elements Q (r ∷ rs) routers h =
      let kept = register_all-All-elements Q rs (sort less (push_back less r routers)) h in
      let parts =
        push_back-All-elements Q r routers
          (sort-All-elements Q (push_back less r routers) kept.1) in
      ((parts.0, kept.0), parts.1)

  All-self : (rs : List (Router P W)) → All (λ q. Memᴰ q rs) rs
  All-self [] = tt
  All-self (r ∷ rs) = (head refl, All-map _ _ (λ q m. tail m) rs (All-self rs))

  All-Mem :
      (Q : Router P W → Type 0) (r : Router P W) (rs : List (Router P W))
      → All Q rs
      → Memᴰ r rs
      → Q r
  All-Mem Q r [] h m = elim m [ ]
  All-Mem Q r (x ∷ xs) h (head e) = subst Q (sym e) h.0
  All-Mem Q r (x ∷ xs) h (tail m) = All-Mem Q r xs h.1 m

  registered-Outcome :
      (request : RequestInfo) (rs : List (Router P W)) (reply : Option ResponseInfo) (last : W)
      → Outcome less request (register_all less rs []) reply last
      → Outcome less request rs reply last
  registered-Outcome request rs none last h = (register_all-All-elements _ rs [] h).0
  registered-Outcome request rs (some response) last (r, m, on, call, others) =
      let kept = register_all-All (λ q. Memᴰ q rs) rs [] (All-self rs) tt in
      (
        r,
        All-Mem (λ q. Memᴰ q rs) r (register_all less rs []) kept m,
        on,
        call,
        (register_all-All-elements _ rs [] others).0,
      )

  -- A request gets a reply unless every router that was registered is disabled or refuses the request, with
  -- some response so far and in some state of the program. The reply is that of a registered and enabled
  -- router that accepts the request, and every registered router whose priority is less than that router's
  -- is disabled or refuses the request, whatever the order in which the routers were registered. The
  -- comparison of the priorities is asymmetric, and its negation transitive.
  pub output_uniform_callback-Outcome :
      (request : RequestInfo) (rs : List (Router P W)) (w : W)
      → let (reply, last) = output_uniform_callback true request (register_all less rs []) w in
        Outcome less request rs reply last
  unfolding output_uniform_callback
  output_uniform_callback-Outcome request rs w =
      let kept = register_all less rs [] in
      registered-Outcome request rs (call_routers request kept clean w).0
        (call_routers request kept clean w).1
        (call_routers-Outcome request kept clean w (register_all-IsSorted rs [] tt))
