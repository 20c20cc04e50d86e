-- ===== src/HttpServer/Launched.antt =====
-- How a launch of src/target/o_pocket/http/http_server.cpp ends.
use native.Mathlib.Nat.{add-zero}
use device_broker.Prelude.{
  ap, inl, inr, Bool-cases, ℕ, zero, suc, ◌+◌, ◌<◌, ◌≡◌, refl, Bool, true, false, not, some,
  nonzero, arith, ◌∙◌, sym, if◌then◌else◌,
}
use device_broker.HttpServer.{
  Mongoose, MgHttpServer, check_connect_info, listen_all, poll_loop, do_connect, launch,
}

module _ {W : Type 0} (mongoose : Mongoose W) (ends : ℕ → Bool) where
  poll_loop-ends :
      (n fuel m : ℕ) (w : W)
      → ends (m + n) ≡ true
      → n < fuel
      → (v : W) × (poll_loop mongoose ends fuel m w ≡ some v)
  unfolding poll_loop
  poll_loop-ends n zero m w s h = absurd (omega arith)
  poll_loop-ends zero (suc fuel) m w s h =
      let now : ends m ≡ true = ap ends (sym (add-zero m)) ∙ s in (w, simp now)
  poll_loop-ends (suc k) (suc fuel) m w s h =
      let next : m + 1 + k ≡ m + suc k = omega arith in
      let (v, e) =
        poll_loop-ends k fuel (m + 1) (mongoose.mgr_poll w) (ap ends next ∙ s) (omega arith) in
      elim (Bool-cases (ends m)) [ inl now ↦ (w, simp now) | inr later ↦ (v, simp (later, e)) ]

  -- A launch of a server at rest ends once its loop sees the stop or the signal. Where it throws, the
  -- server counts as running: each later launch returns at once, with nothing done. Where it returns,
  -- the server is at rest again, with no stop pending. It throws where every address has a callback and
  -- one of them cannot be listened on, and only there.
  pub launch-ends :
      (n fuel : ℕ) (s : MgHttpServer) (w : W)
      → s.is_running ≡ false
      → ends n ≡ true
      → n < fuel
      → (thrown : Bool) × (t : MgHttpServer) × (v : W) × (launch mongoose ends fuel s w
          ≡ some (thrown, t, v))
        × (t.is_running ≡ thrown)
        × (thrown ≡ false → t.to_stop ≡ false)
        × (thrown ≡ true
            → (later : ℕ → Bool) (k : ℕ) (u : W) → launch mongoose later k t u ≡ some (false, t, u))
        × (thrown ≡ (
            if nonzero (check_connect_info s.vec_connect)
            then false
            else not (listen_all mongoose s.vec_connect (mongoose.mgr_init w)).0))
  unfolding launch do_connect
  launch-ends n fuel s w rest stop enough =
      let idle : MgHttpServer = record s { is_running = false; to_stop = false } in
      let start : W = (listen_all mongoose s.vec_connect (mongoose.mgr_init w)).1 in
      elim (Bool-cases (nonzero (check_connect_info s.vec_connect))) [
        | inl refused ↦ (
          false,
          idle,
          w,
          simp (rest, refused),
          refl,
          λ e. refl,
          λ e. absurd (ground (arith, e)),
          simp refused,
        )
        | inr accepted ↦
            elim (Bool-cases (listen_all mongoose s.vec_connect (mongoose.mgr_init w)).0) [
              | inl listens ↦
                  (let (v, e) =
                      poll_loop-ends n fuel 0 start (ap ends (omega arith) ∙ stop) enough in
                    (
                      false,
                      idle,
                      mongoose.mgr_free v,
                      simp (rest, accepted, listens, e),
                      refl,
                      λ e. refl,
                      λ e. absurd (ground (arith, e)),
                      simp (accepted, listens),
                    ))
              | inr fails ↦ (
                true,
                record s { is_running = true },
                start,
                simp (rest, accepted, fails),
                refl,
                λ e. absurd (ground (arith, e)),
                λ e later k u. refl,
                simp (accepted, fails),
              )
            ]
      ]
