-- ===== src/Emac/Rx/Sound.antt =====
-- What the operations of the receiver do with the pbufs.
use rtu_com.Common.{
  ℕ, suc, ◌+◌, ◌-◌, ◌%◌, ◌^◌, ◌||◌, ◌<◌, ◌≡◌, ◌∙◌, inl, inr, ap, refl, [], ◌∷◌, Bool, ◌==◌, Option,
  none, some, arith, Bool-cases,
}
use rtu_com.Emac.{next_idx}
use rtu_com.Emac.Ring.{walk, window, next_idx_bound}
use rtu_com.Emac.Rx.{
  Pbuf, Rx, RxCall, Env, log, poll_demand, lpc_rxqueue_pbuf, empty_ring, lpc_rx_setup, rx_error,
  lpc_low_level_input, dispatch, dispatch_received, lpc_enetif_input, ethtype_ip, ethtype_arp,
  pbuf_free, netif_input, netif_input_err,
}
use rtu_com.Emac.Rx.Queue.{
  queued, tally, count, count-append, allocs, gone, IsRing, lpc_rxqueue_pbuf-IsQueued, IsRefilled,
  rx_queue_loop-IsRefilled,
}

-- The descriptor at `rx_get_idx` has been taken out.
abbrev popped : Rx → Rx
popped r = record r {
  rx_free_descs = (r.rx_free_descs + 1) % 2 ^ 32;
  rx_get_idx = next_idx 8 r.rx_get_idx;
}

popped-IsRing : (r : Rx) → IsRing r → r.rx_free_descs < 8 → IsRing (popped r)
popped-IsRing r ring less = record {
  free = omega arith;
  get = next_idx_bound r.rx_get_idx;
  next =
      ring.next
      ∙ ap (λ n. walk n r.rx_get_idx) {x = 8 - r.rx_free_descs}
          {y = suc (8 - (popped r).rx_free_descs)} (omega arith);
}

queued-popped :
    (r : Rx) → r.rx_free_descs < 8 → queued r ≡ r.rxpbufs r.rx_get_idx ∷ queued (popped r)
queued-popped r less =
    ap (window r.rxpbufs r.rx_get_idx) {x = 8 - r.rx_free_descs}
      {y = suc (8 - (popped r).rx_free_descs)} (omega arith)

abbrev pub in_hand : ℕ → Option Pbuf → ℕ
in_hand x none = 0
in_hand x (some p) = tally x p.ref

-- Every pbuf, as often as it was allocated, is in the ring, or was given to lwIP or freed, or is in
-- the hand of the receive task.
pub record IsSound (o : Option Pbuf) (r : Rx) : Type 0 where
  pub ring : IsRing r
  pub conserved : (x : ℕ) → allocs x r.calls ≡ count x (queued r) + gone x r.calls + in_hand x o

IsRefilled-IsSound :
    (env : Env) (o : Option Pbuf) (r r' : Rx) → IsRefilled env r r' → IsSound o r → IsSound o r'
IsRefilled-IsSound env o r r' h s = record {
  ring = h.ring;
  conserved = λ x. omega (arith, h.took x, h.gave x, s.conserved x);
}

popped-IsSound :
    (r : Rx)
    → r.rx_free_descs < 8
    → IsSound none r
    → IsSound (some (r.rxpbufs r.rx_get_idx)) (popped r)
popped-IsSound r less s = record {
  ring = popped-IsRing r s.ring less;
  conserved = λ x. omega (arith, s.conserved x, ap (count x) (queued-popped r less));
}

requeue-IsSound :
    (p : Pbuf) (r : Rx)
    → 0 < r.rx_free_descs
    → IsSound (some p) r
    → IsSound none (log poll_demand (lpc_rxqueue_pbuf p r))
requeue-IsSound p r some_free s =
    let h = lpc_rxqueue_pbuf-IsQueued p r s.ring some_free in
    record {
      ring = record { free = h.ring.free; get = h.ring.get; next = h.ring.next };
      conserved = λ x. omega (
        arith,
        s.conserved x,
        ap (count x) h.content,
        count-append x (queued r) (p ∷ []),
        ap (allocs x) h.calls,
        ap (gone x) h.calls,
      );
    }

-- A call that gives away what is in the hand, or nothing.
IsSound-log :
    (c : RxCall) (o o' : Option Pbuf) (r : Rx)
    → ((x : ℕ)
        → (allocs x (c ∷ r.calls) ≡ allocs x r.calls)
          × (gone x (c ∷ r.calls) + in_hand x o' ≡ gone x r.calls + in_hand x o))
    → IsSound o r
    → IsSound o' (log c r)
IsSound-log c o o' r h s = record {
  ring = record { free = s.ring.free; get = s.ring.get; next = s.ring.next };
  conserved = λ x. let (a, b) = h x in omega (arith, s.conserved x, a, b);
}

free-IsSound : (p : Pbuf) (r : Rx) → IsSound (some p) r → IsSound none (log (pbuf_free p.ref) r)
free-IsSound p r s = IsSound-log (pbuf_free p.ref) (some p) none r (λ x. (refl, omega arith)) s

dispatch-IsSound :
    (env : Env) (p : Pbuf) (r : Rx) → IsSound (some p) r → IsSound none (dispatch env p r)
unfolding dispatch
dispatch-IsSound env p r s =
    elim (Bool-cases (env.eth_type r.calls == ethtype_ip || env.eth_type r.calls == ethtype_arp)) [
      | inr e ↦ rw e (free-IsSound p r s)
      | inl e ↦ elim (Bool-cases (env.input_ok r.calls)) [
        | inl ok ↦
            rw (e, ok)
              (IsSound-log (netif_input p.ref) (some p) none r (λ x. (refl, omega arith)) s)
        | inr bad ↦
            rw (e, bad)
              (free-IsSound p (log (netif_input_err p.ref) r)
                (IsSound-log (netif_input_err p.ref) (some p) (some p) r (λ x. (refl, refl)) s))
      ]
    ]

dispatch_received-IsSound :
    (env : Env) (o : Option Pbuf) (r : Rx) → IsSound o r → IsSound none (dispatch_received env o r)
dispatch_received-IsSound env none r s = s
dispatch_received-IsSound env (some p) r s = dispatch-IsSound env p r s

lpc_low_level_input-IsSound :
    (fuel : ℕ) (env : Env) (use_rmii full_duplex : Bool) (r : Rx)
    → 8 < fuel
    → IsSound none r
    → (o : Option Pbuf) × (r' : Rx) × (lpc_low_level_input fuel env use_rmii full_duplex r
        ≡ some (o, r'))
      × IsSound o r'
unfolding lpc_low_level_input
lpc_low_level_input-IsSound fuel env use_rmii full_duplex r enough s =
    elim (Bool-cases (r.rx_free_descs == 8)) [
      | inl e ↦
          let (q, r', ends, sum, h) =
            rx_queue_loop-IsRefilled fuel env 0 r (omega (arith, s.ring.free)) s.ring in
          (none, r', rw (e, ends, lpc_low_level_input) refl, IsRefilled-IsSound env none r r' h s)
      | inr e ↦ elim (Bool-cases (r.prdesc r.rx_get_idx).status.own) [
        | inl own ↦ (none, r, rw (e, own, lpc_low_level_input) refl, s)
        | inr own ↦
            let less : r.rx_free_descs < 8 = ground (arith, s.ring.free) in
            let p = r.rxpbufs r.rx_get_idx in
            let s₁ = popped-IsSound r less s in
            elim (Bool-cases (rx_error use_rmii (r.prdesc r.rx_get_idx).status full_duplex)) [
              | inl bad ↦ (
                none,
                log poll_demand (lpc_rxqueue_pbuf p (popped r)),
                rw (e, own, bad, lpc_low_level_input) refl,
                requeue-IsSound p (popped r) (omega arith) s₁,
              )
              | inr good ↦
                  let (q, r', ends, sum, h) =
                    rx_queue_loop-IsRefilled fuel env 0 (popped r) (omega arith) s₁.ring in
                  (
                    some (record p { len = (r.prdesc r.rx_get_idx).status.frame_len % 2 ^ 16 }),
                    log poll_demand r',
                    rw (e, own, good, ends, lpc_low_level_input) refl,
                    IsSound-log poll_demand (some p)
                        (some
                          (record p { len = (r.prdesc r.rx_get_idx).status.frame_len % 2 ^ 16 }))
                        r' (λ x. (refl, refl)) (IsRefilled-IsSound env (some p) (popped r) r' h s₁),
                  )
            ]
      ]
    ]

-- `lpc_enetif_input` returns, and what it read has been given to lwIP, freed, or put back.
pub lpc_enetif_input-IsSound :
    (fuel : ℕ) (env : Env) (use_rmii full_duplex : Bool) (r : Rx)
    → 8 < fuel
    → IsSound none r
    → (r' : Rx) × (lpc_enetif_input fuel env use_rmii full_duplex r ≡ some r') × IsSound none r'
unfolding lpc_enetif_input
lpc_enetif_input-IsSound fuel env use_rmii full_duplex r enough s =
    let (o, r', ends, h) = lpc_low_level_input-IsSound fuel env use_rmii full_duplex r enough s in
    (
      dispatch_received env o r',
      rw (ends, lpc_enetif_input) refl,
      dispatch_received-IsSound env o r' h,
    )

-- `lpc_rx_setup` returns with a ring in which every pbuf is one that was allocated.
pub lpc_rx_setup-IsSound :
    (fuel : ℕ) (env : Env) (r : Rx)
    → 8 < fuel
    → r.calls ≡ []
    → (r' : Rx) × (lpc_rx_setup fuel env r ≡ some r') × IsSound none r'
unfolding lpc_rx_setup
lpc_rx_setup-IsSound fuel env r enough e =
    let ring : IsRing (empty_ring r) = record {
      free = omega arith;
      get = omega arith;
      next = refl;
    } in
    let (q, r', ends, sum, h) = rx_queue_loop-IsRefilled fuel env 0 (empty_ring r) enough ring in
    let start : IsSound none (empty_ring r) = record {
      ring = ring;
      conserved = λ x. rw e (omega arith);
    } in
    (r', rw (ends, lpc_rx_setup) refl, IsRefilled-IsSound env none (empty_ring r) r' h start)
