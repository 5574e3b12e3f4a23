-- ===== src/Emac/Rx/Task/Round.antt =====
-- One round of the loop of `vPacketReceiveTask`, where each descriptor has a pbuf.
use rtu_com.Common.{
  ℕ, ◌+◌, ◌%◌, ◌^◌, ◌<◌, ◌≡◌, ◌≢◌, ap, refl, List, Bool, true, false, ◌==◌, ◌||◌, ◌∷◌, Option, none,
  some, arith, Bool-cases, inl, inr,
}
use rtu_com.Emac.{next_idx}
use rtu_com.Emac.Ring.{set_same, set_other}
use rtu_com.Emac.Rx.{
  Pbuf, Rx, RxCall, Env, log, pbuf_alloc_ram, poll_demand, lpc_rxqueue_pbuf, rx_queue_loop,
  rx_error, lpc_low_level_input, ethtype_ip, ethtype_arp, pbuf_free, netif_input, netif_input_err,
  dispatch, dispatch_received, lpc_enetif_input,
}

-- Each descriptor has a pbuf.
pub record IsFull (r : Rx) : Type 0 where
  pub free : r.rx_free_descs ≡ 0
  pub get : r.rx_get_idx < 8
  pub next : r.rx_next_idx ≡ r.rx_get_idx

-- The descriptor at `rx_get_idx` has gone back to the DMA, and the next one is looked at.
pub record IsRefreshed (r r' : Rx) : Type 0 where
  pub free : r'.rx_free_descs ≡ 0
  pub get : r'.rx_get_idx ≡ next_idx 8 r.rx_get_idx
  pub next : r'.rx_next_idx ≡ next_idx 8 r.rx_get_idx
  pub own : (r'.prdesc r.rx_get_idx).status.own ≡ true
  pub others : (i : ℕ) → i ≢ r.rx_get_idx → r'.prdesc i ≡ r.prdesc i

abbrev taken : Rx → Rx
taken r = record r {
  rx_free_descs = (r.rx_free_descs + 1) % 2 ^ 32;
  rx_get_idx = next_idx 8 r.rx_get_idx;
}

-- Calls do not matter.
with_calls : (r r' : Rx) (c : RxCall) → IsRefreshed r r' → IsRefreshed r (log c r')
with_calls r r' c h = record {
  free = h.free;
  get = h.get;
  next = h.next;
  own = h.own;
  others = h.others;
}

dispatch-IsRefreshed :
    (env : Env) (o : Option Pbuf) (r r' : Rx)
    → IsRefreshed r r'
    → IsRefreshed r (dispatch_received env o r')
unfolding dispatch
dispatch-IsRefreshed env none r r' h = h
dispatch-IsRefreshed env (some p) r r' h =
    elim (Bool-cases
      (env.eth_type r'.calls == ethtype_ip || env.eth_type r'.calls == ethtype_arp)) [
        | inl e ↦ elim (Bool-cases (env.input_ok r'.calls)) [
          | inl ok ↦ rw (e, ok) (with_calls r r' (netif_input p.ref) h)
          | inr bad ↦
              rw (e, bad)
                (with_calls r (log (netif_input_err p.ref) r') (pbuf_free p.ref)
                  (with_calls r r' (netif_input_err p.ref) h))
        ]
        | inr e ↦ rw e (with_calls r r' (pbuf_free p.ref) h)
      ]

requeued :
    (p : Pbuf) (r : Rx) (calls : List RxCall)
    → IsFull r
    → IsRefreshed r (lpc_rxqueue_pbuf p (record (taken r) { calls = calls }))
unfolding lpc_rxqueue_pbuf
requeued p r calls full = record {
  free = omega (arith, full.free);
  get = refl;
  next = ap (next_idx 8) full.next;
  own = rw full.next (rw (set_same r.prdesc r.rx_get_idx _) refl);
  others = λ i ne. rw full.next (set_other r.prdesc r.rx_get_idx i _ ne);
}

refill_one :
    (env : Env) (r : Rx) (p : Pbuf)
    → r.rx_free_descs ≡ 1
    → env.pbuf_alloc r.calls ≡ some p
    → rx_queue_loop 9 env 0 r ≡ some (1, lpc_rxqueue_pbuf p (log (pbuf_alloc_ram p.ref) r))
unfolding rx_queue_loop lpc_rxqueue_pbuf
refill_one env r p one found = rw (one, found) refl

-- Where there is memory, a frame that has come is taken out and its descriptor goes back to the DMA.
lpc_low_level_input-IsRefreshed :
    (env : Env) (use_rmii full_duplex : Bool) (r : Rx) (p : Pbuf)
    → IsFull r
    → (r.prdesc r.rx_get_idx).status.own ≡ false
    → env.pbuf_alloc r.calls ≡ some p
    → (o : Option Pbuf) × (r' : Rx) × (lpc_low_level_input 9 env use_rmii full_duplex r
        ≡ some (o, r'))
      × IsRefreshed r r'
unfolding lpc_low_level_input
lpc_low_level_input-IsRefreshed env use_rmii full_duplex r p full came found =
    let some_used : (r.rx_free_descs == 8) ≡ false = ground (arith, full.free) in
    let old = r.rxpbufs r.rx_get_idx in
    elim (Bool-cases (rx_error use_rmii (r.prdesc r.rx_get_idx).status full_duplex)) [
      | inl bad ↦ (
        none,
        log poll_demand (lpc_rxqueue_pbuf old (taken r)),
        rw (some_used, came, bad, lpc_low_level_input) refl,
        with_calls r _ poll_demand (requeued old r r.calls full),
      )
      | inr good ↦ (
        some (record old { len = (r.prdesc r.rx_get_idx).status.frame_len % 2 ^ 16 }),
        log poll_demand (lpc_rxqueue_pbuf p (log (pbuf_alloc_ram p.ref) (taken r))),
        rw
            (
              some_used,
              came,
              good,
              refill_one env (taken r) p (omega (arith, full.free)) found,
              lpc_low_level_input,
            )
            refl,
        with_calls r _ poll_demand (requeued p r (pbuf_alloc_ram p.ref ∷ r.calls) full),
      )
    ]

pub lpc_enetif_input-IsRefreshed :
    (env : Env) (use_rmii full_duplex : Bool) (r : Rx) (p : Pbuf)
    → IsFull r
    → (r.prdesc r.rx_get_idx).status.own ≡ false
    → env.pbuf_alloc r.calls ≡ some p
    → (r' : Rx) × (lpc_enetif_input 9 env use_rmii full_duplex r ≡ some r') × IsRefreshed r r'
unfolding lpc_enetif_input
lpc_enetif_input-IsRefreshed env use_rmii full_duplex r p full came found =
    let (o, r', ends, h) =
      lpc_low_level_input-IsRefreshed env use_rmii full_duplex r p full came found in
    (
      dispatch_received env o r',
      rw (ends, lpc_enetif_input) refl,
      dispatch-IsRefreshed env o r r' h,
    )
