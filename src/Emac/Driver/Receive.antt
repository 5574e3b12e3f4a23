-- ===== src/Emac/Driver/Receive.antt =====
-- `vPacketReceiveTask` and what wakes it.
use rtu_com.Common.{
  ℕ, ◌-◌, ◌<◌, ◌≡◌, ◌⊎◌, inl, inr, ap, refl, sym, ◌∙◌, true, false, ltb, ◌==◌, some, arith,
  Bool-cases, Option-cases, zero, suc, ◌+◌, subst,
}
use rtu_com.Emac.Ring.{walk, set_same}
use rtu_com.Emac.Rx.{
  Rx, Pbuf, Env, log, pbuf_alloc_ram, lpc_rxqueue_pbuf, rx_queue_loop, lpc_rx_setup, empty_ring,
}
use rtu_com.Emac.Rx.Queue.{IsRing, rx_queue_loop-IsRefilled, lpc_rxqueue_pbuf-IsQueued}
use rtu_com.Emac.Mac.{DmaStat, clear_stat, eth_irq_handler}
use rtu_com.Emac.Mac.Start.{rx_bits}
use rtu_com.Emac.Driver.Awake.{Awake, Awake-enter, Awake-leave, Awake-raise, Awake-none}
use rtu_com.Emac.Driver.{
  Driver, waits, irq_enter, irq_leave, or_stat, transmits, Step, irq_begins, irq_ends,
  receive_takes, receive_round, receive_waits, cleanup_takes, cleanup_round, output, retry,
  dma_receives, dma_transmits, raise,
}

-- A frame lies at `rx_get_idx`.
pub record FrameReady (r : Rx) : Type 0 where
  pub queued : r.rx_free_descs < 8
  pub come : (r.prdesc r.rx_get_idx).status.own ≡ false

abbrev pub RxAwake : Driver → Type 0
RxAwake s = Awake rx_bits s.rx_sem s.dma_stat s.ints ((s.receive_task ≡ waits) × FrameReady s.rx)

some_inj {ℓ} : {A : Type ℓ} {x y : A} → some x ≡ some y → x ≡ y
some_inj e = cc

still_owned : (s : Driver) → (s.rx.prdesc s.rx.rx_get_idx).status.own ≡ true → FrameReady s.rx → ⊥
still_owned s owned ready = cc

clear_keeps :
    (i stat : DmaStat)
    → rx_bits i ≡ false
    → rx_bits stat ≡ true
    → rx_bits (clear_stat i stat) ≡ true
clear_keeps i stat down up = ground arith

raised : (a b : DmaStat) → rx_bits a ≡ true → rx_bits (or_stat a b) ≡ true
raised a b h = ground arith

transmits_same : (k : ℕ) (s : Driver) → rx_bits (transmits k s).dma_stat ≡ rx_bits s.dma_stat
transmits_same k s = ground arith

pub Step-RxAwake : {s s' : Driver} → Step s s' → RxAwake s → RxAwake s'
unfolding irq_enter irq_leave eth_irq_handler
Step-RxAwake {s} (irq_begins idle) h = record {
  wake = (Awake-enter h).wake;
  seen = (Awake-enter h).seen;
}
Step-RxAwake {s} (irq_ends ints e) h = Awake-leave h ints e (clear_keeps ints s.dma_stat)
Step-RxAwake (receive_takes idle w sem) h = Awake-none idle (λ (w', ready). cc)
Step-RxAwake (receive_round env use_rmii full_duplex rx idle r come ends) h =
    Awake-none idle (λ (w', ready). cc)
Step-RxAwake {s} (receive_waits idle r owned) h =
    Awake-none idle (λ (w', ready). still_owned s owned ready)
Step-RxAwake (cleanup_takes idle w sem) h = h
Step-RxAwake (cleanup_round tx idle r ends) h = h
Step-RxAwake (output alloc p idle w) h = h
Step-RxAwake (retry p pcopy idle w) h = h
Step-RxAwake (dma_receives i status owned) h = Awake-raise h _ _ (λ b. refl) (λ w. inr refl)
Step-RxAwake {s} (dma_transmits k less before owned) h =
    Awake-raise h _ _ (λ b. transmits_same k s ∙ b) inl
Step-RxAwake {s} (raise bits) h = Awake-raise h _ _ (raised s.dma_stat bits) inl

-- `lpc_rx_queue` gives the descriptor at `rx_get_idx` to the DMA, if any.
abbrev GetsOwned : Rx → Type 0
GetsOwned r = (r.rx_free_descs ≡ 8) ⊎ ((r.prdesc r.rx_get_idx).status.own ≡ true)

lpc_rxqueue_pbuf-GetsOwned :
    (p : Pbuf) (r : Rx) → IsRing r → GetsOwned r → GetsOwned (lpc_rxqueue_pbuf p r)
unfolding lpc_rxqueue_pbuf
lpc_rxqueue_pbuf-GetsOwned p r ring (inl empty) =
    let here : r.rx_next_idx ≡ r.rx_get_idx =
      ring.next ∙ ap (λ n. walk n r.rx_get_idx) {x = 8 - r.rx_free_descs} {y = 0} (omega arith) in
    inr (rw here (rw (set_same r.prdesc r.rx_get_idx _) refl))
lpc_rxqueue_pbuf-GetsOwned p r ring (inr own) =
    inr (elim (Bool-cases (r.rx_get_idx == r.rx_next_idx)) [
      | inl e ↦ ground arith
      | inr e ↦ ground arith
    ])

rx_queue_loop-GetsOwned :
    (fuel : ℕ) (env : Env) (q : ℕ) (r : Rx) (r' : ℕ × Rx)
    → IsRing r
    → GetsOwned r
    → rx_queue_loop fuel env q r ≡ some r'
    → GetsOwned r'.1
unfolding rx_queue_loop
rx_queue_loop-GetsOwned zero env q r r' ring own ends = cc
rx_queue_loop-GetsOwned (suc fuel) env q r r' ring own ends =
    elim (Bool-cases (ltb 0 r.rx_free_descs)) [
      | inr full ↦
          let same : (q, r) ≡ r' = some_inj (sym (rw (full, rx_queue_loop) refl) ∙ ends) in
          subst (λ (x : ℕ × Rx). GetsOwned x.1) same own
      | inl more ↦ elim (Option-cases (env.pbuf_alloc r.calls)) [
        | inl empty ↦
            let stop : rx_queue_loop (suc fuel) env q r ≡ some (q, r) =
              rw (more, empty, rx_queue_loop) refl in
            subst (λ (x : ℕ × Rx). GetsOwned x.1) (some_inj (sym stop ∙ ends)) own
        | inr (p, e) ↦
            let r₁ = log (pbuf_alloc_ram p.ref) r in
            let ring₁ : IsRing r₁ = record { free = ring.free; get = ring.get; next = ring.next } in
            let go : rx_queue_loop (suc fuel) env q r
                ≡ rx_queue_loop fuel env (q + 1) (lpc_rxqueue_pbuf p r₁) =
              rw (more, e, rx_queue_loop) refl in
            rx_queue_loop-GetsOwned fuel env (q + 1) (lpc_rxqueue_pbuf p r₁) r'
              (lpc_rxqueue_pbuf-IsQueued p r₁ ring₁ (ground arith)).ring
              (lpc_rxqueue_pbuf-GetsOwned p r₁ ring₁ own) (sym go ∙ ends)
      ]
    ]

GetsOwned-not_ready : (r : Rx) → GetsOwned r → ¬ FrameReady r
GetsOwned-not_ready r (inl empty) ready = absurd (omega (arith, ready.queued, empty))
GetsOwned-not_ready r (inr own) ready = cc

pub lpc_rx_setup-waits : (env : Env) (r r' : Rx) → lpc_rx_setup 9 env r ≡ some r' → ¬ FrameReady r'
unfolding lpc_rx_setup
lpc_rx_setup-waits env r r' ends ready =
    let ring : IsRing (empty_ring r) = record {
      free = omega arith;
      get = omega arith;
      next = refl;
    } in
    let (q, r₂, ends₂, sum, h) =
      rx_queue_loop-IsRefilled 9 env 0 (empty_ring r) (omega arith) ring in
    let result : lpc_rx_setup 9 env r ≡ some r₂ = rw (ends₂, lpc_rx_setup) refl in
    let own = rx_queue_loop-GetsOwned 9 env 0 (empty_ring r) (q, r₂) ring (inl refl) ends₂ in
    GetsOwned-not_ready r' (subst GetsOwned (some_inj (sym result ∙ ends)) own) ready
