-- ===== src/Emac/Driver/Runs.antt =====
-- Runs of the whole driver, lpc18xx_43xx_emac.c.
use rtu_com.Common.{◌≡◌, inl, inr, refl, sym, subst, [], Bool, false, Option, none, some, arith}
use rtu_com.Emac.Tx.{Tx, lpc_tx_setup, lpc_low_level_output, send_when_ready}
use rtu_com.Emac.Tx.Order.{IsInOrder}
use rtu_com.Emac.Tx.Runs.{System}
use rtu_com.Emac.Tx.Runs as TxRuns
use rtu_com.Emac.Tx.Runs.Framing.{Run-AreClean}
use rtu_com.Emac.Rx.{Rx, Env, lpc_rx_setup}
use rtu_com.Emac.Rx.Runs as RxRuns
use rtu_com.Emac.Rx.Sound as RxSound
use rtu_com.Emac.Mac.{DmaStat}
use rtu_com.Emac.Driver.Awake.{Awake, Awake-none}
use rtu_com.Emac.Mac.Start.{rx_bits, tx_bits}
use rtu_com.Emac.Driver.{
  Driver, waits, irq_enter, irq_leave, Step, irq_begins, irq_ends, receive_takes, receive_round,
  receive_waits, cleanup_takes, cleanup_round, output, retry, dma_receives, dma_transmits, raise,
  Run, here, next, started,
}
use rtu_com.Emac.Driver.Receive.{FrameReady, RxAwake, Step-RxAwake, lpc_rx_setup-waits}
use rtu_com.Emac.Driver.Transmit.{FrameSent, TxAwake, Step-TxAwake, Step-IsInOrder}

-- What a step of the driver is to the transmitter, and to the receiver.
Step-tx : {s s' : Driver} {from : System} → Step s s' → TxRuns.Run from s.tx → TxRuns.Run from s'.tx
unfolding irq_enter irq_leave
Step-tx (irq_begins idle) r = r
Step-tx (irq_ends ints e) r = r
Step-tx (receive_takes idle w sem) r = r
Step-tx (receive_round env use_rmii full_duplex rx idle t come ends) r = r
Step-tx (receive_waits idle t owned) r = r
Step-tx (cleanup_takes idle w sem) r = r
Step-tx {s} (cleanup_round tx idle t ends) r =
    TxRuns.Run.next r (TxRuns.Step.clean s.tx.tx tx s.tx.waiting ends)
Step-tx {s} (output alloc p idle w) r = TxRuns.Run.next r (
    subst
      (λ x.
        TxRuns.Step (record { tx = s.tx.tx; waiting = x })
          (TxRuns.after s.tx.tx (lpc_low_level_output alloc p s.tx.tx)))
      (sym w) (TxRuns.Step.output s.tx.tx alloc p))
Step-tx {s} (retry p pcopy idle w) r = TxRuns.Run.next r (
    subst
      (λ x.
        TxRuns.Step (record { tx = s.tx.tx; waiting = x })
          (TxRuns.after s.tx.tx (send_when_ready p pcopy s.tx.tx)))
      (sym w) (TxRuns.Step.retry s.tx.tx p pcopy))
Step-tx (dma_receives i status owned) r = r
Step-tx {s} (dma_transmits k less before owned) r =
    TxRuns.Run.next r (TxRuns.Step.dma s.tx.tx s.tx.waiting _ owned)
Step-tx (raise bits) r = r

Step-rx : {s s' : Driver} {from : Rx} → Step s s' → RxRuns.RxRun from s.rx → RxRuns.RxRun from s'.rx
unfolding irq_enter irq_leave
Step-rx {s} (receive_round env use_rmii full_duplex rx idle t come ends) r =
    RxRuns.RxRun.next r (RxRuns.RxStep.input env use_rmii full_duplex s.rx rx ends)
Step-rx {s} (dma_receives i status owned) r =
    RxRuns.RxRun.next r (RxRuns.RxStep.dma s.rx i status owned)
Step-rx (irq_begins idle) r = r
Step-rx (irq_ends ints e) r = r
Step-rx (receive_takes idle w sem) r = r
Step-rx (receive_waits idle t owned) r = r
Step-rx (cleanup_takes idle w sem) r = r
Step-rx (cleanup_round tx idle t ends) r = r
Step-rx (output alloc p idle w) r = r
Step-rx (retry p pcopy idle w) r = r
Step-rx (dma_transmits k less before owned) r = r
Step-rx (raise bits) r = r

setup-IsInOrder : (t : Tx) → IsInOrder (lpc_tx_setup t)
unfolding lpc_tx_setup IsInOrder
setup-IsInOrder t k less own j before = absurd (omega arith)

setup-not_sent : (t : Tx) → ¬ FrameSent (lpc_tx_setup t)
unfolding lpc_tx_setup
setup-not_sent t f = omega (arith, f.less)

-- Nothing is left to do before the next frame.
pub record AtRest (s : Driver) : Type 0 where
  pub ints : s.ints ≡ none
  pub rx_stat : rx_bits s.dma_stat ≡ false
  pub tx_stat : tx_bits s.dma_stat ≡ false
  pub rx_sem : s.rx_sem ≡ false
  pub tx_sem : s.tx_clean_sem ≡ false
  pub receive : s.receive_task ≡ waits
  pub cleanup : s.cleanup_task ≡ waits

asleep :
    {bits : DmaStat → Bool} {sem : Bool} {stat : DmaStat} {i : Option DmaStat} {work : Type 0}
    → Awake bits sem stat i work
    → work
    → sem ≡ false
    → bits stat ≡ false
    → ⊥
asleep h w no_sem no_bits = elim (h.wake w) [ inl s ↦ cc | inr b ↦ cc ]

module _ (t : Tx) (env : Env) (r : Rx) {u : Rx} (tx_new : t.calls ≡ []) (rx_new : r.calls ≡ [])
    (setup : lpc_rx_setup 9 env r ≡ some u) where
  Run-tx :
      {s : Driver}
      → Run (started (lpc_tx_setup t) u) s
      → TxRuns.Run (record { tx = lpc_tx_setup t; waiting = none }) s.tx
  Run-tx here = TxRuns.Run.here
  Run-tx (next run st) = Step-tx st (Run-tx run)

  Run-rx : {s : Driver} → Run (started (lpc_tx_setup t) u) s → RxRuns.RxRun u s.rx
  Run-rx here = RxRuns.RxRun.here
  Run-rx (next run st) = Step-rx st (Run-rx run)

  Run-IsInOrder : {s : Driver} → Run (started (lpc_tx_setup t) u) s → IsInOrder s.tx.tx
  Run-IsInOrder here = setup-IsInOrder t
  Run-IsInOrder (next run st) =
      Step-IsInOrder (TxRuns.Run-IsSound t tx_new (Run-tx run)).ring
        (Run-AreClean t tx_new (Run-tx run)) (Run-IsInOrder run) st

  Run-RxAwake : {s : Driver} → Run (started (lpc_tx_setup t) u) s → RxAwake s
  Run-RxAwake here = Awake-none refl (λ (w, ready). lpc_rx_setup-waits env r u setup ready)
  Run-RxAwake (next run st) = Step-RxAwake st (Run-RxAwake run)

  Run-TxAwake : {s : Driver} → Run (started (lpc_tx_setup t) u) s → TxAwake s
  Run-TxAwake here = Awake-none refl (λ (w, sent). setup-not_sent t sent)
  Run-TxAwake (next run st) =
      Step-TxAwake (TxRuns.Run-IsSound t tx_new (Run-tx run)).ring
        (Run-AreClean t tx_new (Run-tx run)) (Run-IsInOrder run) st (Run-TxAwake run)

  -- Through any run of the handler, the two tasks, the thread that sends and the DMA, both halves of
  -- the driver stay sound: no pbuf is lost, and none is freed or given away twice.
  pub Run-halves :
      {s : Driver}
      → Run (started (lpc_tx_setup t) u) s
      → TxRuns.IsSound s.tx × RxSound.IsSound none s.rx
  Run-halves run = (
    TxRuns.Run-IsSound t tx_new (Run-tx run),
    RxRuns.RxRun-IsSound env r rx_new setup (Run-rx run),
  )

  -- No wake-up is lost: from the start of the driver on, in whatever order the handler, the two tasks,
  -- the thread that sends and the DMA take their steps, and wherever in the handler a frame comes,
  -- once the driver is at rest (no handler runs, no bit of DMA_STAT is up, and both tasks wait for
  -- semaphores that are taken), no received frame is left unread in the ring, and no frame that was
  -- sent is left unreclaimed.
  pub Run-AtRest :
      {s : Driver}
      → Run (started (lpc_tx_setup t) u) s
      → AtRest s
      → ¬ FrameReady s.rx × ¬ FrameSent s.tx.tx
  Run-AtRest run rest = (
    λ ready. asleep (Run-RxAwake run) (rest.receive, ready) rest.rx_sem rest.rx_stat,
    λ sent. asleep (Run-TxAwake run) (rest.cleanup, sent) rest.tx_sem rest.tx_stat,
  )
