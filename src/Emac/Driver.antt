-- ===== src/Emac/Driver.antt =====
-- lwip/src/arch/lpc18xx_43xx_emac.c as a whole: `ETH_IRQHandler`, the endless loops of
-- `vPacketReceiveTask` and `vTransmitCleanupTask`, the thread of lwIP that sends, and the DMA, as steps
-- that may come in any order. The handler is two steps, up to its last read and write of DMA_STAT, and
-- no thread runs between them. The two semaphores are binary.
pub mod Awake
pub mod Receive
pub mod Transmit
pub mod Runs
use rtu_com.Common.{ℕ, ◌<◌, ◌≡◌, Bool, true, false, ◌||◌, if◌then◌else◌, Option, none, some}
use rtu_com.Emac.Ring.{set}
use rtu_com.Emac.Tx.Order.{in_use, used, dma_sent}
use rtu_com.Emac.Tx.{Packet, Block, Tx, send_when_ready, lpc_low_level_output}
use rtu_com.Emac.Tx.CleanUp.{lpc_tx_reclaim}
use rtu_com.Emac.Tx.Runs.{System, after}
use rtu_com.Emac.Rx.{RxStatus, Rx, Env, lpc_enetif_input}
use rtu_com.Emac.Mac.{DmaStat, eth_irq_handler, clear_stat, no_stat}

-- Where a task stands: at `sys_arch_sem_wait`, or behind it.
pub data TaskState : Type 0 where
  waits runs : TaskState

pub record Driver : Type 0 where
  pub tx : System
  pub rx : Rx
  pub dma_stat : DmaStat
  pub ints : Option DmaStat  -- what the running handler has read
  pub rx_sem : Bool
  pub tx_clean_sem : Bool
  pub receive_task : TaskState
  pub cleanup_task : TaskState

-- `ETH_IRQHandler` up to the line that clears the bits.
unfoldable pub irq_enter : Driver → Driver
irq_enter s =
    let (wake_rx, wake_tx, stat) = eth_irq_handler s.dma_stat no_stat in
    record s {
      ints = some s.dma_stat;
      rx_sem = wake_rx || s.rx_sem;
      tx_clean_sem = wake_tx || s.tx_clean_sem;
    }

-- `LPC_ETHERNET->DMA_STAT = ints`
unfoldable pub irq_leave : DmaStat → Driver → Driver
irq_leave ints s = record s { dma_stat = clear_stat ints s.dma_stat; ints = none }

abbrev pub or_stat : DmaStat → DmaStat → DmaStat
or_stat a b = record {
  ri = a.ri || b.ri;
  ovf = a.ovf || b.ovf;
  ru = a.ru || b.ru;
  ti = a.ti || b.ti;
  unf = a.unf || b.unf;
  tu = a.tu || b.tu;
}

-- The DMA has received a frame into a descriptor that it owned: it writes the status and raises RI.
abbrev pub receives : ℕ → RxStatus → Driver → Driver
receives i status s = record s {
  rx = record s.rx { prdesc = set s.rx.prdesc i (record (s.rx.prdesc i) { status = status }) };
  dma_stat = record s.dma_stat { ri = true };
}

-- The DMA has sent the `k`-th piece in use: it gives the descriptor back, and raises TI where that was
-- asked for.
abbrev pub transmits : ℕ → Driver → Driver
transmits k s = record s {
  tx = record s.tx { tx = dma_sent s.tx.tx k };
  dma_stat = if (in_use s.tx.tx k).ic then record s.dma_stat { ti = true } else s.dma_stat;
}

pub data Step (s : Driver) : Driver → Type 0 where
  irq_begins : s.ints ≡ none → Step s (irq_enter s)
  irq_ends : (ints : DmaStat) → s.ints ≡ some ints → Step s (irq_leave ints s)
  -- `vPacketReceiveTask`: the wait ends, a round of the inner loop, and back to the wait.
  receive_takes :
      s.ints ≡ none
      → s.receive_task ≡ waits
      → s.rx_sem ≡ true
      → Step s (record s { rx_sem = false; receive_task = runs })
  receive_round :
      (env : Env) (use_rmii full_duplex : Bool) (rx : Rx)
      → s.ints ≡ none
      → s.receive_task ≡ runs
      → (s.rx.prdesc s.rx.rx_get_idx).status.own ≡ false
      → lpc_enetif_input 9 env use_rmii full_duplex s.rx ≡ some rx
      → Step s (record s { rx = rx })
  receive_waits :
      s.ints ≡ none
      → s.receive_task ≡ runs
      → (s.rx.prdesc s.rx.rx_get_idx).status.own ≡ true
      → Step s (record s { receive_task = waits })
  -- `vTransmitCleanupTask`
  cleanup_takes :
      s.ints ≡ none
      → s.cleanup_task ≡ waits
      → s.tx_clean_sem ≡ true
      → Step s (record s { tx_clean_sem = false; cleanup_task = runs })
  cleanup_round :
      (tx : Tx)
      → s.ints ≡ none
      → s.cleanup_task ≡ runs
      → lpc_tx_reclaim 9 s.tx.tx ≡ some tx
      → Step s (record s { tx = record s.tx { tx = tx }; cleanup_task = waits })
  -- lwIP sends a chain, or a sender that waits looks again.
  output :
      (alloc : Option Block) (p : Packet)
      → s.ints ≡ none
      → s.tx.waiting ≡ none
      → Step s (record s { tx = after s.tx.tx (lpc_low_level_output alloc p s.tx.tx) })
  retry :
      (p : Packet) (pcopy : Bool)
      → s.ints ≡ none
      → s.tx.waiting ≡ some (p, pcopy)
      → Step s (record s { tx = after s.tx.tx (send_when_ready p pcopy s.tx.tx) })
  dma_receives :
      (i : ℕ) (status : RxStatus) → (s.rx.prdesc i).status.own ≡ true → Step s (receives i status s)
  -- The DMA works through the descriptors in their order.
  dma_transmits :
      (k : ℕ)
      → k < used s.tx.tx
      → ((j : ℕ) → j < k → (in_use s.tx.tx j).own ≡ false)
      → (in_use s.tx.tx k).own ≡ true
      → Step s (transmits k s)
  -- The other events of the DMA.
  raise : (bits : DmaStat) → Step s (record s { dma_stat = or_stat s.dma_stat bits })

pub data Run (s : Driver) : Driver → Type 0 where
  here : Run s s
  next : {u v : Driver} → Run s u → Step u v → Run s v

-- After `lpc_enetif_init`: the tasks wait, and nothing has come.
abbrev pub started : Tx → Rx → Driver
started tx rx = record {
  tx = record { tx = tx; waiting = none };
  rx = rx;
  dma_stat = no_stat;
  ints = none;
  rx_sem = false;
  tx_clean_sem = false;
  receive_task = waits;
  cleanup_task = waits;
}
