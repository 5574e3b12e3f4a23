-- ===== src/Tests/Drivers.antt =====
-- The whole Ethernet driver at concrete inputs.
use rtu_com.Common.{refl, true, false}
use rtu_com.Emac.Rx.{
  lpc_rxqueue_pbuf, rx_queue_loop, lpc_rx_setup, rx_error, lpc_low_level_input, dispatch,
  lpc_enetif_input,
}
use rtu_com.Emac.Tx.{lpc_tx_setup}
use rtu_com.Emac.Mac.{eth_irq_handler}
use rtu_com.Emac.Driver.{
  Driver, irq_enter, irq_leave, receives, irq_begins, irq_ends, receive_takes, receive_round,
  receive_waits, dma_receives, waits, runs, Run, here, next, started,
}
use rtu_com.Emac.Driver.Receive.{FrameReady}
use rtu_com.Emac.Driver.Transmit.{FrameSent}
use rtu_com.Emac.Driver.Runs.{AtRest, Run-AtRest}
use rtu_com.Tests.Emacs.{new_tx}
use rtu_com.Tests.Receives.{
  new_rx, env, rx_ready, good_frame, read, rx_setup_run, read_run, first_owned,
}

-- A frame comes, the handler runs, and the receive task reads the frame and waits again.
abbrev at_start : Driver
at_start = started (lpc_tx_setup new_tx) rx_ready

abbrev frame_here : Driver
frame_here = receives 0 good_frame at_start

abbrev woken : Driver
woken = irq_leave frame_here.dma_stat (irq_enter frame_here)

abbrev reading : Driver
reading = record woken { rx_sem = false; receive_task = runs }

abbrev rested : Driver
rested = record reading { rx = read; receive_task = waits }

one_frame : Run at_start rested
unfolding irq_enter irq_leave eth_irq_handler lpc_rx_setup rx_queue_loop lpc_rxqueue_pbuf
    lpc_enetif_input lpc_low_level_input rx_error dispatch
one_frame =
    next
      (next
        (next
          (next (next (next here (dma_receives 0 good_frame first_owned)) (irq_begins refl))
            (irq_ends frame_here.dma_stat refl))
          (receive_takes refl refl refl))
        (receive_round env false true read refl refl refl read_run))
      (receive_waits refl refl refl)

rested-AtRest : AtRest rested
unfolding irq_enter irq_leave eth_irq_handler
rested-AtRest = record {
  ints = refl;
  rx_stat = refl;
  tx_stat = refl;
  rx_sem = refl;
  tx_sem = refl;
  receive = refl;
  cleanup = refl;
}

Run-AtRest_example : ¬ FrameReady rested.rx × ¬ FrameSent rested.tx.tx
Run-AtRest_example = Run-AtRest new_tx env new_rx refl refl rx_setup_run one_frame rested-AtRest
