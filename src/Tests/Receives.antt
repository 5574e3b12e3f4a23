-- ===== src/Tests/Receives.antt =====
-- The receiving half of the Ethernet driver at concrete inputs.
use rtu_com.Common.{
  ◌≡◌, refl, List, [], true, false, ◌&&◌, ◌||◌, not, length, Option, none, some, arith,
}
use rtu_com.Emac.Rx.{
  Pbuf, RxStatus, only_own, Rx, Env, setup_desc, lpc_rxqueue_pbuf, rx_queue_loop, lpc_rx_setup,
  in_mask, rx_error, lpc_low_level_input, dispatch, lpc_enetif_input,
}
use rtu_com.Emac.Rx
use rtu_com.Emac.Rx.Task.{receive_loop}
use rtu_com.Emac.Rx.Task.Ends.{IsDrained, receive_loop-IsDrained, receive_loop_spins}
use rtu_com.Emac.Ring.{set}
use rtu_com.Emac.Rx.Errors.{rx_error-eq}
use rtu_com.Emac.Rx.Runs as RxRuns
use rtu_com.Emac.Rx.Sound as RxSound

abbrev empty_pbuf : Pbuf
empty_pbuf = record { ref = 0; payload = 0; len = 0 }

abbrev pub new_rx : Rx
new_rx = record {
  prdesc = setup_desc;
  rxpbufs = λ i. empty_pbuf;
  rx_free_descs = 0;
  rx_get_idx = 0;
  rx_next_idx = 0;
  calls = [];
}

-- Memory for each pbuf, named by the number of calls before it; lwIP takes each frame.
abbrev pub env : Env
env = record {
  pbuf_alloc = λ calls. some (record { ref = length calls; payload = 0x20002000; len = 1536 });
  input_ok = λ calls. true;
  eth_type = λ calls. 0x0800;
}

abbrev get_rx : Option Rx → Rx
get_rx none = new_rx
get_rx (some r) = r

abbrev pub rx_ready : Rx
rx_ready = get_rx (lpc_rx_setup 9 env new_rx)

abbrev pub good_frame : RxStatus
good_frame = record (only_own false) { ls = true; ft = true; frame_len = 60 }

abbrev pub received : Rx
received = record rx_ready {
  prdesc = set rx_ready.prdesc 0 (record (rx_ready.prdesc 0) { status = good_frame });
}

abbrev pub read : Rx
read = get_rx (lpc_enetif_input 9 env false true received)

pub rx_setup_run : lpc_rx_setup 9 env new_rx ≡ some rx_ready
unfolding lpc_rx_setup rx_queue_loop lpc_rxqueue_pbuf
rx_setup_run = refl

pub read_run : lpc_enetif_input 9 env false true received ≡ some read
unfolding lpc_rx_setup rx_queue_loop lpc_rxqueue_pbuf lpc_enetif_input lpc_low_level_input rx_error
    dispatch
read_run = refl

pub first_owned : (rx_ready.prdesc 0).status.own ≡ true
unfolding lpc_rx_setup rx_queue_loop lpc_rxqueue_pbuf
first_owned = refl

receives : RxRuns.RxRun rx_ready read
receives =
    RxRuns.RxRun.next
      (RxRuns.RxRun.next RxRuns.RxRun.here (RxRuns.RxStep.dma rx_ready 0 good_frame first_owned))
      (RxRuns.RxStep.input env false true received read read_run)

RxRun-IsSound_example : RxSound.IsSound none read
RxRun-IsSound_example = RxRuns.RxRun-IsSound env new_rx refl rx_setup_run receives

read_indices : (read.rx_free_descs ≡ 0) × (read.rx_get_idx ≡ 1) × (read.rx_next_idx ≡ 1)
unfolding lpc_rx_setup rx_queue_loop lpc_rxqueue_pbuf lpc_enetif_input lpc_low_level_input rx_error
    dispatch
read_indices = (refl, refl, refl)

-- A frame has come, and the task has not run yet.
received-IsSound : RxSound.IsSound none received
received-IsSound =
    RxRuns.RxRun-IsSound env new_rx refl rx_setup_run
      (RxRuns.RxRun.next RxRuns.RxRun.here (RxRuns.RxStep.dma rx_ready 0 good_frame first_owned))

received_full : received.rx_free_descs ≡ 0
unfolding lpc_rx_setup rx_queue_loop lpc_rxqueue_pbuf
received_full = refl

memory : (calls : List Rx.RxCall) → (p : Pbuf) × (env.pbuf_alloc calls ≡ some p)
memory calls = (record { ref = length calls; payload = 0x20002000; len = 1536 }, refl)

receive_loop-IsDrained_example :
    (r' : Rx) × (receive_loop 9 env false true received ≡ some r') × IsDrained r'
receive_loop-IsDrained_example =
    receive_loop-IsDrained env false true memory 9 received (omega arith) received-IsSound
      received_full

-- The driver has started without memory.
abbrev no_memory : Env
no_memory = record {
  pbuf_alloc = λ calls. none;
  input_ok = λ calls. true;
  eth_type = λ calls. 0x0800;
}

abbrev starved : Rx
starved = get_rx (lpc_rx_setup 9 no_memory new_rx)

starved_state :
    (starved.rx_free_descs ≡ 8) × ((starved.prdesc starved.rx_get_idx).status.own ≡ false)
unfolding lpc_rx_setup rx_queue_loop
starved_state = (refl, refl)

receive_loop_spins_example : receive_loop 100 no_memory false true starved ≡ none
receive_loop_spins_example =
    receive_loop_spins 100 no_memory false true starved refl starved_state.0 starved_state.1

rx_error-eq_example : rx_error false good_frame true ≡ (
    good_frame.es
    && (in_mask false good_frame
        || ((good_frame.le && not good_frame.ft)
            || (good_frame.de && (good_frame.ls || not true)))))
rx_error-eq_example = rx_error-eq false good_frame true
