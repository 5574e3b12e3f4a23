-- ===== src/Emac/Rx/Task.antt =====
-- lwip/src/arch/lpc18xx_43xx_emac.c, `vPacketReceiveTask`: the loop over the frames that have come, with
-- fuel. `none` is a loop that has not ended.
pub mod Round
pub mod Ends
use rtu_com.Common.{ℕ, zero, suc, Bool, true, false, Option, none, some}
use rtu_com.Emac.Rx.{Rx, Env, lpc_enetif_input}

unfoldable pub receive_loop : ℕ → Env → Bool → Bool → Rx → Option Rx
receive_loop zero env use_rmii full_duplex r = none
receive_loop (suc fuel) env use_rmii full_duplex r = elim (r.prdesc r.rx_get_idx).status.own [
  | true ↦ some r
  | false ↦ elim (lpc_enetif_input 9 env use_rmii full_duplex r) [
    | none ↦ none
    | some r' ↦ receive_loop fuel env use_rmii full_duplex r'
  ]
]
