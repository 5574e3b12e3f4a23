-- ===== src/Emac/Tx/CleanUp.antt =====
-- lwip/src/arch/lpc18xx_43xx_emac.c, `lpc_tx_reclaim`: the clean-up of descriptors that have been sent.
use rtu_com.Common.{
  ℕ, zero, suc, ◌+◌, ◌-◌, ◌%◌, ◌^◌, true, false, not, ◌&&◌, ltb, ◌==◌, if◌then◌else◌, Option, none,
  some,
}
use rtu_com.Emac.{num_buff_txdescs, next_idx}
use rtu_com.Emac.Ring.{set}
use rtu_com.Emac.Tx.{pbuf_free, count_give, mutex_lock, mutex_unlock, Tx, log}

-- `if (txpbufs[ridx]) { pbuf_free(txpbufs[ridx]); }`
abbrev pub free_saved : Option ℕ → Tx → Tx
free_saved none t = t
free_saved (some p) t = log (pbuf_free p) t

-- A descriptor that has been sent: its word is reset, its pbuf is freed, and it is free again.
unfoldable pub reclaim_desc : ℕ → Tx → Tx
reclaim_desc ridx t =
    let d = t.ptdesc ridx in
    let reset = record d {
      own = false;
      fs = false;
      ls = false;
      ic = false;
      tch = true;
      cic = false;
    } in
    let d' = record reset { ter = ridx == num_buff_txdescs - 1 } in
    log count_give (record (free_saved (t.txpbufs ridx) t) {
      ptdesc = set t.ptdesc ridx d';
      tx_free_descs = (t.tx_free_descs + 1) % 2 ^ 32;
    })

-- The loop of `lpc_tx_reclaim`, with fuel; `none` is a loop that has not ended.
unfoldable pub reclaim_loop : ℕ → ℕ → Tx → Option (Tx × ℕ)
unfolding reclaim_desc
reclaim_loop zero ridx t = none
reclaim_loop (suc fuel) ridx t =
    let rest = reclaim_loop fuel (next_idx num_buff_txdescs ridx) (reclaim_desc ridx t) in
    if ltb t.tx_free_descs num_buff_txdescs && not (t.ptdesc ridx).own then rest else some (t, ridx)

-- What comes after the loop.
abbrev pub end_reclaim : Tx × ℕ → Tx
end_reclaim (t, ridx) = log mutex_unlock (record t { tx_reclaim_idx = ridx })

unfoldable pub lpc_tx_reclaim : ℕ → Tx → Option Tx
unfolding reclaim_loop
lpc_tx_reclaim fuel t = elim (reclaim_loop fuel t.tx_reclaim_idx (log mutex_lock t)) [
  | none ↦ none
  | some r ↦ some (end_reclaim r)
]
