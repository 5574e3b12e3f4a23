-- ===== src/Emac.antt =====
-- lwip/src/arch/lpc18xx_43xx_emac.c, the Ethernet driver of the firmware, with its configuration in
-- com/inc/lpc_18xx43xx_emac_config.h: the descriptor rings that it shares with the DMA.
pub mod Ring
pub mod Tx
pub mod Rx
pub mod Mac
pub mod Driver
use rtu_com.Common.{ℕ, ◌+◌, leb, if◌then◌else◌}

abbrev pub num_buff_txdescs : ℕ
num_buff_txdescs = 8

abbrev pub num_buff_rxdescs : ℕ
num_buff_rxdescs = 8

-- `idx++; if (idx >= n) { idx = 0; }`
abbrev pub next_idx : ℕ → ℕ → ℕ
next_idx n idx = if leb n (idx + 1) then 0 else idx + 1
