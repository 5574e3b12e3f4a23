-- ===== src/Emac/Rx/Errors.antt =====
-- Which received frames `lpc_low_level_input` drops.
use rtu_com.Common.{Bool, not, ◌&&◌, ◌||◌, ◌≡◌, arith}
use rtu_com.Emac.Rx.{RxStatus, in_mask, rx_error}

-- A frame with the error summary bit is dropped for an error of `intMask`, for a length error of a
-- frame that is no Ethernet frame by its type, and for a descriptor or dribble error in the last
-- descriptor or in half duplex; all else is kept. The qualified test of the CRC error decides nothing,
-- since RDES_CE is in `intMask`.
pub rx_error-eq :
    (use_rmii : Bool) (s : RxStatus) (full_duplex : Bool)
    → rx_error use_rmii s full_duplex ≡ (
        s.es && (in_mask use_rmii s || ((s.le && not s.ft) || (s.de && (s.ls || not full_duplex)))))
unfolding rx_error
rx_error-eq use_rmii s full_duplex = ground arith
