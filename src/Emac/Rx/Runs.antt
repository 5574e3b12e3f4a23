-- ===== src/Emac/Rx/Runs.antt =====
-- Runs of the receiver: the receive task and the DMA, in any order.
use rtu_com.Common.{ℕ, ◌≡◌, subst, [], Bool, true, none, some, arith}
use rtu_com.Emac.Ring.{set}
use rtu_com.Emac.Rx.{RxStatus, Rx, Env, lpc_rx_setup, lpc_enetif_input}
use rtu_com.Emac.Rx.Sound.{IsSound, lpc_enetif_input-IsSound, lpc_rx_setup-IsSound}

pub data RxStep : Rx → Rx → Type 0 where
  -- The receive task reads a frame; the answers of lwIP may be others each time.
  input :
      (env : Env) (use_rmii full_duplex : Bool) (r r' : Rx)
      → lpc_enetif_input 9 env use_rmii full_duplex r ≡ some r'
      → RxStep r r'
  -- The DMA has received a frame into a descriptor that it owns, and writes its status.
  dma :
      (r : Rx) (i : ℕ) (status : RxStatus)
      → (r.prdesc i).status.own ≡ true
      → RxStep r (record r { prdesc = set r.prdesc i (record (r.prdesc i) { status = status }) })

pub data RxRun (r : Rx) : Rx → Type 0 where
  here : RxRun r r
  next : {u v : Rx} → RxRun r u → RxStep u v → RxRun r v

RxStep-IsSound : {r r' : Rx} → RxStep r r' → IsSound none r → IsSound none r'
RxStep-IsSound (input env use_rmii full_duplex r r' e) s =
    let (r'', ends, h) = lpc_enetif_input-IsSound 9 env use_rmii full_duplex r (omega arith) s in
    let same : r'' ≡ r' = cc in subst (IsSound none) same h
RxStep-IsSound (dma r i status own) s = record {
  ring = record { free = s.ring.free; get = s.ring.get; next = s.ring.next };
  conserved = s.conserved;
}

-- After `lpc_rx_setup`, through any frames with any status, any frame types and any answers of
-- `pbuf_alloc` and `netif->input`: the indices of the ring agree, and each pbuf, as often as the driver
-- allocated it, is in a descriptor in use, or was accepted by lwIP, or was freed. None is lost and none
-- is given away twice.
pub RxRun-IsSound :
    (env : Env) (r : Rx) {u v : Rx}
    → r.calls ≡ []
    → lpc_rx_setup 9 env r ≡ some u
    → RxRun u v
    → IsSound none v
RxRun-IsSound env r {u} e setup here =
    let (u', ends, h) = lpc_rx_setup-IsSound 9 env r (omega arith) e in
    let same : u' ≡ u = cc in subst (IsSound none) same h
RxRun-IsSound env r e setup (next run step) = RxStep-IsSound step (RxRun-IsSound env r e setup run)
