-- ===== src/Emac/Tx/Runs/Framing.antt =====
-- Each chain that the driver sends reaches the DMA as one frame.
use rtu_com.Common.{
  ℕ, ◌==◌, ◌≤◌, ◌≡◌, ◌≢◌, refl, sym, subst, [], length, Bool, true, false, ltb, Option, none, arith,
  Bool-cases, inl, inr,
}
use rtu_com.Emac.Ring.{walk, set, set_other}
use rtu_com.Emac.Tx.{
  Packet, Block, copied, copy_of, segments, Tx, sent, setup_desc, lpc_tx_setup, send_relocated,
  transmit, send_when_ready, lpc_low_level_output,
}
use rtu_com.Emac.Tx.Pending.{IsRing}
use rtu_com.Emac.Tx.Frames.{
  IsClean, AreClean, AreFragments, transmit-AreClean, transmit-AreFragments,
}
use rtu_com.Emac.Tx.Clean.{lpc_tx_reclaim-AreClean}
use rtu_com.Emac.Tx.Runs.{
  System, after, Step, output, retry, clean, dma, Run, here, next, IsSound, Run-IsSound,
  relocate-cases,
}

send_when_ready-AreClean :
    (t₀ t : Tx) (p : Packet) (pcopy : Bool)
    → IsRing t
    → AreClean t
    → AreClean (after t₀ (send_when_ready p pcopy t)).tx
unfolding send_when_ready
send_when_ready-AreClean t₀ t p pcopy ring free_clean =
    elim (Bool-cases (ltb t.tx_free_descs (length (segments p)))) [
      | inl e ↦ rw e free_clean
      | inr e ↦ rw e (transmit-AreClean p pcopy t ring (ground arith) free_clean)
    ]

lpc_low_level_output-AreClean :
    (alloc : Option Block) (p : Packet) (t : Tx)
    → IsRing t
    → AreClean t
    → AreClean (after t (lpc_low_level_output alloc p t)).tx
unfolding lpc_low_level_output AreClean
lpc_low_level_output-AreClean alloc p t ring free_clean = elim (relocate-cases alloc p t) [
  | inl e ↦ subst (λ o. AreClean (after t (send_relocated o)).tx) (sym e) free_clean
  | inr (inl e) ↦
      subst (λ o. AreClean (after t (send_relocated o)).tx) (sym e)
        (send_when_ready-AreClean t t p false ring free_clean)
  | inr (inr (wp, e)) ↦
      subst (λ o. AreClean (after t (send_relocated o)).tx) (sym e)
        (send_when_ready-AreClean t (copied wp p t) (copy_of wp p) true
          (record { free = ring.free; reclaim = ring.reclaim; fill = ring.fill }) free_clean)
]

-- The DMA changes only what belongs to it.
dma-AreClean :
    (t : Tx) (i : ℕ)
    → (t.ptdesc i).own ≡ true
    → AreClean t
    → AreClean (record t { ptdesc = set t.ptdesc i (record (t.ptdesc i) { own = false }) })
unfolding AreClean
dma-AreClean t i owned free_clean k less =
    let free = free_clean k less in
    let apart : walk k t.tx_fill_idx ≢ i = λ same. differs (walk k t.tx_fill_idx) free.own same in
    rw (set_other t.ptdesc i (walk k t.tx_fill_idx) _ apart) free
  where
    differs : (j : ℕ) → (t.ptdesc j).own ≡ false → j ≢ i
    differs j not_owned same = cc

Step-AreClean : {s s' : System} → Step s s' → IsSound s → AreClean s.tx → AreClean s'.tx
Step-AreClean (output t alloc p) s ready = lpc_low_level_output-AreClean alloc p t s.ring ready
Step-AreClean (retry t p pcopy) s ready = send_when_ready-AreClean t t p pcopy s.ring ready
Step-AreClean (clean t t' w e) s ready = lpc_tx_reclaim-AreClean t t' s.ring ready e
Step-AreClean (dma t w i e) s ready = dma-AreClean t i e ready

setup_desc-IsClean : (i : ℕ) → IsClean (setup_desc i)
setup_desc-IsClean i = elim (Bool-cases (i == 7)) [
  | inl e ↦ rw e (record { own = refl; fs = refl; ls = refl; ic = refl })
  | inr e ↦ rw e (record { own = refl; fs = refl; ls = refl; ic = refl })
]

pub Run-AreClean :
    (t : Tx) {s : System}
    → t.calls ≡ []
    → Run (record { tx = lpc_tx_setup t; waiting = none }) s
    → AreClean s.tx
unfolding lpc_tx_setup AreClean
Run-AreClean t e here k less = setup_desc-IsClean (walk k 0)
Run-AreClean t e (next r st) k less =
    Step-AreClean st (Run-IsSound t e r) (Run-AreClean t e r) k less

-- Whatever was sent, cleaned up and transmitted before: a chain for which there are descriptors is sent
-- at once, and from the index to fill on the DMA finds it as one frame. Each piece is in its place with
-- its address and its length, the first flag is on the first piece only, the last flag and the request
-- for an interrupt are on the last one only, and every piece belongs to the DMA.
pub Run-AreFragments :
    (t : Tx) {s : System} (p : Packet) (pcopy : Bool)
    → t.calls ≡ []
    → Run (record { tx = lpc_tx_setup t; waiting = none }) s
    → length (segments p) ≤ s.tx.tx_free_descs
    → (t' : Tx) × (send_when_ready p pcopy s.tx ≡ sent t')
      × AreFragments true t'.ptdesc s.tx.tx_fill_idx (segments p)
unfolding send_when_ready
Run-AreFragments t {s} p pcopy e r room =
    let sound = Run-IsSound t e r in
    let ready : ltb s.tx.tx_free_descs (length (segments p)) ≡ false = ground arith in
    (
      transmit p pcopy s.tx,
      rw ready refl,
      transmit-AreFragments p pcopy s.tx sound.ring room (Run-AreClean t e r),
    )
