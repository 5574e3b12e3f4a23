-- ===== src/Emac/Tx/Clean.antt =====
-- The clean-up of the transmitter leaves descriptors that are ready to be filled.
use rtu_com.Common.{
  ℕ, zero, suc, ◌+◌, ◌-◌, ◌≤◌, ◌<◌, ◌≡◌, ◌∙◌, ap, ap₂, refl, sym, subst, not, ◌&&◌, ltb, Option,
  none, some, arith, Bool-cases, inl, inr,
}
use rtu_com.Emac.{next_idx}
use rtu_com.Emac.Ring.{walk, walk_bound, walk_mod, walk_add, next-walk, set_same, set_other}
use rtu_com.Emac.Tx.{Tx, log, mutex_lock}
use rtu_com.Emac.Tx.CleanUp.{free_saved, reclaim_desc, reclaim_loop, end_reclaim, lpc_tx_reclaim}
use rtu_com.Emac.Tx.Pending.{IsRing}
use rtu_com.Emac.Tx.Frames.{AreClean, walk_apart}
use rtu_com.Emac.Tx.Reclaim.{reclaim_desc-free, reclaim_loop-IsReclaimed}

reclaim_desc-fill : (ridx : ℕ) (t : Tx) → (reclaim_desc ridx t).tx_fill_idx ≡ t.tx_fill_idx
unfolding reclaim_desc
reclaim_desc-fill ridx t = go (t.txpbufs ridx)
  where
    go : (o : Option ℕ) → (free_saved o t).tx_fill_idx ≡ t.tx_fill_idx
    go none = refl
    go (some p) = refl

reclaim_desc-AreClean :
    (ridx : ℕ) (t : Tx)
    → t.tx_free_descs < 8
    → t.tx_fill_idx < 8
    → ridx ≡ walk t.tx_free_descs t.tx_fill_idx
    → AreClean t
    → AreClean (reclaim_desc ridx t)
unfolding AreClean reclaim_desc
reclaim_desc-AreClean ridx t more small e clean k less =
    rw (reclaim_desc-fill ridx t) (elim (Bool-cases (ltb k t.tx_free_descs)) [
      | inl earlier ↦
          rw
            (set_other t.ptdesc ridx (walk k t.tx_fill_idx) _ (λ same.
              walk_apart k t.tx_free_descs t.tx_fill_idx small (ground arith) more (same ∙ e)))
            (clean k (ground arith))
      | inr last ↦
          let here : walk k t.tx_fill_idx ≡ ridx =
            ap (λ n. walk n t.tx_fill_idx) {x = k} {y = t.tx_free_descs} (ground arith) ∙ sym e in
          rw here
            (rw (set_same t.ptdesc ridx _) (record { own = refl; fs = refl; ls = refl; ic = refl }))
    ])

reclaim_loop-AreClean :
    (fuel ridx : ℕ) (t : Tx) (r : Tx × ℕ)
    → t.tx_free_descs ≤ 8
    → t.tx_fill_idx < 8
    → ridx ≡ walk t.tx_free_descs t.tx_fill_idx
    → AreClean t
    → reclaim_loop fuel ridx t ≡ some r
    → AreClean r.0
unfolding reclaim_loop
reclaim_loop-AreClean zero ridx t r bound small e clean ends = cc
reclaim_loop-AreClean (suc fuel) ridx t r bound small e clean ends =
    elim (Bool-cases (ltb t.tx_free_descs 8 && not (t.ptdesc ridx).own)) [
      | inl go ↦
          let more : t.tx_free_descs < 8 = ground arith in
          let t' = reclaim_desc ridx t in
          let free : t'.tx_free_descs ≡ t.tx_free_descs + 1 = reclaim_desc-free ridx t bound in
          let fill : t'.tx_fill_idx ≡ t.tx_fill_idx = reclaim_desc-fill ridx t in
          let one_more : suc t.tx_free_descs ≡ t'.tx_free_descs = omega (arith, free) in
          let rest : reclaim_loop (suc fuel) ridx t ≡ reclaim_loop fuel (next_idx 8 ridx) t' =
            rw (go, reclaim_loop) refl in
          reclaim_loop-AreClean fuel (next_idx 8 ridx) t' r (omega arith) (rw fill small)
            (ap (next_idx 8) e
              ∙ next-walk t.tx_free_descs t.tx_fill_idx
              ∙ ap₂ walk one_more (sym fill))
            (reclaim_desc-AreClean ridx t more small e clean) (sym rest ∙ ends)
      | inr halt ↦
          let stop : reclaim_loop (suc fuel) ridx t ≡ some (t, ridx) =
            rw (halt, reclaim_loop) refl in
          let same : (t, ridx) ≡ r = cc in subst (λ (x : Tx × ℕ). AreClean x.0) same clean
    ]

-- The descriptor to reclaim comes behind the free ones.
reclaim_place : (t : Tx) → IsRing t → t.tx_reclaim_idx ≡ walk t.tx_free_descs t.tx_fill_idx
reclaim_place t ring = sym (
    ap (walk t.tx_free_descs) ring.fill
    ∙ walk_add (8 - t.tx_free_descs) t.tx_free_descs t.tx_reclaim_idx
    ∙ walk_mod (8 - t.tx_free_descs + t.tx_free_descs) t.tx_reclaim_idx ring.reclaim
    ∙ omega (arith, ring.free, ring.reclaim))

pub lpc_tx_reclaim-AreClean :
    (t t' : Tx) → IsRing t → AreClean t → lpc_tx_reclaim 9 t ≡ some t' → AreClean t'
unfolding lpc_tx_reclaim AreClean
lpc_tx_reclaim-AreClean t t' ring clean done =
    let (r, k, ends, h) =
      reclaim_loop-IsReclaimed 9 t.tx_reclaim_idx (log mutex_lock t) (omega arith) ring.free
        ring.reclaim in
    let fill : t.tx_fill_idx < 8 =
      rw ring.fill (walk_bound (8 - t.tx_free_descs) t.tx_reclaim_idx ring.reclaim) in
    let left =
      reclaim_loop-AreClean 9 t.tx_reclaim_idx (log mutex_lock t) r ring.free fill
        (reclaim_place t ring) clean ends in
    let result : lpc_tx_reclaim 9 t ≡ some (end_reclaim r) = rw (ends, lpc_tx_reclaim) refl in
    let same : end_reclaim r ≡ t' = cc in subst AreClean same left
