-- ===== src/Emac/Tx/Reclaim.antt =====
-- What `lpc_tx_reclaim` gives back.
use rtu_com.Common.{
  ℕ, zero, suc, ◌+◌, ◌-◌, ◌≤◌, ◌<◌, ◌≡◌, ◌∙◌, ◌⊎◌, inl, inr, ap, ap₂, subst, refl, sym, List, [],
  ◌∷◌, ◌++◌, append-nil, append_assoc, true, false, not, ◌&&◌, ltb, Option, none, some, arith,
  Bool-cases, All,
}
use rtu_com.Emac.{next_idx}
use rtu_com.Emac.Ring.{
  walk, window, walk_bound, walk_ne, walk_add, next_idx_bound, window-set_outside, window_append,
}
use rtu_com.Emac.Tx.{Tx, TxDesc, log, mutex_lock}
use rtu_com.Emac.Tx.CleanUp.{free_saved, reclaim_desc, reclaim_loop, end_reclaim, lpc_tx_reclaim}
use rtu_com.Emac.Tx.Pending.{pending, somes, somes-append, acquired, freed, IsRing}

free_saved-freed :
    (o : Option ℕ) (t : Tx) → freed (free_saved o t).calls ≡ freed t.calls ++ somes (o ∷ [])
free_saved-freed none t = sym (append-nil (freed t.calls))
free_saved-freed (some p) t = refl

free_saved-acquired : (o : Option ℕ) (t : Tx) → acquired (free_saved o t).calls ≡ acquired t.calls
free_saved-acquired none t = refl
free_saved-acquired (some p) t = refl

free_saved-fields :
    (o : Option ℕ) (t : Tx)
    → ((free_saved o t).txpbufs ≡ t.txpbufs) × ((free_saved o t).tx_fill_idx ≡ t.tx_fill_idx)
free_saved-fields none t = (refl, refl)
free_saved-fields (some p) t = (refl, refl)

-- The first `k` descriptors from `ridx` on have been reclaimed.
pub record IsReclaimed (ridx k : ℕ) (t : Tx) (r : Tx × ℕ) : Type 0 where
  pub idx : r.1 ≡ walk k ridx
  pub free : r.0.tx_free_descs ≡ t.tx_free_descs + k
  pub bound : r.0.tx_free_descs ≤ 8
  pub saved : r.0.txpbufs ≡ t.txpbufs
  pub fill : r.0.tx_fill_idx ≡ t.tx_fill_idx
  pub gave : freed r.0.calls ≡ freed t.calls ++ somes (window t.txpbufs ridx k)
  pub took : acquired r.0.calls ≡ acquired t.calls
  pub done : All (λ (d : TxDesc). d.own ≡ false) (window t.ptdesc ridx k)
  pub stop : (r.0.tx_free_descs ≡ 8) ⊎ ((r.0.ptdesc r.1).own ≡ true)

somes-cons :
    (o : Option ℕ) (os : List (Option ℕ)) (xs : List ℕ)
    → (xs ++ somes (o ∷ [])) ++ somes os ≡ xs ++ somes (o ∷ os)
somes-cons none os xs = ap (λ ys. ys ++ somes os) (append-nil xs)
somes-cons (some p) os xs = append_assoc xs (p ∷ []) (somes os)

-- One more descriptor in front.
IsReclaimed-cons :
    (ridx k : ℕ) (t : Tx) (r : Tx × ℕ)
    → ridx < 8
    → t.tx_free_descs < 8
    → (t.ptdesc ridx).own ≡ false
    → IsReclaimed (next_idx 8 ridx) k (reclaim_desc ridx t) r
    → IsReclaimed ridx (suc k) t r
unfolding reclaim_desc
IsReclaimed-cons ridx k t r small more own h =
    let (same, filled) = free_saved-fields (t.txpbufs ridx) t in
    record {
      idx = h.idx;
      free = omega (arith, h.free);
      bound = h.bound;
      saved = h.saved ∙ same;
      fill = h.fill ∙ filled;
      gave =
          h.gave
          ∙ ap₂ ◌++◌ (free_saved-freed (t.txpbufs ridx) t)
              (ap (λ f. somes (window f (next_idx 8 ridx) k)) same)
          ∙ somes-cons (t.txpbufs ridx) (window t.txpbufs (next_idx 8 ridx) k) (freed t.calls);
      took = h.took ∙ free_saved-acquired (t.txpbufs ridx) t;
      done = (
        own,
        subst (λ ds. All (λ (d : TxDesc). d.own ≡ false) ds)
            (window-set_outside t.ptdesc ridx _ k (next_idx 8 ridx)
              (λ j less. walk_ne (suc j) ridx small (omega arith) (omega (arith, h.free, h.bound))))
            h.done,
      );
      stop = h.stop;
    }

pub reclaim_desc-free :
    (ridx : ℕ) (t : Tx)
    → t.tx_free_descs ≤ 8
    → (reclaim_desc ridx t).tx_free_descs ≡ t.tx_free_descs + 1
unfolding reclaim_desc
reclaim_desc-free ridx t bound = omega arith

reclaim_stop :
    (t : Tx) (ridx : ℕ)
    → t.tx_free_descs ≤ 8
    → (ltb t.tx_free_descs 8 && not (t.ptdesc ridx).own) ≡ false
    → (t.tx_free_descs ≡ 8) ⊎ ((t.ptdesc ridx).own ≡ true)
reclaim_stop t ridx bound halt = ground arith

-- With more fuel than descriptors in use the loop ends, and it ends because nothing is left to give
-- back: every descriptor is free, or the DMA still owns the next one.
pub reclaim_loop-IsReclaimed :
    (fuel ridx : ℕ) (t : Tx)
    → 8 < fuel + t.tx_free_descs
    → t.tx_free_descs ≤ 8
    → ridx < 8
    → (r : Tx × ℕ) × (k : ℕ) × (reclaim_loop fuel ridx t ≡ some r) × IsReclaimed ridx k t r
unfolding reclaim_loop
reclaim_loop-IsReclaimed zero ridx t enough bound small = absurd (omega arith)
reclaim_loop-IsReclaimed (suc fuel) ridx t enough bound small =
    elim (Bool-cases (ltb t.tx_free_descs 8 && not (t.ptdesc ridx).own)) [
      | inl go ↦
          let more : t.tx_free_descs < 8 = ground arith in
          let own : (t.ptdesc ridx).own ≡ false = ground arith in
          let free : (reclaim_desc ridx t).tx_free_descs ≡ t.tx_free_descs + 1 =
            reclaim_desc-free ridx t bound in
          let (r, k, ends, h) =
            reclaim_loop-IsReclaimed fuel (next_idx 8 ridx) (reclaim_desc ridx t) (omega arith)
              (omega arith) (next_idx_bound ridx) in
          (r, suc k, rw go ends, IsReclaimed-cons ridx k t r small more own h)
      | inr halt ↦ (
        (t, ridx),
        0,
        rw halt refl,
        record {
          idx = refl;
          free = omega arith;
          bound = bound;
          saved = refl;
          fill = refl;
          gave = sym (append-nil (freed t.calls));
          took = refl;
          done = tt;
          stop = reclaim_stop t ridx bound halt;
        },
      )
    ]

pub record IsCleaned (t t' : Tx) : Type 0 where
  pub ring : IsRing t'
  -- The descriptors that were cleaned up, from the oldest in use on: the DMA had given each of them
  -- back, and what has been freed is what was saved with them.
  pub count : ℕ
  pub idx : t'.tx_reclaim_idx ≡ walk count t.tx_reclaim_idx
  pub free : t'.tx_free_descs ≡ t.tx_free_descs + count
  pub done : All (λ (d : TxDesc). d.own ≡ false) (window t.ptdesc t.tx_reclaim_idx count)
  pub exact : freed t'.calls ≡ freed t.calls ++ somes (window t.txpbufs t.tx_reclaim_idx count)
  -- What was pending has been freed, oldest first, or is pending still.
  pub gave : freed t'.calls ++ somes (pending t') ≡ freed t.calls ++ somes (pending t)
  pub took : acquired t'.calls ≡ acquired t.calls
  pub stop : (t'.tx_free_descs ≡ 8) ⊎ ((t'.ptdesc t'.tx_reclaim_idx).own ≡ true)

end_reclaim-IsCleaned :
    (k : ℕ) (t : Tx) (r : Tx × ℕ)
    → IsRing t
    → IsReclaimed t.tx_reclaim_idx k (log mutex_lock t) r
    → IsCleaned t (end_reclaim r)
end_reclaim-IsCleaned k t r ring h =
    let left = 8 - r.0.tx_free_descs in
    let split : 8 - t.tx_free_descs ≡ k + left = omega (arith, h.free, h.bound) in
    record {
      ring = record {
        free = h.bound;
        reclaim = rw h.idx (walk_bound k t.tx_reclaim_idx ring.reclaim);
        fill =
            h.fill
            ∙ ring.fill
            ∙ ap (λ n. walk n t.tx_reclaim_idx) split
            ∙ sym (walk_add k left t.tx_reclaim_idx)
            ∙ ap (walk left) (sym h.idx);
      };
      count = k;
      idx = h.idx;
      free = h.free;
      done = h.done;
      exact = h.gave;
      gave =
          ap₂ ◌++◌ h.gave (ap₂ (λ f i. somes (window f i left)) h.saved h.idx)
          ∙ append_assoc (freed t.calls) (somes (window t.txpbufs t.tx_reclaim_idx k)) _
          ∙ ap (λ xs. freed t.calls ++ xs)
              (sym (
                ap somes (
                  ap (window t.txpbufs t.tx_reclaim_idx) split
                  ∙ window_append t.txpbufs k left t.tx_reclaim_idx)
                ∙ somes-append (window t.txpbufs t.tx_reclaim_idx k) _));
      took = h.took;
      stop = h.stop;
    }

-- `lpc_tx_reclaim` ends and keeps the ring. It cleans up a number of descriptors, the oldest in use, all
-- of which the DMA had given back: they are free afterwards, and the pbufs that were saved with them
-- have been freed, in their order, and nothing else. Then either every descriptor is free, or the
-- oldest one in use belongs to the DMA.
pub lpc_tx_reclaim-IsCleaned :
    (fuel : ℕ) (t : Tx)
    → 8 < fuel
    → IsRing t
    → (t' : Tx) × (lpc_tx_reclaim fuel t ≡ some t') × IsCleaned t t'
unfolding lpc_tx_reclaim
lpc_tx_reclaim-IsCleaned fuel t enough ring =
    let (r, k, ends, h) =
      reclaim_loop-IsReclaimed fuel t.tx_reclaim_idx (log mutex_lock t) (omega arith) ring.free
        ring.reclaim in
    (end_reclaim r, rw (ends, lpc_tx_reclaim) refl, end_reclaim-IsCleaned k t r ring h)
