-- ===== src/Emac/Tx/Frames.antt =====
-- What the DMA finds in the descriptors of a chain that was sent.
use rtu_com.Common.{
  ℕ, suc, ◌+◌, ◌-◌, ◌≤◌, ◌<◌, ◌≡◌, ◌≢◌, ◌∙◌, ap, refl, sym, List, [], ◌∷◌, length, Bool, true,
  false, arith,
}
use rtu_com.Emac.{next_idx}
use rtu_com.Emac.Ring.{
  walk, walk_bound, walk_mod, walk_ne, walk_add, next-walk, set, set_same, set_other,
}
use rtu_com.Emac.Tx.{
  Segment, Packet, segments, TxDesc, Tx, log, mutex_lock, is_last, fill_desc, fill_descs, transmit,
}
use rtu_com.Emac.Tx.Pending.{IsRing, fill_descs-IsQueued}

-- A descriptor that is ready to be filled.
pub record IsClean (d : TxDesc) : Type 0 where
  pub own : d.own ≡ false
  pub fs : d.fs ≡ false
  pub ls : d.ls ≡ false
  pub ic : d.ic ≡ false

-- The free descriptors are ready to be filled; none of them belongs to the DMA.
unfoldable pub AreClean : Tx → Type 0
AreClean t = (k : ℕ) → k < t.tx_free_descs → IsClean (t.ptdesc (walk k t.tx_fill_idx))

-- A descriptor of the DMA with one piece of a frame, and whether it is the first and the last piece.
pub record IsFragment (first last : Bool) (q : Segment) (d : TxDesc) : Type 0 where
  pub own : d.own ≡ true
  pub fs : d.fs ≡ first
  pub ls : d.ls ≡ last
  pub ic : d.ic ≡ last
  pub cic : d.cic ≡ true
  pub b1add : d.b1add ≡ q.payload
  pub bsize : d.bsize ≡ length q.bytes

-- The descriptors from an index on hold the pieces in their order.
unfoldable pub AreFragments : Bool → (ℕ → TxDesc) → ℕ → List Segment → Type 0
AreFragments first f idx [] = Unit
AreFragments first f idx (q ∷ qs) =
    IsFragment first (is_last qs) q (f idx) × AreFragments false f (next_idx 8 idx) qs

AreFragments-set :
    (first : Bool) (f : ℕ → TxDesc) (i : ℕ) (d : TxDesc) (qs : List Segment) (idx : ℕ)
    → ((k : ℕ) → k < length qs → walk k idx ≢ i)
    → AreFragments first f idx qs
    → AreFragments first (set f i d) idx qs
unfolding AreFragments
AreFragments-set first f i d [] idx out h = tt
AreFragments-set first f i d (q ∷ qs) idx out (head, tail) = (
  rw (set_other f i idx d (out 0 (omega arith))) head,
  AreFragments-set false f i d qs (next_idx 8 idx) (λ k less. out (suc k) (omega arith)) tail,
)

-- Steps of less than a turn that differ lead to different indices.
pub walk_apart : (a b h : ℕ) → h < 8 → a < b → b < 8 → walk a h ≢ walk b h
walk_apart a b h small less bound e = omega (arith, walk_mod a h small, walk_mod b h small)

module _ (fidx : ℕ) (p : Packet) (pcopy : Bool) where
  fill_desc-other :
      (q : Segment) (last : Bool) (idx : ℕ) (t : Tx) (i : ℕ)
      → i ≢ idx
      → (fill_desc fidx p pcopy q last idx t).ptdesc i ≡ t.ptdesc i
  unfolding fill_desc
  fill_desc-other q last idx t i ne = set_other t.ptdesc idx i _ ne

  pub fill_descs-other :
      (qs : List Segment) (idx : ℕ) (t : Tx) (i : ℕ)
      → ((k : ℕ) → k < length qs → walk k idx ≢ i)
      → (fill_descs fidx p pcopy qs idx t).0.ptdesc i ≡ t.ptdesc i
  unfolding fill_descs
  fill_descs-other [] idx t i out = refl
  fill_descs-other (q ∷ qs) idx t i out =
      fill_descs-other qs (next_idx 8 idx) (fill_desc fidx p pcopy q (is_last qs) idx t) i
        (λ k less. out (suc k) (omega arith))
      ∙ fill_desc-other q (is_last qs) idx t i (λ same. out 0 (omega arith) (sym same))

  fill_desc-IsFragment :
      (q : Segment) (last : Bool) (idx : ℕ) (t : Tx)
      → idx ≢ fidx
      → IsClean (t.ptdesc idx)
      → IsFragment false last q ((fill_desc fidx p pcopy q last idx t).ptdesc idx)
  unfolding fill_desc
  fill_desc-IsFragment q true idx t ne clean = record {
    own = ground arith;
    fs = ground (arith, clean.fs);
    ls = ground arith;
    ic = ground arith;
    cic = ground arith;
    b1add = ground arith;
    bsize = ground arith;
  }
  fill_desc-IsFragment q false idx t ne clean = record {
    own = ground arith;
    fs = ground (arith, clean.fs);
    ls = ground (arith, clean.ls);
    ic = ground (arith, clean.ic);
    cic = ground arith;
    b1add = ground arith;
    bsize = ground arith;
  }

  fill_descs-AreFragments :
      (qs : List Segment) (n idx : ℕ) (t : Tx)
      → fidx < 8
      → 0 < n
      → n + length qs ≤ 8
      → idx ≡ walk n fidx
      → ((k : ℕ) → k < length qs → IsClean (t.ptdesc (walk k idx)))
      → AreFragments false (fill_descs fidx p pcopy qs idx t).0.ptdesc idx qs
  unfolding fill_descs AreFragments
  fill_descs-AreFragments [] n idx t small pos room e clean = tt
  fill_descs-AreFragments (q ∷ qs) n idx t small pos room e clean =
      let t' = fill_desc fidx p pcopy q (is_last qs) idx t in
      let bound : idx < 8 = rw e (walk_bound n fidx small) in
      let other : idx ≢ fidx = λ same. walk_ne n fidx small pos (omega arith) (sym e ∙ same) in
      (
        rw
            (fill_descs-other qs (next_idx 8 idx) t' idx
              (λ k less. walk_ne (suc k) idx bound (omega arith) (omega arith)))
            (fill_desc-IsFragment q (is_last qs) idx t other (clean 0 (omega arith))),
        fill_descs-AreFragments qs (suc n) (next_idx 8 idx) t' small (omega arith) (omega arith)
            (ap (next_idx 8) e ∙ next-walk n fidx)
            (λ k less.
              rw
                (fill_desc-other q (is_last qs) idx t (walk k (next_idx 8 idx))
                  (walk_ne (suc k) idx bound (omega arith) (omega arith)))
                (clean (suc k) (omega arith))),
      )

  first-IsFragment :
      (q : Segment) (last : Bool) (t : Tx)
      → IsClean (t.ptdesc fidx)
      → IsFragment true last q
          (record ((fill_desc fidx p pcopy q last fidx t).ptdesc fidx) { own = true })
  unfolding fill_desc
  first-IsFragment q true t clean = record {
    own = refl;
    fs = ground arith;
    ls = ground arith;
    ic = ground arith;
    cic = ground arith;
    b1add = ground arith;
    bsize = ground arith;
  }
  first-IsFragment q false t clean = record {
    own = refl;
    fs = ground arith;
    ls = ground (arith, clean.ls);
    ic = ground (arith, clean.ic);
    cic = ground arith;
    b1add = ground arith;
    bsize = ground arith;
  }

module _ (p : Packet) (pcopy : Bool) (t : Tx) (ring : IsRing t)
    (room : length (segments p) ≤ t.tx_free_descs) (clean : AreClean t) where
  fill_small : t.tx_fill_idx < 8
  fill_small = rw ring.fill (walk_bound (8 - t.tx_free_descs) t.tx_reclaim_idx ring.reclaim)

  -- Where there are descriptors for it, a chain is handed over as one frame: from the index to fill
  -- on, each piece in its place with its address and its length, the first flag on the first piece
  -- only, the last flag and the interrupt on the last one only, and every descriptor with the DMA.
  pub transmit-AreFragments :
      AreFragments true (transmit p pcopy t).ptdesc t.tx_fill_idx (segments p)
  unfolding transmit fill_descs AreFragments AreClean
  transmit-AreFragments =
      let fidx = t.tx_fill_idx in
      let start = log mutex_lock t in
      let t₁ = fill_desc fidx p pcopy p.first (is_last p.others) fidx start in
      let few : 1 + length p.others ≤ 8 = omega (arith, ring.free, room) in
      let apart : (k : ℕ) → k < length p.others → walk k (next_idx 8 fidx) ≢ fidx =
        λ k less. walk_ne (suc k) fidx fill_small (omega arith) (omega (arith, few)) in
      (
        rw
            (set_same (fill_descs fidx p pcopy p.others (next_idx 8 fidx) t₁).0.ptdesc fidx
              (record ((fill_descs fidx p pcopy p.others (next_idx 8 fidx) t₁).0.ptdesc fidx) {
                own = true;
              }))
            (rw (fill_descs-other fidx p pcopy p.others (next_idx 8 fidx) t₁ fidx apart) (
              first-IsFragment fidx p pcopy p.first (is_last p.others) start
                (clean 0 (omega (arith, room))))),
        AreFragments-set false _ fidx _ p.others (next_idx 8 fidx) apart (
            fill_descs-AreFragments fidx p pcopy p.others 1 (next_idx 8 fidx) t₁ fill_small
              (omega arith) few refl
              (λ k less.
                rw
                  (fill_desc-other fidx p pcopy p.first (is_last p.others) fidx start
                    (walk k (next_idx 8 fidx)) (apart k less))
                  (clean (suc k) (omega (arith, room))))),
      )

  pub transmit-AreClean : AreClean (transmit p pcopy t)
  unfolding transmit AreClean
  transmit-AreClean k less =
      let n = length (segments p) in
      let fidx = t.tx_fill_idx in
      let start = log mutex_lock t in
      let q =
        fill_descs-IsQueued fidx p pcopy fidx (segments p) 0 fidx start fill_small
          (omega (arith, ring.free, room)) room ring.free refl in
      let below : n + k < t.tx_free_descs = omega (arith, q.free) in
      let place : walk k (transmit p pcopy t).tx_fill_idx ≡ walk (n + k) fidx =
        ap (walk k) (q.idx ∙ ap (λ j. walk j fidx) {x = 0 + n} {y = n} (omega arith))
        ∙ walk_add n k fidx in
      rw place (
        rw
          (
            set_other (fill_descs fidx p pcopy (segments p) fidx start).0.ptdesc fidx
                (walk (n + k) fidx) _
                (walk_ne (n + k) fidx fill_small (omega arith) (omega (arith, below, ring.free))),
            fill_descs-other fidx p pcopy (segments p) fidx start (walk (n + k) fidx) (λ i early.
                walk_apart i (n + k) fidx fill_small (omega arith)
                  (omega (arith, below, ring.free))),
          )
          (clean (n + k) below))
