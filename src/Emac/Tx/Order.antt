-- ===== src/Emac/Tx/Order.antt =====
-- The order in which the DMA gives the descriptors of the transmit ring back.
use rtu_com.Common.{
  ℕ, zero, suc, ◌+◌, ◌-◌, ◌≤◌, ◌<◌, ◌≡◌, ◌≢◌, ◌∙◌, ap, refl, sym, subst, List, [], ◌∷◌, length,
  Bool, true, false, not, ◌&&◌, ltb, ◌==◌, some, arith, Bool-cases, inl, inr,
}
use rtu_com.Emac.{next_idx}
use rtu_com.Emac.Ring.{walk, walk_ne, walk_add, walk_mod, set_same, next_idx_bound, set, set_other}
use rtu_com.Emac.Tx.{Segment, Packet, segments, TxDesc, Tx, log, mutex_lock, fill_descs, transmit}
use rtu_com.Emac.Tx.CleanUp.{reclaim_desc, reclaim_loop, end_reclaim, lpc_tx_reclaim}
use rtu_com.Emac.Tx.Pending.{IsRing}
use rtu_com.Emac.Tx.Frames.{
  AreClean, AreFragments, walk_apart, fill_descs-other, transmit-AreFragments,
}
use rtu_com.Emac.Tx.Transmit.{transmit-free, transmit-reclaim}
use rtu_com.Emac.Tx.Reclaim.{reclaim_desc-free, reclaim_loop-IsReclaimed}

-- The `k`-th descriptor in use, the oldest first.
abbrev pub in_use : Tx → ℕ → TxDesc
in_use t k = t.ptdesc (walk k t.tx_reclaim_idx)

abbrev pub used : Tx → ℕ
used t = 8 - t.tx_free_descs

unfoldable pub IsInOrder : Tx → Type 0
IsInOrder t =
    (k : ℕ) → k < used t → (in_use t k).own ≡ false → (j : ℕ) → j < k → (in_use t j).own ≡ false

AreFragments-own :
    (first : Bool) (f : ℕ → TxDesc) (qs : List Segment) (idx i : ℕ)
    → AreFragments first f idx qs
    → i < length qs
    → (f (walk i idx)).own ≡ true
unfolding AreFragments
AreFragments-own first f [] idx i h less = absurd (omega arith)
AreFragments-own first f (q ∷ qs) idx zero (head, tail) less = head.own
AreFragments-own first f (q ∷ qs) idx (suc i) (head, tail) less =
    AreFragments-own false f qs (next_idx 8 idx) i tail (omega arith)

differ : {b : Bool} → b ≡ true → b ≡ false → ⊥
differ h h' = cc

module _ (p : Packet) (pcopy : Bool) (t : Tx) (ring : IsRing t)
    (room : length (segments p) ≤ t.tx_free_descs) (clean : AreClean t) where
  transmit-other :
      (i : ℕ)
      → ((j : ℕ) → j < length (segments p) → walk j t.tx_fill_idx ≢ i)
      → (transmit p pcopy t).ptdesc i ≡ t.ptdesc i
  unfolding transmit
  transmit-other i apart =
      set_other
        (fill_descs t.tx_fill_idx p pcopy (segments p) t.tx_fill_idx (log mutex_lock t)).0.ptdesc
        t.tx_fill_idx i _ (λ same. apart 0 (omega arith) (sym same))
      ∙ fill_descs-other t.tx_fill_idx p pcopy (segments p) t.tx_fill_idx (log mutex_lock t) i apart

  -- What was in use stays as it was.
  pub transmit-in_use : (k : ℕ) → k < used t → in_use (transmit p pcopy t) k ≡ in_use t k
  transmit-in_use k less =
      ap (λ h. (transmit p pcopy t).ptdesc (walk k h)) (transmit-reclaim p pcopy t ring room)
      ∙ (transmit-other (walk k t.tx_reclaim_idx) (λ j early e.
          walk_apart k (used t + j) t.tx_reclaim_idx ring.reclaim (omega arith)
            (omega (arith, room, ring.free))
            (sym e ∙ ap (walk j) ring.fill ∙ walk_add (used t) j t.tx_reclaim_idx)))

  -- What has come belongs to the DMA.
  pub transmit-own :
      (k : ℕ)
      → used t ≤ k
      → k < used (transmit p pcopy t)
      → (in_use (transmit p pcopy t) k).own ≡ true
  transmit-own k more less =
      let i = k - used t in
      let place : walk k t.tx_reclaim_idx ≡ walk i t.tx_fill_idx = sym (
        ap (walk i) ring.fill
        ∙ walk_add (used t) i t.tx_reclaim_idx
        ∙ ap (λ n. walk n t.tx_reclaim_idx) {x = used t + i} {y = k} (omega arith)) in
      ap (λ h. ((transmit p pcopy t).ptdesc (walk k h)).own) (transmit-reclaim p pcopy t ring room)
      ∙ ap (λ h. ((transmit p pcopy t).ptdesc h).own) place
      ∙ (AreFragments-own true (transmit p pcopy t).ptdesc (segments p) t.tx_fill_idx i
          (transmit-AreFragments p pcopy t ring room clean)
          (omega (arith, transmit-free p pcopy t ring room)))

  pub transmit-IsInOrder : IsInOrder t → IsInOrder (transmit p pcopy t)
  unfolding IsInOrder
  transmit-IsInOrder order k less own j before = elim (Bool-cases (ltb k (used t))) [
    | inl old ↦
        let small : k < used t = ground arith in
        rw (transmit-in_use j (omega arith)) (
          order k small (sym (ap (λ (d : TxDesc). d.own) (transmit-in_use k small)) ∙ own) j before)
    | inr new ↦ absurd (differ (transmit-own k (ground arith) less) own)
  ]

reclaim_desc-other :
    (ridx : ℕ) (t : Tx) (i : ℕ) → i ≢ ridx → (reclaim_desc ridx t).ptdesc i ≡ t.ptdesc i
unfolding reclaim_desc
reclaim_desc-other ridx t i ne = set_other t.ptdesc ridx i _ ne

reclaim_loop-rest :
    (fuel ridx : ℕ) (t : Tx) (r : Tx × ℕ)
    → 8 < fuel + t.tx_free_descs
    → t.tx_free_descs ≤ 8
    → ridx < 8
    → reclaim_loop fuel ridx t ≡ some r
    → (i : ℕ) → i < used r.0
    → r.0.ptdesc (walk i r.1) ≡ t.ptdesc (walk i r.1)
unfolding reclaim_loop
reclaim_loop-rest zero ridx t r enough bound small ends i less = cc
reclaim_loop-rest (suc fuel) ridx t r enough bound small ends i less =
    elim (Bool-cases (ltb t.tx_free_descs 8 && not (t.ptdesc ridx).own)) [
      | inl go ↦
          let t' = reclaim_desc ridx t in
          let more : t.tx_free_descs < 8 = ground arith in
          let free : t'.tx_free_descs ≡ t.tx_free_descs + 1 = reclaim_desc-free ridx t bound in
          let (r₁, k, ends₁, h) =
            reclaim_loop-IsReclaimed fuel (next_idx 8 ridx) t' (omega arith) (omega arith)
              (next_idx_bound ridx) in
          let rest : reclaim_loop (suc fuel) ridx t ≡ reclaim_loop fuel (next_idx 8 ridx) t' =
            rw (go, reclaim_loop) refl in
          let same : r₁ ≡ r = cc in
          let place : walk i r.1 ≡ walk (suc k + i) ridx =
            ap (λ (x : Tx × ℕ). walk i x.1) (sym same)
            ∙ ap (walk i) h.idx
            ∙ walk_add (suc k) i ridx in
          let given : r.0.tx_free_descs ≡ t'.tx_free_descs + k =
            ap (λ (x : Tx × ℕ). x.0.tx_free_descs) (sym same) ∙ h.free in
          reclaim_loop-rest fuel (next_idx 8 ridx) t' r (omega arith) (omega arith)
            (next_idx_bound ridx) (sym rest ∙ ends) i less
          ∙ reclaim_desc-other ridx t (walk i r.1)
              (λ e. walk_ne (suc k + i) ridx small (omega arith) (omega arith) (sym place ∙ e))
      | inr halt ↦
          let stop : reclaim_loop (suc fuel) ridx t ≡ some (t, ridx) =
            rw (halt, reclaim_loop) refl in
          let same : (t, ridx) ≡ r = cc in
          subst (λ (x : Tx × ℕ). x.0.ptdesc (walk i x.1) ≡ t.ptdesc (walk i x.1)) same refl
    ]

-- The clean-up takes descriptors off the front.
pub lpc_tx_reclaim-in_use :
    (t t' : Tx)
    → IsRing t
    → lpc_tx_reclaim 9 t ≡ some t'
    → (k : ℕ) × (used t ≡ k + used t') × ((i : ℕ) → i < used t' → in_use t' i ≡ in_use t (k + i))
unfolding lpc_tx_reclaim
lpc_tx_reclaim-in_use t t' ring done =
    let start = log mutex_lock t in
    let (r, k, ends, h) =
      reclaim_loop-IsReclaimed 9 t.tx_reclaim_idx start (omega arith) ring.free ring.reclaim in
    let result : lpc_tx_reclaim 9 t ≡ some (end_reclaim r) = rw (ends, lpc_tx_reclaim) refl in
    let same : end_reclaim r ≡ t' = cc in
    subst
      (λ (x : Tx).
        (n : ℕ) × (used t ≡ n + used x) × ((i : ℕ) → i < used x → in_use x i ≡ in_use t (n + i)))
      same
      (
        k,
        omega (arith, h.free, h.bound),
        λ i less.
            reclaim_loop-rest 9 t.tx_reclaim_idx start r (omega arith) ring.free ring.reclaim ends i
              less
            ∙ ap t.ptdesc (ap (walk i) h.idx ∙ walk_add k i t.tx_reclaim_idx),
      )

pub lpc_tx_reclaim-IsInOrder :
    (t t' : Tx) → IsRing t → lpc_tx_reclaim 9 t ≡ some t' → IsInOrder t → IsInOrder t'
unfolding IsInOrder
lpc_tx_reclaim-IsInOrder t t' ring done order n less own j before =
    let (k, taken, left) = lpc_tx_reclaim-in_use t t' ring done in
    ap (λ (d : TxDesc). d.own) (left j (omega arith))
    ∙ order (k + n) (omega arith) (sym (ap (λ (d : TxDesc). d.own) (left n less)) ∙ own) (k + j)
        (omega arith)

-- The DMA has sent the `n`-th descriptor in use.
abbrev pub dma_sent : Tx → ℕ → Tx
dma_sent t n = record t {
  ptdesc = set t.ptdesc (walk n t.tx_reclaim_idx) (record (in_use t n) { own = false });
}

pub dma_sent-own : (t : Tx) (n : ℕ) → (in_use (dma_sent t n) n).own ≡ false
dma_sent-own t n = ap (λ (d : TxDesc). d.own) (set_same t.ptdesc (walk n t.tx_reclaim_idx) _)

pub dma_sent-ic : (t : Tx) (n : ℕ) → (in_use (dma_sent t n) n).ic ≡ (in_use t n).ic
dma_sent-ic t n = ap (λ (d : TxDesc). d.ic) (set_same t.ptdesc (walk n t.tx_reclaim_idx) _)

pub dma_sent-other :
    (t : Tx) (n k : ℕ)
    → t.tx_reclaim_idx < 8
    → n < 8
    → k < 8
    → k ≢ n
    → in_use (dma_sent t n) k ≡ in_use t k
dma_sent-other t n k small less below ne =
    set_other t.ptdesc (walk n t.tx_reclaim_idx) (walk k t.tx_reclaim_idx) _
      (λ e. omega (arith, walk_mod n t.tx_reclaim_idx small, walk_mod k t.tx_reclaim_idx small))

-- It comes after those before it.
pub dma_sent-IsInOrder :
    (t : Tx) (n : ℕ)
    → IsRing t
    → n < used t
    → ((j : ℕ) → j < n → (in_use t j).own ≡ false)
    → IsInOrder t
    → IsInOrder (dma_sent t n)
unfolding IsInOrder
dma_sent-IsInOrder t n ring less earlier order k k_less own j before = elim (Bool-cases (j == n)) [
  | inl e ↦
      let here : j ≡ n = ground arith in
      ap (λ i. (in_use (dma_sent t n) i).own) here ∙ dma_sent-own t n
  | inr e ↦
      let there : j ≢ n = ground arith in
      ap (λ (d : TxDesc). d.own)
        (dma_sent-other t n j ring.reclaim (omega arith) (omega arith) there)
      ∙ elim (Bool-cases (k == n)) [
        | inl f ↦ earlier j (ground arith)
        | inr f ↦
            let other : k ≢ n = ground arith in
            order k k_less
              (sym (
                  ap (λ (d : TxDesc). d.own)
                    (dma_sent-other t n k ring.reclaim (omega arith) (omega arith) other))
                ∙ own)
              j before
      ]
]
