-- ===== src/Emac/Driver/Transmit.antt =====
-- `vTransmitCleanupTask` and what wakes it.
use rtu_com.Common.{
  ℕ, ◌<◌, ◌≤◌, ◌≡◌, ◌⊎◌, inl, inr, ap, refl, sym, ◌∙◌, subst, Bool, true, false, ltb, ◌==◌, length,
  Option, some, arith, Bool-cases,
}
use rtu_com.Emac.Tx.{
  Packet, Block, copied, copy_of, segments, Tx, send_relocated, transmit, send_when_ready,
  lpc_low_level_output,
}
use rtu_com.Emac.Tx.CleanUp.{lpc_tx_reclaim}
use rtu_com.Emac.Tx.Pending.{IsRing}
use rtu_com.Emac.Tx.Frames.{AreClean}
use rtu_com.Emac.Tx.Order.{
  in_use, used, IsInOrder, transmit-in_use, transmit-own, transmit-IsInOrder,
  lpc_tx_reclaim-IsInOrder, dma_sent, dma_sent-ic, dma_sent-other, dma_sent-IsInOrder,
}
use rtu_com.Emac.Tx.Reclaim.{IsCleaned, lpc_tx_reclaim-IsCleaned}
use rtu_com.Emac.Tx.Runs.{after, relocate-cases}
use rtu_com.Emac.Mac.{DmaStat, clear_stat, eth_irq_handler}
use rtu_com.Emac.Mac.Start.{tx_bits}
use rtu_com.Emac.Driver.Awake.{Awake, Awake-enter, Awake-leave, Awake-raise, Awake-none}
use rtu_com.Emac.Driver.{
  Driver, waits, irq_enter, irq_leave, or_stat, transmits, Step, irq_begins, irq_ends,
  receive_takes, receive_round, receive_waits, cleanup_takes, cleanup_round, output, retry,
  dma_receives, dma_transmits, raise,
}

-- The DMA has sent the last piece of a frame, whose descriptors can be taken back.
pub record FrameSent (t : Tx) : Type 0 where
  pub at : ℕ
  pub less : at < used t
  pub sent : (in_use t at).own ≡ false
  pub last : (in_use t at).ic ≡ true

-- Sending keeps the order and completes no frame.
record IsKept (t t' : Tx) : Type 0 where
  order : IsInOrder t → IsInOrder t'
  frame : FrameSent t' → FrameSent t

differ : {b : Bool} → b ≡ true → b ≡ false → ⊥
differ h h' = cc

some_inj {ℓ} : {A : Type ℓ} {x y : A} → some x ≡ some y → x ≡ y
some_inj e = cc

FrameSent-transmit :
    (p : Packet) (pcopy : Bool) (t : Tx) (ring : IsRing t)
    → length (segments p) ≤ t.tx_free_descs
    → AreClean t
    → FrameSent (transmit p pcopy t)
    → FrameSent t
FrameSent-transmit p pcopy t ring room clean f = elim (Bool-cases (ltb f.at (used t))) [
  | inl old ↦
      let same = transmit-in_use p pcopy t ring room clean f.at (ground arith) in
      record {
        at = f.at;
        less = ground arith;
        sent = sym (ap (λ d. d.own) same) ∙ f.sent;
        last = sym (ap (λ d. d.ic) same) ∙ f.last;
      }
  | inr new ↦
      absurd (differ (transmit-own p pcopy t ring room clean f.at (ground arith) f.less) f.sent)
]

send_when_ready-IsKept :
    (t₀ t : Tx) (p : Packet) (pcopy : Bool)
    → IsRing t
    → AreClean t
    → IsKept t (after t₀ (send_when_ready p pcopy t)).tx
unfolding send_when_ready
send_when_ready-IsKept t₀ t p pcopy ring clean =
    elim (Bool-cases (ltb t.tx_free_descs (length (segments p)))) [
      | inl e ↦ rw e (record { order = λ o. o; frame = λ f. f })
      | inr e ↦
          let room : length (segments p) ≤ t.tx_free_descs = ground arith in
          rw e (record {
            order = transmit-IsInOrder p pcopy t ring room clean;
            frame = FrameSent-transmit p pcopy t ring room clean;
          })
    ]

lpc_low_level_output-IsKept :
    (alloc : Option Block) (p : Packet) (t : Tx)
    → IsRing t
    → AreClean t
    → IsKept t (after t (lpc_low_level_output alloc p t)).tx
unfolding lpc_low_level_output AreClean IsInOrder
lpc_low_level_output-IsKept alloc p t ring clean = elim (relocate-cases alloc p t) [
  | inl e ↦
      subst (λ o. IsKept t (after t (send_relocated o)).tx) (sym e)
        (record { order = λ o. o; frame = λ f. f })
  | inr (inl e) ↦
      subst (λ o. IsKept t (after t (send_relocated o)).tx) (sym e)
        (send_when_ready-IsKept t t p false ring clean)
  | inr (inr (wp, e)) ↦
      let t' = copied wp p t in
      let kept =
        send_when_ready-IsKept t t' (copy_of wp p) true
          (record { free = ring.free; reclaim = ring.reclaim; fill = ring.fill }) clean in
      subst (λ o. IsKept t (after t (send_relocated o)).tx) (sym e)
        (record {
          order = kept.order;
          frame = λ f.
              let g = kept.frame f in
              record { at = g.at; less = g.less; sent = g.sent; last = g.last };
        })
]

-- After the clean-up the oldest descriptor in use belongs to the DMA.
not_sent : (t t' : Tx) → IsRing t → lpc_tx_reclaim 9 t ≡ some t' → IsInOrder t → ¬ FrameSent t'
unfolding IsInOrder
not_sent t t' ring ends order f =
    let (t₂, ends₂, c) = lpc_tx_reclaim-IsCleaned 9 t (omega arith) ring in
    let same : t₂ ≡ t' = some_inj (sym ends₂ ∙ ends) in
    let order' = lpc_tx_reclaim-IsInOrder t t' ring ends order in
    let first : (in_use t' 0).own ≡ false = elim (Bool-cases (ltb 0 f.at)) [
      | inl later ↦ order' f.at f.less f.sent 0 (ground arith)
      | inr now ↦
          let zeroth : f.at ≡ 0 = ground arith in sym (ap (λ i. (in_use t' i).own) zeroth) ∙ f.sent
    ] in
    elim ((subst (IsCleaned t) same c).stop) [
      | inl all_free ↦ omega (arith, f.less, all_free)
      | inr owned ↦ differ owned first
    ]

-- A piece that the DMA sends completes a frame only where it raises TI.
FrameSent-dma :
    (t : Tx) (k : ℕ)
    → IsRing t
    → k < used t
    → FrameSent (dma_sent t k)
    → FrameSent t ⊎ ((in_use t k).ic ≡ true)
FrameSent-dma t k ring less f = elim (Bool-cases (f.at == k)) [
  | inl e ↦
      let here : f.at ≡ k = ground arith in
      inr (sym (dma_sent-ic t k) ∙ ap (λ i. (in_use (dma_sent t k) i).ic) (sym here) ∙ f.last)
  | inr e ↦
      let same =
        dma_sent-other t k f.at ring.reclaim (omega arith) (omega (arith, f.less)) (ground arith) in
      inl (record {
        at = f.at;
        less = f.less;
        sent = sym (ap (λ d. d.own) same) ∙ f.sent;
        last = sym (ap (λ d. d.ic) same) ∙ f.last;
      })
]

abbrev pub TxAwake : Driver → Type 0
TxAwake s =
    Awake tx_bits s.tx_clean_sem s.dma_stat s.ints ((s.cleanup_task ≡ waits) × FrameSent s.tx.tx)

clear_keeps :
    (i stat : DmaStat)
    → tx_bits i ≡ false
    → tx_bits stat ≡ true
    → tx_bits (clear_stat i stat) ≡ true
clear_keeps i stat down up = ground arith

raised : (a b : DmaStat) → tx_bits a ≡ true → tx_bits (or_stat a b) ≡ true
raised a b h = ground arith

transmits_keeps :
    (k : ℕ) (s : Driver) → tx_bits s.dma_stat ≡ true → tx_bits (transmits k s).dma_stat ≡ true
transmits_keeps k s h = ground arith

transmits_raises :
    (k : ℕ) (s : Driver) → (in_use s.tx.tx k).ic ≡ true → tx_bits (transmits k s).dma_stat ≡ true
transmits_raises k s h = rw h refl

module _ {s : Driver} (ring : IsRing s.tx.tx) (clean : AreClean s.tx.tx)
    (order : IsInOrder s.tx.tx) where
  pub Step-TxAwake : {s' : Driver} → Step s s' → TxAwake s → TxAwake s'
  unfolding irq_enter irq_leave eth_irq_handler
  Step-TxAwake (irq_begins idle) h = record {
    wake = (Awake-enter h).wake;
    seen = (Awake-enter h).seen;
  }
  Step-TxAwake (irq_ends ints e) h = Awake-leave h ints e (clear_keeps ints s.dma_stat)
  Step-TxAwake (receive_takes idle w sem) h = h
  Step-TxAwake (receive_round env use_rmii full_duplex rx idle r come ends) h = h
  Step-TxAwake (receive_waits idle r owned) h = h
  Step-TxAwake (cleanup_takes idle w sem) h = Awake-none idle (λ (w', sent). cc)
  Step-TxAwake (cleanup_round tx idle r ends) h =
      Awake-none idle (λ (w', sent). not_sent s.tx.tx tx ring ends order sent)
  Step-TxAwake (output alloc p idle w) h =
      let kept = lpc_low_level_output-IsKept alloc p s.tx.tx ring clean in
      Awake-raise h _ _ (λ b. b) (λ (w', sent). inl (w', kept.frame sent))
  Step-TxAwake (retry p pcopy idle w) h =
      let kept = send_when_ready-IsKept s.tx.tx s.tx.tx p pcopy ring clean in
      Awake-raise h _ _ (λ b. b) (λ (w', sent). inl (w', kept.frame sent))
  Step-TxAwake (dma_receives i status owned) h = Awake-raise h _ _ (λ b. b) inl
  Step-TxAwake (dma_transmits k less before owned) h =
      Awake-raise h _ _ (transmits_keeps k s) (λ (w', sent).
        elim (FrameSent-dma s.tx.tx k ring less sent) [
          | inl old ↦ inl (w', old)
          | inr asked ↦ inr (transmits_raises k s asked)
        ])
  Step-TxAwake (raise bits) h = Awake-raise h _ _ (raised s.dma_stat bits) inl

  pub Step-IsInOrder : {s' : Driver} → Step s s' → IsInOrder s'.tx.tx
  unfolding irq_enter irq_leave
  Step-IsInOrder (irq_begins idle) = order
  Step-IsInOrder (irq_ends ints e) = order
  Step-IsInOrder (receive_takes idle w sem) = order
  Step-IsInOrder (receive_round env use_rmii full_duplex rx idle r come ends) = order
  Step-IsInOrder (receive_waits idle r owned) = order
  Step-IsInOrder (cleanup_takes idle w sem) = order
  Step-IsInOrder (cleanup_round tx idle r ends) =
      lpc_tx_reclaim-IsInOrder s.tx.tx tx ring ends order
  Step-IsInOrder (output alloc p idle w) =
      (lpc_low_level_output-IsKept alloc p s.tx.tx ring clean).order order
  Step-IsInOrder (retry p pcopy idle w) =
      (send_when_ready-IsKept s.tx.tx s.tx.tx p pcopy ring clean).order order
  Step-IsInOrder (dma_receives i status owned) = order
  Step-IsInOrder (dma_transmits k less before owned) =
      dma_sent-IsInOrder s.tx.tx k ring less before order
  Step-IsInOrder (raise bits) = order
