-- ===== src/Emac/Tx/Transmit.antt =====
-- What `lpc_low_level_output` does once there are descriptors for the chain.
use rtu_com.Common.{
  ℕ, ◌+◌, ◌-◌, ◌≤◌, ◌<◌, ◌≡◌, ◌∙◌, ap, ap₂, refl, sym, [], ◌∷◌, ◌++◌, length, Bool, if◌then◌else◌,
  arith,
}
use rtu_com.Emac.{next_idx}
use rtu_com.Emac.Ring.{walk, window, walk_bound}
use rtu_com.Emac.Tx.{Packet, segments, Tx, log, mutex_lock, is_last, fill_descs, transmit}
use rtu_com.Emac.Tx.Pending.{
  pending, acquired, freed, IsRing, entries, IsQueued, fill_descs-IsQueued, fill_descs-calls,
  first-acquired, first-freed,
}

module _ (p : Packet) (pcopy : Bool) (t : Tx) (ring : IsRing t)
    (room : length (segments p) ≤ t.tx_free_descs) where
  filled : Tx × ℕ
  filled = fill_descs t.tx_fill_idx p pcopy (segments p) t.tx_fill_idx (log mutex_lock t)

  fill_small : t.tx_fill_idx < 8
  fill_small = rw ring.fill (walk_bound (8 - t.tx_free_descs) t.tx_reclaim_idx ring.reclaim)

  queued :
      IsQueued t.tx_fill_idx p pcopy t.tx_reclaim_idx
        (segments p)
        (8 - t.tx_free_descs)
        (log mutex_lock t)
        filled
  unfolding filled
  queued =
      fill_descs-IsQueued t.tx_fill_idx p pcopy t.tx_reclaim_idx (segments p) (8 - t.tx_free_descs)
        t.tx_fill_idx (log mutex_lock t) ring.reclaim (omega (arith, ring.free)) room ring.free
        ring.fill

  in_use : 8 - t.tx_free_descs + length (segments p) ≡ 8 - filled.0.tx_free_descs
  in_use = omega (arith, queued.free, ring.free, room)

  pub transmit-free : (transmit p pcopy t).tx_free_descs + length (segments p) ≡ t.tx_free_descs
  unfolding transmit filled
  transmit-free = queued.free

  pub transmit-reclaim : (transmit p pcopy t).tx_reclaim_idx ≡ t.tx_reclaim_idx
  unfolding transmit filled
  transmit-reclaim = queued.reclaim

  -- The indices still agree.
  pub transmit-IsRing : IsRing (transmit p pcopy t)
  unfolding transmit filled
  transmit-IsRing = record {
    free = omega (arith, queued.free, ring.free);
    reclaim = omega (arith, queued.reclaim, ring.reclaim);
    fill = queued.idx ∙ ap₂ walk in_use (sym queued.reclaim);
  }

  -- The chain has joined the queue behind the others.
  pub pending-transmit : pending (transmit p pcopy t) ≡ pending t ++ entries p.ref (segments p)
  unfolding transmit filled
  pending-transmit =
      ap₂ (λ h n. window filled.0.txpbufs h n) queued.reclaim (sym in_use) ∙ queued.saved

  later_calls :
      (first : Tx)
      → (fill_descs t.tx_fill_idx p pcopy p.others (next_idx 8 t.tx_fill_idx) first).0.calls
        ≡ first.calls
  later_calls first =
      fill_descs-calls t.tx_fill_idx p pcopy p.others 1 (next_idx 8 t.tx_fill_idx) first fill_small
        (omega arith) (omega (arith, ring.free)) refl

  pub acquired-transmit :
      acquired (transmit p pcopy t).calls ≡ acquired t.calls ++ (if pcopy then [] else p.ref ∷ [])
  unfolding transmit fill_descs
  acquired-transmit =
      ap acquired (later_calls _)
      ∙ first-acquired t.tx_fill_idx p pcopy p.first (is_last p.others) (log mutex_lock t)

  pub freed-transmit : freed (transmit p pcopy t).calls ≡ freed t.calls
  unfolding transmit fill_descs
  freed-transmit =
      ap freed (later_calls _)
      ∙ first-freed t.tx_fill_idx p pcopy p.first (is_last p.others) (log mutex_lock t)
