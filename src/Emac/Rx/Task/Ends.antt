-- ===== src/Emac/Rx/Task/Ends.antt =====
-- When the loop of `vPacketReceiveTask` ends.
use rtu_com.Common.{
  ℕ, zero, suc, ◌+◌, ◌-◌, ◌≤◌, ◌<◌, ◌≡◌, ◌∙◌, ap, refl, sym, subst, List, Bool, true, false, ltb,
  none, some, arith, Bool-cases, inl, inr,
}
use rtu_com.Emac.Ring.{walk, walk_mod, walk_ne, next_idx_bound}
use rtu_com.Emac.Rx.{Pbuf, Rx, RxCall, Env, rx_queue_loop, lpc_low_level_input, lpc_enetif_input}
use rtu_com.Emac.Rx.Sound.{IsSound, lpc_enetif_input-IsSound}
use rtu_com.Emac.Rx.Task.{receive_loop}
use rtu_com.Emac.Rx.Task.Round.{IsFull, IsRefreshed, lpc_enetif_input-IsRefreshed}

-- The last `j` descriptors before `rx_get_idx` belong to the DMA.
AreOwned : ℕ → Rx → Type 0
AreOwned j r = (i : ℕ) → i < j → (r.prdesc (walk (8 - j + i) r.rx_get_idx)).status.own ≡ true

AreOwned-next :
    (j : ℕ) (r r' : Rx) → j < 8 → IsFull r → IsRefreshed r r' → AreOwned j r → AreOwned (j + 1) r'
unfolding AreOwned
AreOwned-next j r r' less full h owned i below =
    let n = 8 - (j + 1) + i in
    let at : walk n r'.rx_get_idx ≡ walk (8 - j + i) r.rx_get_idx =
      ap (walk n) h.get ∙ ap (λ k. walk k r.rx_get_idx) {x = suc n} {y = 8 - j + i} (omega arith) in
    rw at (elim (Bool-cases (ltb i j)) [
      | inl earlier ↦
          rw
            (h.others (walk (8 - j + i) r.rx_get_idx)
              (walk_ne (8 - j + i) r.rx_get_idx full.get (omega arith) (ground arith)))
            (owned i (ground arith))
      | inr last ↦
          let round : walk (8 - j + i) r.rx_get_idx ≡ r.rx_get_idx =
            walk_mod (8 - j + i) r.rx_get_idx full.get ∙ ground (arith, full.get) in
          rw round h.own
    ])

-- A frame that has come lies in a descriptor that the DMA does not own.
AreOwned-less :
    (j : ℕ) (r : Rx) → j ≤ 8 → (r.prdesc r.rx_get_idx).status.own ≡ false → AreOwned j r → j < 8
unfolding AreOwned
AreOwned-less j r most came owned = elim (Bool-cases (ltb j 8)) [
  | inl less ↦ ground arith
  | inr all ↦
      let here : walk (8 - j + 0) r.rx_get_idx ≡ r.rx_get_idx =
        ap (λ n. walk n r.rx_get_idx) {x = 8 - j + 0} {y = 0} (ground arith) in
      let own : (r.prdesc r.rx_get_idx).status.own ≡ true =
        sym (ap (λ i. (r.prdesc i).status.own) here) ∙ owned 0 (ground arith) in
      cc
]

IsFull-next : (r r' : Rx) → IsRefreshed r r' → IsFull r'
IsFull-next r r' h = record {
  free = h.free;
  get = rw h.get (next_idx_bound r.rx_get_idx);
  next = h.next ∙ sym h.get;
}

-- What the loop leaves.
pub record IsDrained (r : Rx) : Type 0 where
  pub sound : IsSound none r
  pub full : IsFull r
  pub waits : (r.prdesc r.rx_get_idx).status.own ≡ true

module _ (env : Env) (use_rmii full_duplex : Bool)
    (memory : (calls : List RxCall) → (p : Pbuf) × (env.pbuf_alloc calls ≡ some p)) where
  loop_ends :
      (fuel j : ℕ) (r : Rx)
      → 8 < fuel + j
      → j ≤ 8
      → IsSound none r
      → IsFull r
      → AreOwned j r
      → (r' : Rx) × (receive_loop fuel env use_rmii full_duplex r ≡ some r') × IsDrained r'
  unfolding receive_loop AreOwned
  loop_ends zero j r enough most sound full owned = absurd (omega arith)
  loop_ends (suc fuel) j r enough most sound full owned =
      elim (Bool-cases (r.prdesc r.rx_get_idx).status.own) [
        | inl own ↦
            (r, rw (own, receive_loop) refl, record { sound = sound; full = full; waits = own })
        | inr came ↦
            let (p, found) = memory r.calls in
            let (r₁, ends, h) =
              lpc_enetif_input-IsRefreshed env use_rmii full_duplex r p full came found in
            let (r₂, ends₂, s₂) =
              lpc_enetif_input-IsSound 9 env use_rmii full_duplex r (omega arith) sound in
            let same : r₂ ≡ r₁ = cc in
            let less : j < 8 = AreOwned-less j r most came owned in
            let (r', done, drained) =
              loop_ends fuel (j + 1) r₁ (omega arith) (omega arith) (subst (IsSound none) same s₂)
                (IsFull-next r r₁ h) (AreOwned-next j r r₁ less full h owned) in
            (r', rw (came, ends, receive_loop) done, drained)
      ]

  -- Where each allocation of a receive buffer succeeds and each descriptor has a pbuf, the loop of
  -- `vPacketReceiveTask` ends within eight frames if no more come: the task waits for the next
  -- interrupt, with a pbuf in each descriptor, and each pbuf has been accounted for.
  pub receive_loop-IsDrained :
      (fuel : ℕ) (r : Rx)
      → 8 < fuel
      → IsSound none r
      → r.rx_free_descs ≡ 0
      → (r' : Rx) × (receive_loop fuel env use_rmii full_duplex r ≡ some r') × IsDrained r'
  unfolding AreOwned
  receive_loop-IsDrained fuel r enough sound no_free =
      let back : walk (8 - r.rx_free_descs) r.rx_get_idx ≡ r.rx_get_idx =
        walk_mod (8 - r.rx_free_descs) r.rx_get_idx sound.ring.get
        ∙ omega (arith, no_free, sound.ring.get) in
      let full : IsFull r = record {
        free = no_free;
        get = sound.ring.get;
        next = sound.ring.next ∙ back;
      } in
      loop_ends fuel 0 r (omega arith) (omega arith) sound full (λ i below. absurd (omega arith))

lpc_enetif_input_same :
    (env : Env) (use_rmii full_duplex : Bool) (r : Rx)
    → env.pbuf_alloc r.calls ≡ none
    → r.rx_free_descs ≡ 8
    → lpc_enetif_input 9 env use_rmii full_duplex r ≡ some r
unfolding lpc_enetif_input lpc_low_level_input rx_queue_loop
lpc_enetif_input_same env use_rmii full_duplex r no_memory all_free = rw (all_free, no_memory) refl

-- Without memory for receive buffers, and with each descriptor taken out, the loop of
-- `vPacketReceiveTask` does not end: `lpc_enetif_input` changes nothing, and the task spins.
pub receive_loop_spins :
    (fuel : ℕ) (env : Env) (use_rmii full_duplex : Bool) (r : Rx)
    → env.pbuf_alloc r.calls ≡ none
    → r.rx_free_descs ≡ 8
    → (r.prdesc r.rx_get_idx).status.own ≡ false
    → receive_loop fuel env use_rmii full_duplex r ≡ none
unfolding receive_loop
receive_loop_spins zero env use_rmii full_duplex r no_memory all_free came = refl
receive_loop_spins (suc fuel) env use_rmii full_duplex r no_memory all_free came =
    rw (came, lpc_enetif_input_same env use_rmii full_duplex r no_memory all_free, receive_loop)
      (receive_loop_spins fuel env use_rmii full_duplex r no_memory all_free came)
