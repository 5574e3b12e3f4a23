-- ===== src/Emac/Tx/Runs.antt =====
-- Runs of the transmitter: the thread of lwIP that sends, the clean-up task and the DMA, in any order.
-- The two threads exclude one another by TXLockMutex, so that each of their operations is one step.
pub mod Framing
use rtu_com.Common.{
  ℕ, ◌≤◌, ◌≡◌, ◌∙◌, ap, ap₂, subst, ◌⊎◌, refl, sym, List, [], ◌∷◌, ◌++◌, append-nil, append_assoc,
  length, Bool, true, false, ltb, if◌then◌else◌, Option, none, some, arith, Bool-cases, inl, inr,
}
use rtu_com.Emac.Ring.{set}
use rtu_com.Emac.Tx.{
  Packet, Block, segments, Tx, copied, Output, err_mem, waits, sent, lpc_tx_setup, relocate,
  needs_copy, copy_of, send_relocated, log, pbuf_alloc_ram, transmit, send_when_ready,
  lpc_low_level_output,
}
use rtu_com.Emac.Tx.CleanUp.{lpc_tx_reclaim}
use rtu_com.Emac.Tx.Pending.{
  pending, somes, somes-append, somes-entries, acquired, freed, IsRing, entries,
}
use rtu_com.Emac.Tx.Transmit.{transmit-IsRing, pending-transmit, acquired-transmit, freed-transmit}
use rtu_com.Emac.Tx.Reclaim.{IsCleaned, lpc_tx_reclaim-IsCleaned}

-- The driver, and the chain whose sender is waiting for descriptors.
pub record System : Type 0 where
  pub tx : Tx
  pub waiting : Option (Packet × Bool)

-- What a call of the sender leaves behind.
abbrev pub after : Tx → Output → System
after t err_mem = record { tx = t; waiting = none }
after t (waits p pcopy t') = record { tx = t'; waiting = some (p, pcopy) }
after t (sent t') = record { tx = t'; waiting = none }

pub data Step : System → System → Type 0 where
  -- lwIP sends a chain, with an answer of `pbuf_alloc`.
  output :
      (t : Tx) (alloc : Option Block) (p : Packet)
      → Step (record { tx = t; waiting = none }) (after t (lpc_low_level_output alloc p t))
  -- A sender that waits looks again.
  retry :
      (t : Tx) (p : Packet) (pcopy : Bool)
      → Step (record { tx = t; waiting = some (p, pcopy) }) (after t (send_when_ready p pcopy t))
  -- The clean-up task runs.
  clean :
      (t t' : Tx) (w : Option (Packet × Bool))
      → lpc_tx_reclaim 9 t ≡ some t'
      → Step (record { tx = t; waiting = w }) (record { tx = t'; waiting = w })
  -- The DMA has sent a descriptor that it owns.
  dma :
      (t : Tx) (w : Option (Packet × Bool)) (i : ℕ)
      → (t.ptdesc i).own ≡ true
      → Step
          (record { tx = t; waiting = w })
          (record {
            tx = record t { ptdesc = set t.ptdesc i (record (t.ptdesc i) { own = false }) };
            waiting = w;
          })

pub data Run (s : System) : System → Type 0 where
  here : Run s s
  next : {u v : System} → Run s u → Step u v → Run s v

-- The copy that a waiting sender holds.
abbrev pub held : Option (Packet × Bool) → List ℕ
held none = []
held (some (p, pcopy)) = if pcopy then p.ref ∷ [] else []

-- Each pbuf that the driver took hold of has been freed once, or is saved in a descriptor, or is held
-- by the sender: nothing is freed twice, nothing is lost, and the order is kept.
pub record IsSound (s : System) : Type 0 where
  pub ring : IsRing s.tx
  pub conserved : acquired s.tx.calls ≡ (freed s.tx.calls ++ somes (pending s.tx)) ++ held s.waiting

-- The chain moves from the sender's hand to its place in the descriptors.
moved :
    (pcopy : Bool) (ref : ℕ) (xs : List ℕ)
    → (xs ++ (if pcopy then ref ∷ [] else [])) ++ (if pcopy then [] else ref ∷ [])
      ≡ xs ++ (ref ∷ [])
moved true ref xs = append-nil (xs ++ (ref ∷ []))
moved false ref xs = ap (λ ys. ys ++ (ref ∷ [])) (append-nil xs)

transmit-IsSound :
    (t : Tx) (p : Packet) (pcopy : Bool)
    → length (segments p) ≤ t.tx_free_descs
    → IsSound (record { tx = t; waiting = some (p, pcopy) })
    → IsSound (record { tx = transmit p pcopy t; waiting = none })
transmit-IsSound t p pcopy room s = record {
  ring = transmit-IsRing p pcopy t s.ring room;
  conserved =
      acquired-transmit p pcopy t s.ring room
      ∙ ap (λ xs. xs ++ (if pcopy then [] else p.ref ∷ [])) s.conserved
      ∙ moved pcopy p.ref (freed t.calls ++ somes (pending t))
      ∙ append_assoc (freed t.calls) (somes (pending t)) (p.ref ∷ [])
      ∙ ap₂ ◌++◌ (sym (freed-transmit p pcopy t s.ring room)) (
          sym (
            ap somes (pending-transmit p pcopy t s.ring room)
            ∙ somes-append (pending t) (entries p.ref (segments p))
            ∙ ap (λ xs. somes (pending t) ++ xs) (somes-entries p.ref p.first p.others)))
      ∙ sym (append-nil _);
}

send_when_ready-IsSound :
    (t₀ t : Tx) (p : Packet) (pcopy : Bool)
    → IsSound (record { tx = t; waiting = some (p, pcopy) })
    → IsSound (after t₀ (send_when_ready p pcopy t))
unfolding send_when_ready
send_when_ready-IsSound t₀ t p pcopy s =
    elim (Bool-cases (ltb t.tx_free_descs (length (segments p)))) [
      | inl e ↦ rw e s
      | inr e ↦ rw e (transmit-IsSound t p pcopy (ground arith) s)
    ]

-- No memory for the copy; no copy needed; or a copy, which the driver has taken hold of.
pub relocate-cases :
    (alloc : Option Block) (p : Packet) (t : Tx)
    → (relocate alloc p t ≡ none)
      ⊎ ((relocate alloc p t ≡ some (p, false, t))
          ⊎ ((wp : Block) × (relocate alloc p t ≡ some (copy_of wp p, true, copied wp p t))))
unfolding relocate copy_of
relocate-cases none p t = elim (Bool-cases (needs_copy (segments p))) [
  | inl e ↦ inl (rw e refl)
  | inr e ↦ inr (inl (rw e refl))
]
relocate-cases (some wp) p t = elim (Bool-cases (needs_copy (segments p))) [
  | inl e ↦ inr (inr (wp, rw e refl))
  | inr e ↦ inr (inl (rw e refl))
]

-- A sender that has just begun, with the chain itself or with a copy.
IsSound-kept :
    (t : Tx) (p : Packet)
    → IsSound (record { tx = t; waiting = none })
    → IsSound (record { tx = t; waiting = some (p, false) })
IsSound-kept t p s = record { ring = s.ring; conserved = s.conserved }

IsSound-copied :
    (t : Tx) (wp : Block) (p : Packet)
    → IsSound (record { tx = t; waiting = none })
    → IsSound (record { tx = copied wp p t; waiting = some (copy_of wp p, true) })
unfolding copy_of
IsSound-copied t wp p s = record {
  ring = record { free = s.ring.free; reclaim = s.ring.reclaim; fill = s.ring.fill };
  conserved = ap (λ xs. xs ++ (wp.ref ∷ [])) (s.conserved ∙ append-nil _);
}

lpc_low_level_output-IsSound :
    (t : Tx) (alloc : Option Block) (p : Packet)
    → IsSound (record { tx = t; waiting = none })
    → IsSound (after t (lpc_low_level_output alloc p t))
unfolding lpc_low_level_output
lpc_low_level_output-IsSound t alloc p s = elim (relocate-cases alloc p t) [
  | inl e ↦ subst (λ o. IsSound (after t (send_relocated o))) (sym e) s
  | inr (inl e) ↦
      subst (λ o. IsSound (after t (send_relocated o))) (sym e)
        (send_when_ready-IsSound t t p false (IsSound-kept t p s))
  | inr (inr (wp, e)) ↦
      subst (λ o. IsSound (after t (send_relocated o))) (sym e)
        (send_when_ready-IsSound t _ _ true (IsSound-copied t wp p s))
]

IsSound-clean :
    (t t' : Tx) (w : Option (Packet × Bool))
    → IsCleaned t t'
    → IsSound (record { tx = t; waiting = w })
    → IsSound (record { tx = t'; waiting = w })
IsSound-clean t t' w c s = record {
  ring = c.ring;
  conserved = c.took ∙ s.conserved ∙ ap (λ xs. xs ++ held w) (sym c.gave);
}

Step-IsSound : {s s' : System} → Step s s' → IsSound s → IsSound s'
Step-IsSound (output t alloc p) s = lpc_low_level_output-IsSound t alloc p s
Step-IsSound (retry t p pcopy) s = send_when_ready-IsSound t t p pcopy s
Step-IsSound (clean t t' w e) s =
    let (t'', ends, c) = lpc_tx_reclaim-IsCleaned 9 t (omega arith) s.ring in
    let same : t'' ≡ t' = cc in IsSound-clean t t' w (subst (IsCleaned t) same c) s
Step-IsSound (dma t w i e) s = record {
  ring = record { free = s.ring.free; reclaim = s.ring.reclaim; fill = s.ring.fill };
  conserved = s.conserved;
}

-- From `lpc_tx_setup` on, with any packets, any memory, the clean-up task and the DMA at any time: each
-- pbuf that the driver referred to or allocated has been freed exactly once, or is saved in a
-- descriptor in use, or is the copy that the sender waits to send. The order is kept.
pub Run-IsSound :
    (t : Tx) {s : System}
    → t.calls ≡ []
    → Run (record { tx = lpc_tx_setup t; waiting = none }) s
    → IsSound s
unfolding lpc_tx_setup
Run-IsSound t e here = record {
  ring = record { free = omega arith; reclaim = omega arith; fill = refl };
  conserved = rw e refl;
}
Run-IsSound t e (next r st) = Step-IsSound st (Run-IsSound t e r)
