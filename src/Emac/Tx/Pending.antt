-- ===== src/Emac/Tx/Pending.antt =====
-- The chains that wait in the descriptors, oldest first, through the operations of the transmitter.
use rtu_com.Common.{
  ℕ, suc, ◌+◌, ◌-◌, ◌≤◌, ◌<◌, ◌≡◌, ◌≢◌, ◌∙◌, ap, refl, sym, List, [], ◌∷◌, ◌++◌, append-nil,
  append_assoc, length, Bool, true, false, if◌then◌else◌, Option, none, some, arith,
}
use native.Mathlib.Nat.{add-zero}
use rtu_com.Emac.{next_idx}
use rtu_com.Emac.Ring.{walk, window, walk_ne, next-walk, window-set_end, set}
use rtu_com.Emac.Tx.{
  Segment, Packet, TxCall, pbuf_alloc_ram, pbuf_ref, pbuf_free, Tx, is_last, fill_desc, fill_descs,
}

-- What is saved in the descriptors in use.
abbrev pub pending : Tx → List (Option ℕ)
pending t = window t.txpbufs t.tx_reclaim_idx (8 - t.tx_free_descs)

abbrev pub somes : List (Option ℕ) → List ℕ
somes [] = []
somes (none ∷ os) = somes os
somes (some p ∷ os) = p ∷ somes os

pub somes-append : (xs ys : List (Option ℕ)) → somes (xs ++ ys) ≡ somes xs ++ somes ys
somes-append [] ys = refl
somes-append (none ∷ xs) ys = somes-append xs ys
somes-append (some p ∷ xs) ys = ap (λ zs. p ∷ zs) (somes-append xs ys)

-- The pbufs that the driver took hold of, and those that it gave back, oldest first.
abbrev pub acquired : List TxCall → List ℕ
acquired [] = []
acquired (pbuf_alloc_ram p ∷ cs) = acquired cs ++ (p ∷ [])
acquired (pbuf_ref p ∷ cs) = acquired cs ++ (p ∷ [])
acquired (c ∷ cs) = acquired cs

abbrev pub freed : List TxCall → List ℕ
freed [] = []
freed (pbuf_free p ∷ cs) = freed cs ++ (p ∷ [])
freed (c ∷ cs) = freed cs

-- The indices of the ring agree: `tx_fill_idx` comes behind the descriptors in use.
pub record IsRing (t : Tx) : Type 0 where
  pub free : t.tx_free_descs ≤ 8
  pub reclaim : t.tx_reclaim_idx < 8
  pub fill : t.tx_fill_idx ≡ walk (8 - t.tx_free_descs) t.tx_reclaim_idx

-- What a chain leaves in `txpbufs`: its pointer, with its last descriptor.
abbrev pub entries : ℕ → List Segment → List (Option ℕ)
entries p [] = []
entries p (q ∷ qs) = (if is_last qs then some p else none) ∷ entries p qs

pub somes-entries : (p : ℕ) (q : Segment) (qs : List Segment) → somes (entries p (q ∷ qs)) ≡ p ∷ []
somes-entries p q [] = refl
somes-entries p q (q' ∷ qs) = somes-entries p q' qs

module _ (fidx : ℕ) (p : Packet) (pcopy : Bool) where
  -- What the loop over a chain changes, from the `n`-th descriptor behind `h` on.
  pub record IsQueued (h : ℕ) (qs : List Segment) (n : ℕ) (t : Tx) (r : Tx × ℕ) : Type 0 where
    pub idx : r.1 ≡ walk (n + length qs) h
    pub saved : window r.0.txpbufs h (n + length qs) ≡ window t.txpbufs h n ++ entries p.ref qs
    pub free : r.0.tx_free_descs + length qs ≡ t.tx_free_descs
    pub reclaim : r.0.tx_reclaim_idx ≡ t.tx_reclaim_idx

  fill_desc-fields :
      (q : Segment) (last : Bool) (idx : ℕ) (t : Tx)
      → 0 < t.tx_free_descs
      → t.tx_free_descs ≤ 8
      → ((fill_desc fidx p pcopy q last idx t).tx_reclaim_idx ≡ t.tx_reclaim_idx)
        × ((fill_desc fidx p pcopy q last idx t).tx_free_descs + 1 ≡ t.tx_free_descs)
        × ((fill_desc fidx p pcopy q last idx t).txpbufs
            ≡ set t.txpbufs idx (if last then some p.ref else none))
  unfolding fill_desc
  fill_desc-fields q last idx t some_free small = (ground arith, ground arith, refl)

  pub fill_descs-IsQueued :
      (h : ℕ) (qs : List Segment) (n idx : ℕ) (t : Tx)
      → h < 8
      → n + length qs ≤ 8
      → length qs ≤ t.tx_free_descs
      → t.tx_free_descs ≤ 8
      → idx ≡ walk n h
      → IsQueued h qs n t (fill_descs fidx p pcopy qs idx t)
  unfolding fill_descs
  fill_descs-IsQueued h [] n idx t small room less bound e = record {
    idx = rw add-zero e;
    saved = rw (add-zero, append-nil) refl;
    free = omega arith;
    reclaim = refl;
  }
  fill_descs-IsQueued h (q ∷ qs) n idx t small room less bound e =
      let (reclaim, free, saved) = fill_desc-fields q (is_last qs) idx t (omega arith) bound in
      let x : Option ℕ = if is_last qs then some p.ref else none in
      let ih =
        fill_descs-IsQueued h qs (suc n) (next_idx 8 idx)
          (fill_desc fidx p pcopy q (is_last qs) idx t) small (omega arith) (omega arith)
          (omega arith) (ap (next_idx 8) e ∙ next-walk n h) in
      record {
        idx =
            ih.idx
            ∙ ap (λ k. walk k h) {x = suc n + length qs} {y = n + suc (length qs)} (omega arith);
        saved =
            ap
              (λ k.
                window
                  (fill_descs fidx p pcopy qs (next_idx 8 idx)
                    (fill_desc fidx p pcopy q (is_last qs) idx t)).0.txpbufs
                  h k)
              {x = n + suc (length qs)} {y = suc n + length qs} (omega arith)
            ∙ ih.saved
            ∙ ap (λ xs. xs ++ entries p.ref qs)
                (ap (λ f. window f h (suc n)) (saved ∙ ap (λ i. set t.txpbufs i x) e)
                  ∙ window-set_end t.txpbufs x n h small (omega arith))
            ∙ append_assoc (window t.txpbufs h n) (x ∷ []) (entries p.ref qs);
        free = omega (arith, ih.free, free);
        reclaim = ih.reclaim ∙ reclaim;
      }

  fill_desc-calls :
      (q : Segment) (last : Bool) (idx : ℕ) (t : Tx)
      → idx ≢ fidx
      → (fill_desc fidx p pcopy q last idx t).calls ≡ t.calls
  unfolding fill_desc
  fill_desc-calls q last idx t other = ground arith

  -- Behind the first descriptor the loop calls nothing.
  pub fill_descs-calls :
      (qs : List Segment) (n idx : ℕ) (t : Tx)
      → fidx < 8
      → 0 < n
      → n + length qs ≤ 8
      → idx ≡ walk n fidx
      → (fill_descs fidx p pcopy qs idx t).0.calls ≡ t.calls
  unfolding fill_descs
  fill_descs-calls [] n idx t small pos room e = refl
  fill_descs-calls (q ∷ qs) n idx t small pos room e =
      fill_descs-calls qs (suc n) (next_idx 8 idx) (fill_desc fidx p pcopy q (is_last qs) idx t)
        small (omega arith) (omega arith) (ap (next_idx 8) e ∙ next-walk n fidx)
      ∙ fill_desc-calls q (is_last qs) idx t
          (λ same. walk_ne n fidx small pos (omega arith) (sym e ∙ same))

pub first-acquired :
    (fidx : ℕ) (p : Packet) (pcopy : Bool) (q : Segment) (last : Bool) (t : Tx)
    → acquired (fill_desc fidx p pcopy q last fidx t).calls
      ≡ acquired t.calls ++ (if pcopy then [] else p.ref ∷ [])
unfolding fill_desc
first-acquired fidx p true q last t = ground (arith, append-nil (acquired t.calls))
first-acquired fidx p false q last t = ground arith

pub first-freed :
    (fidx : ℕ) (p : Packet) (pcopy : Bool) (q : Segment) (last : Bool) (t : Tx)
    → freed (fill_desc fidx p pcopy q last fidx t).calls ≡ freed t.calls
unfolding fill_desc
first-freed fidx p true q last t = ground arith
first-freed fidx p false q last t = ground arith
