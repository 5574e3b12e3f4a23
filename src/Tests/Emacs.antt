-- ===== src/Tests/Emacs.antt =====
-- The Ethernet driver at concrete inputs.
use rtu_com.Common.{
  ℕ, ◌≤◌, zero, suc, ◌≡◌, refl, List, [], ◌∷◌, true, false, length, none, some, arith,
}
use rtu_com.Emac.Tx.{
  Segment, Packet, Block, segments, zero_desc, Tx, sent, lpc_tx_setup, needs_copy, relocate,
  fill_desc, fill_descs, transmit, send_when_ready, lpc_low_level_output,
}
use rtu_com.Emac.Ring.{set}
use rtu_com.Emac.Tx.CleanUp.{lpc_tx_reclaim}
use rtu_com.Emac.Tx.Reclaim.{IsCleaned, lpc_tx_reclaim-IsCleaned}
use rtu_com.Emac.Tx.Runs.{System, after, Step, Run, IsSound, Run-IsSound}
use rtu_com.Emac.Tx.Frames.{AreFragments}
use rtu_com.Emac.Tx.Runs.Framing.{Run-AreFragments}
use rtu_com.Emac.Mac.{Emac, Netif, err_ok, no_stat, DmaStat}
use rtu_com.Emac.Mac.Tasks.{Tasks, lpc_enetif_init}
use rtu_com.Emac.Mac.{initial_mac_config}
use rtu_com.Emac.Mac.Start.{IsStarted, all_created, lpc_enetif_init-IsStarted}
use rtu_com.Tests.Receives.{new_rx, env}

-- A driver that has not been set up.
abbrev pub new_tx : Tx
new_tx = record {
  ptdesc = λ i. zero_desc;
  txpbufs = λ i. none;
  tx_free_descs = 0;
  tx_fill_idx = 0;
  tx_reclaim_idx = 0;
  calls = [];
}

-- An answer of `pbuf_alloc`.
abbrev copy_block : Block
copy_block = record { ref = 300; payload = 0x20001000; room = 1536 }

-- A chain of two pbufs, the second one in slow memory.
abbrev two_parts : Packet
two_parts = record {
  ref = 100;
  first = record { payload = 0x20000000; bytes = 1 ∷ 2 ∷ [] };
  others = record { payload = 0x14000010; bytes = 3 ∷ [] } ∷ [];
}

-- A chain of two pbufs in fast memory.
abbrev fast_parts : Packet
fast_parts = record {
  ref = 200;
  first = record { payload = 0x20000000; bytes = 1 ∷ 2 ∷ [] };
  others = record { payload = 0x20000010; bytes = 3 ∷ [] } ∷ [];
}

abbrev ready : Tx
ready = lpc_tx_setup new_tx

-- Both chains are sent.
abbrev one_sent : System
one_sent = after ready (lpc_low_level_output none fast_parts ready)

abbrev two_sent : System
two_sent = after one_sent.tx (lpc_low_level_output (some copy_block) two_parts one_sent.tx)

not_waiting : one_sent ≡ record { tx = one_sent.tx; waiting = none }
unfolding lpc_low_level_output relocate needs_copy send_when_ready lpc_tx_setup
not_waiting = refl

sends : Run (record { tx = ready; waiting = none }) two_sent
unfolding lpc_low_level_output relocate needs_copy send_when_ready lpc_tx_setup
sends =
    Run.next (Run.next Run.here (Step.output ready none fast_parts))
      (Step.output one_sent.tx (some copy_block) two_parts)

Run-IsSound_example : IsSound two_sent
Run-IsSound_example = Run-IsSound new_tx refl sends

room : length (segments fast_parts) ≤ two_sent.tx.tx_free_descs
unfolding lpc_low_level_output relocate needs_copy send_when_ready lpc_tx_setup transmit fill_descs
    fill_desc
room = omega arith

Run-AreFragments_example :
    (t' : Tx) × (send_when_ready fast_parts false two_sent.tx ≡ sent t')
    × AreFragments true t'.ptdesc two_sent.tx.tx_fill_idx (segments fast_parts)
Run-AreFragments_example = Run-AreFragments new_tx fast_parts false refl sends room

abbrev pieces : ℕ → List Segment
pieces zero = []
pieces (suc n) = record { payload = 0x20000000; bytes = [] } ∷ pieces n

-- A chain of nine pbufs.
abbrev nine_parts : Packet
nine_parts = record {
  ref = 400;
  first = record { payload = 0x20000000; bytes = [] };
  others = pieces 8;
}

-- The DMA has sent the first chain, and not the copy behind it.
abbrev give_back : ℕ → Tx → Tx
give_back i t = record t { ptdesc = set t.ptdesc i (record (t.ptdesc i) { own = false }) }

abbrev half_sent : Tx
half_sent = give_back 1 (give_back 0 two_sent.tx)

half_sends : Run (record { tx = ready; waiting = none }) (record { tx = half_sent; waiting = none })
unfolding lpc_low_level_output relocate needs_copy send_when_ready lpc_tx_setup transmit fill_descs
    fill_desc
half_sends =
    Run.next (Run.next sends (Step.dma two_sent.tx none 0 refl))
      (Step.dma (give_back 0 two_sent.tx) none 1 refl)

-- Two descriptors can be cleaned up; the third one in use belongs to the DMA.
half_sent_owned :
    ((half_sent.ptdesc 0).own ≡ false)
    × (((half_sent.ptdesc 1).own ≡ false)
        × (((half_sent.ptdesc 2).own ≡ true) × (half_sent.tx_free_descs ≡ 5)))
unfolding lpc_low_level_output relocate needs_copy send_when_ready lpc_tx_setup transmit fill_descs
    fill_desc
half_sent_owned = (refl, (refl, (refl, refl)))

lpc_tx_reclaim-IsCleaned_example :
    (t' : Tx) × (lpc_tx_reclaim 9 half_sent ≡ some t') × IsCleaned half_sent t'
lpc_tx_reclaim-IsCleaned_example =
    lpc_tx_reclaim-IsCleaned 9 half_sent (omega arith) (Run-IsSound new_tx refl half_sends).ring

abbrev new_emac : Emac
new_emac = record {
  mac_config = initial_mac_config;
  promiscuous = false;
  dma_op_mode = record { ftf = false; rtc = 0; ttc = 0; st = false; sr = false };
  dma_stat = no_stat;
  int_enabled = false;
  tx = new_tx;
  rx = new_rx;
}

abbrev new_netif : Netif
new_netif = record {
  hwaddr = [];
  hwaddr_len = 0;
  mtu = 0;
  flag_broadcast = false;
  flag_etharp = false;
  flag_up = false;
  flag_ethernet = false;
  flag_link_up = false;
  has_outputs = false;
}

abbrev address : List ℕ
address = 0 ∷ 0x60 ∷ 0x37 ∷ 1 ∷ 2 ∷ 3 ∷ []

lpc_enetif_init-IsStarted_example :
    (n' : Netif) × (e' : Emac) × (ts : Tasks) × (lpc_enetif_init 9 env true all_created address
        new_netif new_emac
      ≡ some (err_ok, n', e', some ts))
    × IsStarted n' e' ts
lpc_enetif_init-IsStarted_example =
    lpc_enetif_init-IsStarted 9 env address new_netif new_emac (omega arith) refl refl

abbrev frame_in : DmaStat
frame_in = record no_stat { ri = true }

abbrev frame_out : DmaStat
frame_out = record no_stat { ti = true }
