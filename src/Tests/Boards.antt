-- ===== src/Tests/Boards.antt =====
-- The start of the program, the reset code and the mailboxes at concrete inputs.
use rtu_com.Common.{
  ℕ, ◌+◌, ◌≤◌, ◌<◌, ◌≡◌, ◌≢◌, ◌⊎◌, inl, inr, refl, List, [], ◌∷◌, ◌++◌, Bool, true, false, ◌==◌,
  ◌&&◌, ltb, if◌then◌else◌, length, Option, none, some, arith,
}
use rtu_com.Board.{BoardCall, set_pin_out_low, dout_init}
use rtu_com.Board.Pins.{Gpio, act_all, act_all-dout_init}
use rtu_com.Startup.{init_sections, data_sections, bss_sections}
use rtu_com.Startup.Isr.{Build, ResetCall, start_main, reset_isr}
use rtu_com.Startup.Isr.Once.{count_if, is_start, is_init, counted, reset_isr-main}
use rtu_com.SysArch.{QueueApi}
use rtu_com.SysArch.Mailbox.{Op, trypost, tryfetch, mailbox, bounded_queue, mailbox-bounded_queue}

-- A GPIO that keeps the levels in a function.
abbrev gpio_act : BoardCall → (ℕ → ℕ → Bool) → ℕ → ℕ → Bool
gpio_act (set_pin_out_low p k) s port n = if (port == p) && (n == k) then false else s port n
gpio_act c s port n = s port n

low_same : (s : ℕ → ℕ → Bool) (port n : ℕ) → gpio_act (set_pin_out_low port n) s port n ≡ false
low_same s port n = ground arith

low_other :
    (s : ℕ → ℕ → Bool) (p k port n : ℕ)
    → (port ≢ p) ⊎ (n ≢ k)
    → gpio_act (set_pin_out_low p k) s port n ≡ s port n
low_other s p k port n (inl h) = ground arith
low_other s p k port n (inr h) = ground arith

abbrev gpio : Gpio
gpio = record {
  State = ℕ → ℕ → Bool;
  level = λ s. s;
  act = gpio_act;
  mux_keeps = λ s group pin func port n. refl;
  dir_keeps = λ s p k port n. refl;
  low_same = low_same;
  low_other = low_other;
}

abbrev all_high : ℕ → ℕ → Bool
all_high port n = true

pole_pulse_high : act_all gpio dout_init all_high 1 8 ≡ true
unfolding act_all
pole_pulse_high = refl

act_all-dout_init_example :
    act_all gpio dout_init all_high 5 13 ≡ (if (5 == 5) && (13 == 12) then false else all_high 5 13)
act_all-dout_init_example = act_all-dout_init gpio all_high 5 13

abbrev lpcopen : Build
lpcopen = record {
  dont_reset_on_restart = false;
  use_lpcopen = true;
  use_cmsis = false;
  vfp_fp = true;
  soft_fp = false;
  cplusplus = false;
  redlib = true;
  core_m = true;
  vector_symbol = true;
  fpu_present = true;
  no_board_lib = false;
  vector_table = 0x1A000000;
}

-- A queue is its size and its contents.
abbrev list_send : ℕ × List ℕ → ℕ → Option (ℕ × List ℕ)
list_send (n, q) x = if ltb (length q) n then some (n, q ++ (x ∷ [])) else none

abbrev list_receive : ℕ × List ℕ → Option (ℕ × (ℕ × List ℕ))
list_receive (n, []) = none
list_receive (n, x ∷ xs) = some (x, (n, xs))

send_full : (q : ℕ × List ℕ) (x : ℕ) → q.0 ≤ length q.1 → list_send q x ≡ none
send_full (n, q) x h = ground arith

send_room :
    (q : ℕ × List ℕ) (x : ℕ)
    → length q.1 < q.0
    → (q' : ℕ × List ℕ) × (list_send q x ≡ some q') × (q'.1 ≡ q.1 ++ (x ∷ [])) × (q'.0 ≡ q.0)
send_room (n, q) x h = ((n, q ++ (x ∷ [])), ground arith, refl, refl)

receive_empty : (q : ℕ × List ℕ) → q.1 ≡ [] → list_receive q ≡ none
receive_empty (n, []) e = refl
receive_empty (n, x ∷ xs) e = cc

receive_item :
    (q : ℕ × List ℕ) (x : ℕ) (xs : List ℕ)
    → q.1 ≡ x ∷ xs
    → (q' : ℕ × List ℕ) × (list_receive q ≡ some (x, q')) × (q'.1 ≡ xs) × (q'.0 ≡ q.0)
receive_item (n, []) x xs e = cc
receive_item (n, y ∷ ys) x xs e = ((n, ys), cc, cc, refl)

create_items : (n : ℕ) (q : ℕ × List ℕ) → some (n, []) ≡ some q → (q.1 ≡ []) × (q.0 ≡ n)
create_items n q e = (cc, cc)

abbrev list_queue : QueueApi
list_queue = record {
  Queue = ℕ × List ℕ;
  items = λ q. q.1;
  size = λ q. q.0;
  create = λ n. some (n, []);
  send = list_send;
  receive = list_receive;
  create_items = create_items;
  send_full = send_full;
  send_room = send_room;
  receive_empty = receive_empty;
  receive_item = receive_item;
}

abbrev ops : List Op
ops = trypost 7 ∷ trypost 8 ∷ trypost 9 ∷ tryfetch ∷ tryfetch ∷ tryfetch ∷ []

mailbox-bounded_queue_example : mailbox list_queue (2, []) ops ≡ bounded_queue 2 [] ops
mailbox-bounded_queue_example = mailbox-bounded_queue list_queue ops (2, [])

-- Memory without sections.
abbrev mem : ℕ → ℕ
mem a = 0

no_sections : init_sections 1 1 mem 0 0 0 ≡ some mem
unfolding init_sections data_sections bss_sections
no_sections = refl

reset_isr-main_example :
    (before : List ResetCall) × (reset_isr lpcopen 1 1 mem 0 0 0
      ≡ some (mem, before ++ (start_main ∷ [])))
    × (count_if is_start before ≡ 0)
    × (count_if is_init before
        ≡ counted lpcopen.use_lpcopen lpcopen + counted lpcopen.use_cmsis lpcopen)
reset_isr-main_example = reset_isr-main lpcopen 1 1 mem mem 0 0 0 no_sections
