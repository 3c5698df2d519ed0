-- ===== src/Windows/Keys.antt =====
-- About the messages of a round of the main loop of src/win_main.c.
use pokestroller.Base.{
  ℕ, ◌≡◌, refl, sym, ◌∙◌, ap, arith, Bool, true, false, not, ◌&&◌, ◌||◌, Option, none, some, ◌==◌,
  Bool-cases, inl, inr, List, [], ◌∷◌, ◌++◌, has_bit, set_bit, has_bit-set_bit, if◌then◌else◌,
}
use mathlib.Core.List.{append_assoc, append-nil}
use pokestroller.Machine.{Walker, Outcome, ok, unimplemented, undefined}
use pokestroller.Interrupts.{set_keys}
use pokestroller.Interrupts.Keys.{set_keys_lem}
use mathlib.Core.Option.{none-ne-some}
use pokestroller.Step.{run_next_instruction}
use pokestroller.Windows.{
  Message, key_down, quit, dispatched, Front, press, on_key_down, process_messages, tick,
  after_step, round,
}

-- The keys of the game: the space bar is ENTER, Z LEFT and X RIGHT.
pub data Key : Type 0 where
  enter_key left_key right_key : Key

-- The bit of a key in the input of setKeys.
abbrev pub key_bit : Key → ℕ
key_bit enter_key = 0
key_bit left_key = 2
key_bit right_key = 4

-- The key of a WM_KEYDOWN; none where bit 30 of lParam says that it is held, or for other keys.
abbrev pub fresh_key : ℕ → ℕ → Option Key
fresh_key key l_param =
    if has_bit l_param 30
    then none
    else if key == 0x20
    then some enter_key
    else if key == 0x5a
    then some left_key
    else if key == 0x58
    then some right_key
    else none

abbrev pub keep_key : Option Key → List Key → List Key
keep_key none ks = ks
keep_key (some k) ks = k ∷ ks

-- The fresh keys of a round, in their order.
abbrev pub fresh_keys : List Message → List Key
fresh_keys [] = []
fresh_keys (key_down key l_param ∷ ms) = keep_key (fresh_key key l_param) (fresh_keys ms)
fresh_keys (quit ∷ ms) = fresh_keys ms
fresh_keys (dispatched closing ∷ ms) = fresh_keys ms

-- The keys before the first ENTER.
abbrev pub until_enter : List Key → List Key
until_enter [] = []
until_enter (enter_key ∷ ks) = []
until_enter (left_key ∷ ks) = left_key ∷ until_enter ks
until_enter (right_key ∷ ks) = right_key ∷ until_enter ks

-- What is put into the queue: all the keys of the round so far, each time with a release behind.
abbrev pub heard : ℕ → List Key → List ℕ
heard n [] = []
heard n (k ∷ ks) = let m = set_bit n (key_bit k) in m ∷ 0 ∷ heard m ks

press_key : Option Key → ℕ × Walker → ℕ × Walker
press_key none s = s
press_key (some k) (n, w) = (set_bit n (key_bit k), set_keys (set_bit n (key_bit k)) w)

press_keys : List Key → ℕ × Walker → ℕ × Walker
press_keys [] s = s
press_keys (k ∷ ks) s = press_keys ks (press_key (some k) s)

on_key_down-press_key :
    (key l_param n : ℕ) (w : Walker)
    → on_key_down key l_param (n, w) ≡ press_key (fresh_key key l_param) (n, w)
unfolding on_key_down press press_key
on_key_down-press_key key l_param n w = ground arith

press_keys-keep_key :
    (o : Option Key) (ks : List Key) (s : ℕ × Walker)
    → press_keys (keep_key o ks) s ≡ press_keys ks (press_key o s)
unfolding press_keys press_key
press_keys-keep_key none ks s = refl
press_keys-keep_key (some k) ks s = refl

process_messages-press_keys :
    (ms : List Message) (running : Bool) (n : ℕ) (w : Walker)
    → (process_messages ms running (n, w)).2 ≡ (press_keys (fresh_keys ms) (n, w)).1
unfolding process_messages press_keys
process_messages-press_keys [] running n w = refl
process_messages-press_keys (key_down key l_param ∷ ms) running n w =
    let s = on_key_down key l_param (n, w) in
    process_messages-press_keys ms running s.0 s.1
    ∙ ap (λ x. (press_keys (fresh_keys ms) x).1) (on_key_down-press_key key l_param n w)
    ∙ ap (λ x. x.1) (sym (press_keys-keep_key (fresh_key key l_param) (fresh_keys ms) (n, w)))
process_messages-press_keys (quit ∷ ms) running n w = process_messages-press_keys ms false n w
process_messages-press_keys (dispatched closing ∷ ms) running n w =
    process_messages-press_keys ms _ n w

set_keys-flags : (n : ℕ) (w : Walker) → (set_keys n w).flags ≡ w.flags
unfolding set_keys
set_keys-flags n w = ground arith

-- Keys that are put into the queue at once.
heard_at_once :
    (n : ℕ) (w : Walker) (xs : List ℕ)
    → (not w.flags.i && has_bit n 0) ≡ false
    → (set_keys n w).input_queue ++ xs ≡ w.input_queue ++ (n ∷ 0 ∷ xs)
heard_at_once n w xs h =
    rw (((set_keys_lem n w).0 h).0) (append_assoc w.input_queue (n ∷ 0 ∷ []) xs)

masked_queue :
    (ks : List Key) (n : ℕ) (w : Walker)
    → w.flags.i ≡ true
    → (press_keys ks (n, w)).1.input_queue ≡ w.input_queue ++ heard n ks
unfolding press_keys press_key
masked_queue [] n w h = sym (append-nil w.input_queue)
masked_queue (k ∷ ks) n w h =
    let m = set_bit n (key_bit k) in
    masked_queue ks m (set_keys m w) (ap (λ f. f.i) (set_keys-flags m w) ∙ h)
    ∙ heard_at_once m w (heard m ks) (ground (arith, h))

enter_kept :
    (n : ℕ) (w : Walker)
    → has_bit n 0 ≡ true
    → w.flags.i ≡ false
    → (set_keys n w).input_queue ≡ w.input_queue
unfolding set_keys
enter_kept n w h k = rw (k, h) refl

-- Keys behind an ENTER that is not masked.
enter_queue :
    (ks : List Key) (n : ℕ) (w : Walker)
    → has_bit n 0 ≡ true
    → w.flags.i ≡ false
    → (press_keys ks (n, w)).1.input_queue ≡ w.input_queue
unfolding press_keys press_key
enter_queue [] n w h k = refl
enter_queue (key ∷ ks) n w h k =
    let m = set_bit n (key_bit key) in
    let e : has_bit m 0 ≡ true = ground (arith, has_bit-set_bit n (key_bit key) 0, h) in
    enter_queue ks m (set_keys m w) e (ap (λ f. f.i) (set_keys-flags m w) ∙ k) ∙ enter_kept m w e k

unmasked_queue :
    (ks : List Key) (n : ℕ) (w : Walker)
    → has_bit n 0 ≡ false
    → w.flags.i ≡ false
    → (press_keys ks (n, w)).1.input_queue ≡ w.input_queue ++ heard n (until_enter ks)
unfolding press_keys press_key
unmasked_queue [] n w h k = sym (append-nil w.input_queue)
unmasked_queue (enter_key ∷ ks) n w h k =
    let m = set_bit n 0 in
    let e : has_bit m 0 ≡ true = ground (arith, has_bit-set_bit n 0 0) in
    enter_queue ks m (set_keys m w) e (ap (λ f. f.i) (set_keys-flags m w) ∙ k)
    ∙ enter_kept m w e k
    ∙ sym (append-nil w.input_queue)
unmasked_queue (left_key ∷ ks) n w h k =
    let m = set_bit n 2 in
    let e : has_bit m 0 ≡ false = ground (arith, has_bit-set_bit n 2 0, h) in
    unmasked_queue ks m (set_keys m w) e (ap (λ f. f.i) (set_keys-flags m w) ∙ k)
    ∙ heard_at_once m w (heard m (until_enter ks)) (ground (arith, e))
unmasked_queue (right_key ∷ ks) n w h k =
    let m = set_bit n 4 in
    let e : has_bit m 0 ≡ false = ground (arith, has_bit-set_bit n 4 0, h) in
    unmasked_queue ks m (set_keys m w) e (ap (λ f. f.i) (set_keys-flags m w) ∙ k)
    ∙ heard_at_once m w (heard m (until_enter ks)) (ground (arith, e))

-- For any messages of a round: the input queue gets, for each fresh key, all the keys of the round so
-- far and a release. While interrupts are masked that is every fresh key; while they are not, only
-- those before the first ENTER of the round, and no key from that one on reaches the queue there.
pub round_keys :
    (ms : List Message) (running : Bool) (w : Walker)
    → (process_messages ms running (0, w)).2.input_queue
      ≡ w.input_queue ++ heard 0 (if w.flags.i then fresh_keys ms else until_enter (fresh_keys ms))
round_keys ms running w =
    ap (λ x. x.input_queue) (process_messages-press_keys ms running 0 w)
    ∙ elim (Bool-cases w.flags.i) [
      | inl h ↦
          masked_queue (fresh_keys ms) 0 w h
          ∙ ap
              (λ b.
                w.input_queue ++ heard 0 (if b then fresh_keys ms else until_enter (fresh_keys ms)))
              (sym h)
      | inr h ↦
          unmasked_queue (fresh_keys ms) 0 w (ground arith) h
          ∙ ap
              (λ b.
                w.input_queue ++ heard 0 (if b then fresh_keys ms else until_enter (fresh_keys ms)))
              (sym h)
    ]

-- WM_QUIT and WM_CLOSE.
abbrev pub ends : Message → Bool
ends (key_down key l_param) = false
ends quit = true
ends (dispatched closing) = closing

abbrev pub some_ends : List Message → Bool
some_ends [] = false
some_ends (m ∷ ms) = ends m || some_ends ms

abbrev pub succeeds : Outcome → Bool
succeeds (ok w) = true
succeeds (unimplemented w) = false
succeeds undefined = false

process_messages-running :
    (ms : List Message) (running : Bool) (s : ℕ × Walker)
    → (process_messages ms running s).0 ≡ (running && not (some_ends ms))
unfolding process_messages
process_messages-running [] running s = ground arith
process_messages-running (key_down key l_param ∷ ms) running s =
    process_messages-running ms running (on_key_down key l_param s)
process_messages-running (quit ∷ ms) running s = process_messages-running ms false s ∙ ground arith
process_messages-running (dispatched closing ∷ ms) running s =
    process_messages-running ms (running && not closing) s ∙ ground arith

after_step-running :
    (running : Bool) (picture : ℕ → ℕ) (o : Outcome) (f : Front)
    → after_step running picture o ≡ some f
    → f.walker_running ≡ (running && succeeds o)
unfolding after_step tick
after_step-running running picture (ok w) f e = ground (arith, e)
after_step-running running picture (unimplemented w) f e = ground (arith, e)
after_step-running running picture undefined f e = absurd (none-ne-some f e)

-- The loop goes on to another round exactly if it ran, no message of this round was WM_QUIT or
-- WM_CLOSE, and the instruction did not fail.
pub round-running :
    (ms : List Message) (f f' : Front)
    → round ms f ≡ some f'
    → f'.walker_running ≡ (
        (f.walker_running && not (some_ends ms))
        && succeeds (run_next_instruction (process_messages ms f.walker_running (0, f.walker)).2))
unfolding round
round-running ms f f' e =
    let s = process_messages ms f.walker_running (0, f.walker) in
    after_step-running s.0 f.bit_map_memory (run_next_instruction s.2) f' e
    ∙ ap (λ b. b && succeeds (run_next_instruction s.2))
        (process_messages-running ms f.walker_running (0, f.walker))
