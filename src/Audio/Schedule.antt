-- ===== src/Audio/Schedule.antt =====
-- About the ring of src/macos_audio.c under every interleaving of its two threads.
use pokestroller.Base.{
  ℕ, ◌+◌, ◌%◌, ◌<◌, ◌≡◌, ◌≢◌, refl, subst, arith, Bool, true, false, List, [], ◌∷◌, if◌then◌else◌,
}
use pokestroller.Audio.{
  filling, Submitter, idle, passed, writing, Audio, distance, opened, Move, audio, main, submit,
  set_active, set_volume, call_in, move, moves,
}
use pokestroller.Audio.Ring.{Rendering, Submitting, IsRing, submit_in-IsRing}
use pokestroller.Audio.Render.{render_in-IsRing}

call_in-IsRing :
    (p : Submitter) (f : Audio → Audio) (s : Audio)
    → IsRing s
    → (p ≡ idle → IsRing (f s))
    → IsRing (call_in p f s)
unfolding call_in
call_in-IsRing idle f s i h = h refl
call_in-IsRing (passed xs) f s i h = i
call_in-IsRing (writing read write xs) f s i h = i

if-IsRing : (b : Bool) (x y : Audio) → IsRing x → IsRing y → IsRing (if b then x else y)
if-IsRing true x y i j = i
if-IsRing false x y i j = j

-- A state in which only `active`, `volume` and the place of the submitting thread are new.
with_call :
    (s : Audio) (active : Bool) (volume : ℕ) (p : Submitter) (i : IsRing s)
    → Submitting p s.logged i.r i.w
    → IsRing (record s { active = active; volume = volume; submitter = p })
with_call s active volume p i h = record {
  r = i.r;
  w = i.w;
  read = i.read;
  write = i.write;
  behind = i.behind;
  taken = i.taken;
  accepted = i.accepted;
  room = i.room;
  rendering = i.rendering;
  submitting = h;
  kept = i.kept;
}

module _ (scale : ℕ → ℕ → ℕ) (clamp : ℕ → ℕ) where
  move-IsRing : (m : Move) (s : Audio) → IsRing s → IsRing (move scale clamp m s)
  unfolding move
  move-IsRing audio s i = render_in-IsRing scale clamp s.renderer s i i.rendering
  move-IsRing main s i = submit_in-IsRing s.submitter s i i.submitting
  move-IsRing (submit xs) s i = call_in-IsRing s.submitter _ s i λ e.
      if-IsRing s.active _ s
        (with_call s s.active s.volume (passed xs) i
          (subst (λ p. Submitting p s.logged i.r i.w) e i.submitting))
        i
  move-IsRing (set_active value) s i =
      call_in-IsRing s.submitter _ s i λ e. with_call s value s.volume s.submitter i i.submitting
  move-IsRing (set_volume value) s i =
      call_in-IsRing s.submitter _ s i
        λ e. with_call s s.active (clamp value) s.submitter i i.submitting

  moves-IsRing : (ms : List Move) (s : Audio) → IsRing s → IsRing (moves scale clamp ms s)
  unfolding moves
  moves-IsRing [] s i = i
  moves-IsRing (m ∷ ms) s i = moves-IsRing ms (move scale clamp m s) (move-IsRing m s i)

next_sample :
    (s : Audio) (i : IsRing s) (read write v left : ℕ) (out : ℕ → ℕ)
    → s.renderer ≡ filling read write v left out
    → read ≢ write
    → (s.taken < s.logged) × (s.ring (read % 8192) ≡ s.log s.taken)
next_sample s i read write v left out e d =
    let p = subst (λ x. Rendering x s.taken i.r i.w) e i.rendering in
    let more : s.taken < p.1 = ground (arith, d, p.0, p.2, p.3) in
    let slot : read % 8192 ≡ s.taken % 8192 = omega (arith, p.0) in
    let accepted : s.taken < s.logged = omega (arith, more, p.4, i.accepted) in
    (accepted, rw slot (i.kept s.taken i.behind accepted))

slots_apart :
    (s : Audio) (i : IsRing s) (read write v left seen place j : ℕ) (out : ℕ → ℕ) (xs : List ℕ)
    → s.renderer ≡ filling read write v left out
    → s.submitter ≡ writing seen place xs
    → distance seen place < 8192
    → j < distance read write
    → (read + j) % 4294967296 % 8192 ≢ place % 8192
slots_apart s i read write v left seen place j out xs e e' h k q =
    let p = subst (λ x. Rendering x s.taken i.r i.w) e i.rendering in
    let t = subst (λ x. Submitting x s.logged i.r i.w) e' i.submitting in
    let ahead : s.taken + j < s.logged =
      omega (arith, k, p.0, p.2, p.3, p.4, i.behind, i.accepted, i.room) in
    let free : s.logged < s.taken + 8192 =
      omega (arith, h, t.0, t.2, t.3, t.4, i.behind, i.taken, i.accepted) in
    let same : (s.taken + j) % 8192 ≡ s.logged % 8192 = omega (arith, q, p.0, t.0) in
    omega (arith, ahead, free, same)

opened-IsRing : (volume : ℕ) → IsRing (opened volume)
opened-IsRing volume = record {
  r = 0;
  w = 0;
  read = refl;
  write = refl;
  behind = omega arith;
  taken = omega arith;
  accepted = omega arith;
  room = omega arith;
  rendering = refl;
  submitting = refl;
  kept = λ n h k. refl;
}

-- However the steps of the two threads are interleaved, and however often the 32-bit counters wrap:
-- the sample that the audio thread is about to render is the next one of those that were accepted
-- and neither rendered nor dropped.
pub ring_fifo :
    (scale : ℕ → ℕ → ℕ) (clamp : ℕ → ℕ) (ms : List Move) (volume : ℕ) (read write v left : ℕ)
    (out : ℕ → ℕ)
    → let s = moves scale clamp ms (opened volume) in
      s.renderer ≡ filling read write v left out
      → read ≢ write
      → (s.taken < s.logged) × (s.ring (read % 8192) ≡ s.log s.taken)
ring_fifo scale clamp ms volume read write v left out e d =
    next_sample _ (moves-IsRing scale clamp ms (opened volume) (opened-IsRing volume)) read write v
      left out e d

-- However the steps are interleaved, the submitting thread never writes to a slot that holds a
-- sample which the running callback still has to render.
pub ring_apart :
    (scale : ℕ → ℕ → ℕ) (clamp : ℕ → ℕ) (ms : List Move) (volume : ℕ)
    (read write v left seen place j : ℕ) (out : ℕ → ℕ) (xs : List ℕ)
    → let s = moves scale clamp ms (opened volume) in
      s.renderer ≡ filling read write v left out
      → s.submitter ≡ writing seen place xs
      → distance seen place < 8192
      → j < distance read write
      → (read + j) % 4294967296 % 8192 ≢ place % 8192
ring_apart scale clamp ms volume read write v left seen place j out xs e e' h k =
    slots_apart _ (moves-IsRing scale clamp ms (opened volume) (opened-IsRing volume)) read write v
      left seen place j out xs e e' h k
