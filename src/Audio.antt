-- ===== src/Audio.antt =====
-- The ring of src/macos_audio.c, between the thread that submits samples and the audio thread that
-- renders them: each call in the steps between its accesses to the shared variables, and the
-- interleavings of the steps. Atomic accesses happen in one order. A sample and a volume are the
-- numbers of their bits; the float product and the clamping are parameters.
pub mod Ring
pub mod Render
pub mod Schedule
use pokestroller.Base.{
  ℕ, zero, suc, ◌+◌, ◌-◌, ◌%◌, Bool, true, false, List, [], ◌∷◌, ◌==◌, ltb, update, if◌then◌else◌,
}

abbrev pub ring_size : ℕ
ring_size = 8192

abbrev pub buffer_samples : ℕ
buffer_samples = 512

-- The places of `render`, with its local variables: before a callback, behind the loads of `read`
-- and `write`, behind the load of `active`, and in the loop, with the rounds left and the buffer.
pub data Renderer : Type 0 where
  resting : Renderer
  loaded : ℕ → Renderer
  armed : ℕ → Bool → Renderer
  filling : ℕ → ℕ → ℕ → ℕ → (ℕ → ℕ) → Renderer

-- The places of `pw_audio_submit`: no call, behind the test of `active`, and in the loop, with the
-- samples left.
pub data Submitter : Type 0 where
  idle : Submitter
  passed : List ℕ → Submitter
  writing : ℕ → ℕ → List ℕ → Submitter

-- struct PWAudio, the two threads, and what no thread reads: the accepted samples, their number, and
-- the number of those that were rendered or dropped.
pub record Audio : Type 0 where
  pub ring : ℕ → ℕ
  pub read : ℕ
  pub write : ℕ
  pub active : Bool
  pub volume : ℕ
  pub renderer : Renderer
  pub submitter : Submitter
  pub log : ℕ → ℕ
  pub logged : ℕ
  pub taken : ℕ

-- `b - a` of two `unsigned`
abbrev pub distance : ℕ → ℕ → ℕ
distance a b = (b + 4294967296 - a) % 4294967296

-- pw_audio_open: calloc, and three buffers of silence.
abbrev pub opened : ℕ → Audio
opened volume = record {
  ring = λ i. 0;
  read = 0;
  write = 0;
  active = false;
  volume = volume;
  renderer = resting;
  submitter = idle;
  log = λ i. 0;
  logged = 0;
  taken = 0;
}

-- One step of `pw_audio_submit`.
unfoldable pub submit_in : Submitter → Audio → Audio
submit_in idle s = s
submit_in (passed xs) s = record s { submitter = writing s.read s.write xs }
submit_in (writing read write []) s = record s { write = write; submitter = idle }
submit_in (writing read write (x ∷ xs)) s =
    if ltb (distance read write) ring_size
    then record s {
      ring = update s.ring (write % ring_size) x;
      submitter = writing read ((write + 1) % 4294967296) xs;
      log = update s.log s.logged x;
      logged = s.logged + 1;
    }
    else record s { write = write; submitter = idle }

-- What the threads do next: a step of the callback, which starts it if none is running, a step of
-- the submission, and the calls of the API, which begin when no submission is running.
pub data Move : Type 0 where
  audio main : Move
  submit : List ℕ → Move
  set_active : Bool → Move
  set_volume : ℕ → Move

-- A call of the API.
unfoldable pub call_in : Submitter → (Audio → Audio) → Audio → Audio
call_in idle f s = f s
call_in (passed xs) f s = s
call_in (writing read write xs) f s = s

module _ (scale : ℕ → ℕ → ℕ) (clamp : ℕ → ℕ) where
  -- One step of `render`.
  unfoldable pub render_in : Renderer → Audio → Audio
  render_in resting s = record s { renderer = loaded s.write }
  render_in (loaded write) s = record s { renderer = armed write s.active }
  render_in (armed write active) s = record s {
    renderer = filling (if active then s.read else write) write s.volume buffer_samples (λ i. 0);
    taken = if active then s.taken else s.taken + distance s.read write;
  }
  render_in (filling read write volume zero out) s = record s { read = read; renderer = resting }
  render_in (filling read write volume (suc left) out) s =
      let i = buffer_samples - suc left in
      if read == write
      then record s { renderer = filling read write volume left (update out i 0) }
      else record s {
        renderer =
            filling ((read + 1) % 4294967296) write volume left
              (update out i (scale (s.ring (read % ring_size)) volume));
        taken = s.taken + 1;
      }

  unfoldable pub move : Move → Audio → Audio
  unfolding render_in submit_in call_in
  move audio s = render_in s.renderer s
  move main s = submit_in s.submitter s
  move (submit xs) s =
      call_in s.submitter (λ s1. if s1.active then record s1 { submitter = passed xs } else s1) s
  move (set_active value) s = call_in s.submitter (λ s1. record s1 { active = value }) s
  move (set_volume value) s = call_in s.submitter (λ s1. record s1 { volume = clamp value }) s

  unfoldable pub moves : List Move → Audio → Audio
  unfolding move
  moves [] s = s
  moves (m ∷ ms) s = moves ms (move m s)
