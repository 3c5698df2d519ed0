-- ===== src/Audio/Render.antt =====
-- The steps of `render` in src/macos_audio.c keep the ring.
use pokestroller.Base.{
  ℕ, zero, suc, ◌+◌, ◌<◌, ◌≡◌, refl, arith, true, false, Bool-cases, inl, inr, ◌==◌,
}
use pokestroller.Audio.{Renderer, resting, loaded, armed, filling, Audio, distance, render_in}
use pokestroller.Audio.Ring.{Rendering, IsRing, Submitting-mono}

pub render_in-IsRing :
    (scale : ℕ → ℕ → ℕ) (clamp : ℕ → ℕ) (p : Renderer) (s : Audio) (i : IsRing s)
    → Rendering p s.taken i.r i.w
    → IsRing (render_in scale clamp p s)
unfolding render_in
render_in-IsRing scale clamp resting s i p = record {
  r = i.r;
  w = i.w;
  read = i.read;
  write = i.write;
  behind = i.behind;
  taken = i.taken;
  accepted = i.accepted;
  room = i.room;
  submitting = i.submitting;
  kept = i.kept;
  rendering = (p, i.w, i.write, i.taken, omega arith);
}
render_in-IsRing scale clamp (loaded write) s i p = record {
  r = i.r;
  w = i.w;
  read = i.read;
  write = i.write;
  behind = i.behind;
  taken = i.taken;
  accepted = i.accepted;
  room = i.room;
  submitting = i.submitting;
  kept = i.kept;
  rendering = p;
}
render_in-IsRing scale clamp (armed write true) s i p = record {
  r = i.r;
  w = i.w;
  read = i.read;
  write = i.write;
  behind = i.behind;
  taken = i.taken;
  accepted = i.accepted;
  room = i.room;
  submitting = i.submitting;
  kept = i.kept;
  rendering = (omega (arith, i.read, p.0), p.1, p.2, p.3, p.4);
}
render_in-IsRing scale clamp (armed write false) s i p =
    let d : s.taken + distance s.read write ≡ p.1 =
      omega (arith, p.0, p.2, p.3, p.4, i.read, i.accepted, i.room) in
    record {
      r = i.r;
      w = i.w;
      read = i.read;
      write = i.write;
      behind = omega (arith, d, i.behind, p.3);
      taken = omega (arith, d, p.4);
      accepted = i.accepted;
      room = i.room;
      submitting = i.submitting;
      kept = i.kept;
      rendering = (omega (arith, d, p.2), p.1, p.2, omega (arith, d), p.4);
    }
render_in-IsRing scale clamp (filling read write volume zero out) s i p = record {
  r = s.taken;
  w = i.w;
  read = p.0;
  write = i.write;
  behind = omega arith;
  taken = i.taken;
  accepted = i.accepted;
  room = omega (arith, i.room, i.behind);
  submitting = Submitting-mono s.submitter s.logged i.r s.taken i.w i.behind i.submitting;
  kept = λ n h k. i.kept n (omega (arith, h, i.behind)) k;
  rendering = refl;
}
render_in-IsRing scale clamp (filling read write volume (suc left) out) s i p =
    elim (Bool-cases (read == write)) [
      | inl e ↦ rw e (record {
        r = i.r;
        w = i.w;
        read = i.read;
        write = i.write;
        behind = i.behind;
        taken = i.taken;
        accepted = i.accepted;
        room = i.room;
        submitting = i.submitting;
        kept = i.kept;
        rendering = p;
      })
      | inr e ↦
          let more : s.taken < p.1 = ground (arith, e, p.0, p.2, p.3) in
          rw e (record {
            r = i.r;
            w = i.w;
            read = i.read;
            write = i.write;
            behind = omega (arith, i.behind);
            taken = omega (arith, more, p.4);
            accepted = i.accepted;
            room = i.room;
            submitting = i.submitting;
            kept = i.kept;
            rendering = (omega (arith, p.0), p.1, p.2, omega (arith, more), p.4);
          })
    ]
