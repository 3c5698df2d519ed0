-- ===== src/Audio/Ring.antt =====
-- About the ring of src/macos_audio.c: what its two threads keep, and the steps of a submission.
use pokestroller.Base.{
  ℕ, ◌+◌, ◌%◌, ◌<◌, ◌≤◌, ◌≡◌, refl, ◌∙◌, sym, ap, arith, true, false, List, [], ◌∷◌, Bool-cases,
  inl, inr, ◌==◌, ltb, update,
}
use pokestroller.Audio.{
  Renderer, resting, loaded, armed, filling, Submitter, idle, passed, writing, Audio, distance,
  submit_in,
}

-- The audio thread at its place, where `n` samples are rendered, `r` of them stored in `read` and
-- `w` in `write`.
abbrev pub Rendering : Renderer → ℕ → ℕ → ℕ → Type 0
Rendering resting n r w = n ≡ r
Rendering (loaded write) n r w = (n ≡ r) × (k : ℕ) × (write ≡ k % 4294967296) × (n ≤ k) × (k ≤ w)
Rendering (armed write active) n r w =
    (n ≡ r) × (k : ℕ) × (write ≡ k % 4294967296) × (n ≤ k) × (k ≤ w)
Rendering (filling read write volume left out) n r w =
    (read ≡ n % 4294967296) × (k : ℕ) × (write ≡ k % 4294967296) × (n ≤ k) × (k ≤ w)

-- The submitting thread at its place, where `n` samples are accepted.
abbrev pub Submitting : Submitter → ℕ → ℕ → ℕ → Type 0
Submitting idle n r w = n ≡ w
Submitting (passed xs) n r w = n ≡ w
Submitting (writing read write xs) n r w =
    (write ≡ n % 4294967296) × (k : ℕ) × (read ≡ k % 4294967296) × (k ≤ r) × (n ≤ k + 8192)

-- Behind the numbers of `read` and `write` stand `r` and `w`, which do not wrap.
pub record IsRing (s : Audio) : Type 0 where
  pub r : ℕ
  pub w : ℕ
  pub read : s.read ≡ r % 4294967296
  pub write : s.write ≡ w % 4294967296
  pub behind : r ≤ s.taken
  pub taken : s.taken ≤ w
  pub accepted : w ≤ s.logged
  pub room : s.logged ≤ r + 8192
  pub rendering : Rendering s.renderer s.taken r w
  pub submitting : Submitting s.submitter s.logged r w
  pub kept : (n : ℕ) → r ≤ n → n < s.logged → s.ring (n % 8192) ≡ s.log n

-- Both threads keep what they know when the other one moves on.
pub Submitting-mono :
    (p : Submitter) (n r r' w : ℕ) → r ≤ r' → Submitting p n r w → Submitting p n r' w
Submitting-mono idle n r r' w h p = p
Submitting-mono (passed xs) n r r' w h p = p
Submitting-mono (writing read write xs) n r r' w h p = (p.0, p.1, p.2, omega (arith, h, p.3), p.4)

Rendering-mono : (p : Renderer) (n r w w' : ℕ) → w ≤ w' → Rendering p n r w → Rendering p n r w'
Rendering-mono resting n r w w' h p = p
Rendering-mono (loaded write) n r w w' h p = (p.0, p.1, p.2, p.3, omega (arith, h, p.4))
Rendering-mono (armed write active) n r w w' h p = (p.0, p.1, p.2, p.3, omega (arith, h, p.4))
Rendering-mono (filling read write volume left out) n r w w' h p =
    (p.0, p.1, p.2, p.3, omega (arith, h, p.4))

-- The end of a submission.
stored_write :
    (read write : ℕ) (xs : List ℕ) (s : Audio) (i : IsRing s)
    → Submitting (writing read write xs) s.logged i.r i.w
    → IsRing (record s { write = write; submitter = idle })
stored_write read write xs s i p = record {
  r = i.r;
  w = s.logged;
  read = i.read;
  write = p.0;
  behind = i.behind;
  taken = omega (arith, i.taken, i.accepted);
  accepted = omega arith;
  room = i.room;
  rendering = Rendering-mono s.renderer s.taken i.r i.w s.logged i.accepted i.rendering;
  kept = i.kept;
  submitting = refl;
}

-- The samples not yet rendered, and a new one, are in their slots.
stored :
    (s : Audio) (write x r n : ℕ)
    → ((m : ℕ) → r ≤ m → m < s.logged → s.ring (m % 8192) ≡ s.log m)
    → r ≤ n
    → n < s.logged + 1
    → s.logged < r + 8192
    → write ≡ s.logged % 4294967296
    → update s.ring (write % 8192) x (n % 8192) ≡ update s.log s.logged x n
stored s write x r n kept h k free e = elim (Bool-cases (s.logged == n)) [
  | inl q ↦
      let same : n ≡ s.logged = ground (arith, q) in
      let slot : (write % 8192 == n % 8192) ≡ true = ground (arith, same, e) in rw (q, slot) refl
  | inr q ↦
      let other : n < s.logged = ground (arith, q, k) in
      let slot : (write % 8192 == n % 8192) ≡ false = ground (arith, other, e, h, free) in
      rw (q, slot) (kept n h other)
]

-- A sample goes to a slot that holds no sample to be rendered.
accepted :
    (read write x : ℕ) (xs : List ℕ) (s : Audio) (i : IsRing s)
    → Submitting (writing read write (x ∷ xs)) s.logged i.r i.w
    → ltb (distance read write) 8192 ≡ true
    → IsRing (record s {
      ring = update s.ring (write % 8192) x;
      submitter = writing read ((write + 1) % 4294967296) xs;
      log = update s.log s.logged x;
      logged = s.logged + 1;
    })
accepted read write x xs s i p e =
    let free : s.logged < p.1 + 8192 =
      ground (arith, e, p.0, p.2, p.3, p.4, i.behind, i.taken, i.accepted) in
    record {
      r = i.r;
      w = i.w;
      read = i.read;
      write = i.write;
      behind = i.behind;
      taken = i.taken;
      accepted = omega (arith, i.accepted);
      room = omega (arith, free, p.3);
      rendering = i.rendering;
      kept = λ n h k. stored s write x i.r n i.kept h k (omega (arith, free, p.3)) p.0;
      submitting = (omega (arith, p.0), p.1, p.2, p.3, omega (arith, free));
    }

pub submit_in-IsRing :
    (p : Submitter) (s : Audio) (i : IsRing s)
    → Submitting p s.logged i.r i.w
    → IsRing (submit_in p s)
unfolding submit_in
submit_in-IsRing idle s i p = i
submit_in-IsRing (passed xs) s i p = record {
  r = i.r;
  w = i.w;
  read = i.read;
  write = i.write;
  behind = i.behind;
  taken = i.taken;
  accepted = i.accepted;
  room = i.room;
  rendering = i.rendering;
  kept = i.kept;
  submitting = (i.write ∙ ap (λ x. x % 4294967296) (sym p), i.r, i.read, omega arith, i.room);
}
submit_in-IsRing (writing read write []) s i p = stored_write read write [] s i p
submit_in-IsRing (writing read write (x ∷ xs)) s i p =
    elim (Bool-cases (ltb (distance read write) 8192)) [
      | inl e ↦ rw e (accepted read write x xs s i p e)
      | inr e ↦ rw e (stored_write read write (x ∷ xs) s i p)
    ]
