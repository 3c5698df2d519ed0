-- ===== src/Queue/Refine.antt =====
-- The list that the linked list of src/queue.c stands for: addElement and popElement on the values.
use pokestroller.Base.{
  ℕ, ◌≡◌, ◌≢◌, refl, sym, ap, subst, arith, false, none, List, [], ◌∷◌, ◌++◌, ◌==◌, if◌then◌else◌,
}
use native.Mathlib.Decide.{ℕ_discrete}
use pokestroller.Queue.{
  Queue, Heap, Result, done, abort, fault, Call, add, pop, Trace, finished, aborted, faulted,
  prepend, attach, pop_element, add_element, call, run,
}
use pokestroller.Queue.Chain.{
  Cells, first_of, last_of, values, Chain, IsQueue, Avoids-of_none, Chain-update, Chain-append,
  holds_last, Avoids-last,
}

-- The same calls on the list of values; an empty list pops 0.
pub step_list : Call → List ℕ → ℕ × List ℕ
step_list (add v) xs = (0, xs ++ (v ∷ []))
step_list pop [] = (0, [])
step_list pop (x ∷ xs) = (x, xs)

pub run_list : List Call → List ℕ → List ℕ
run_list [] xs = []
run_list (c ∷ cs) xs = let (x, xs') = step_list c xs in x ∷ run_list cs xs'

abbrev pub IsPrefix : List ℕ → List ℕ → Type 0
IsPrefix [] ys = Unit
IsPrefix (x ∷ xs) [] = ⊥
IsPrefix (x ∷ xs) (y ∷ ys) = (x ≡ y) × IsPrefix xs ys

-- A trace against the results of the list: all of them, or those before an abort; never a fault.
abbrev pub Agrees : Trace → List ℕ → Type 0
Agrees (finished xs) ys = xs ≡ ys
Agrees (aborted xs) ys = IsPrefix xs ys
Agrees faulted ys = ⊥

-- The result of a call is `x`, and the heap then holds a queue of the values `xs`.
abbrev pub Leaves : ℕ → List ℕ → Result → Type 0
Leaves x xs (done y q h) = (y ≡ x) × ((cs : Cells) × IsQueue h q cs × (values cs ≡ xs))
Leaves x xs abort = Unit
Leaves x xs fault = ⊥

values-append : (cs : Cells) (p v : ℕ) → values (cs ++ ((p, v) ∷ [])) ≡ values cs ++ (v ∷ [])
values-append [] p v = refl
values-append ((a, u) ∷ cs) p v = ap (◌∷◌ u) (values-append cs p v)

last_of-append : (cs : Cells) (p v : ℕ) → last_of (cs ++ ((p, v) ∷ [])) ≡ p
last_of-append [] p v = refl
last_of-append ((a, u) ∷ []) p v = refl
last_of-append ((a, u) ∷ (b, t) ∷ cs) p v = last_of-append ((b, t) ∷ cs) p v

-- The queue record of a chain.
abbrev queue_of : Cells → Queue
queue_of cs = record { first = first_of cs; last = last_of cs }

queue_of-IsQueue : (h : Heap) (q : Queue) (cs : Cells) → IsQueue h q cs → q ≡ queue_of cs
queue_of-IsQueue h q cs i = λ k. record { first = i.front k; last = i.back k }

attach-Leaves :
    (cs : Cells) (p v : ℕ) (h : Heap)
    → Chain h cs
    → p ≢ 0
    → h p ≡ none
    → Leaves 0 (values cs ++ (v ∷ [])) (attach p v (queue_of cs) h)
unfolding attach
attach-Leaves [] p v h ch np e = (
  refl,
  ((p, v) ∷ [], record { front = refl; back = refl; chain = (np, ground arith, tt, tt) }, refl),
)
attach-Leaves ((a, u) ∷ cs) p v h ch np e =
    let (t, l0, hl) = holds_last h a u cs ch in
    let out = Avoids-of_none h p ((a, u) ∷ cs) e ch in
    let front_set : (a == 0) ≡ false = ground (arith, ch.0) in
    let back_set : (last_of ((a, u) ∷ cs) == 0) ≡ false = ground (arith, l0) in
    let apart : (p == last_of ((a, u) ∷ cs)) ≡ false = ground (arith, Avoids-last p a u cs out) in
    rw (front_set, back_set, apart, hl)
      (
        refl,
        (
          (a, u) ∷ cs ++ ((p, v) ∷ []),
          record {
            front = rw front_set;
            back = sym (last_of-append ((a, u) ∷ cs) p v);
            chain = Chain-append h p v a u t cs np out ch hl;
          },
          values-append ((a, u) ∷ cs) p v,
        ),
      )

last_of-tail :
    (a u : ℕ) (cs : Cells) (h : Heap)
    → Chain h cs
    → (if first_of cs == 0 then 0 else last_of ((a, u) ∷ cs)) ≡ last_of cs
last_of-tail a u [] h ch = refl
last_of-tail a u ((b, t) ∷ cs) h ch = let set : (b == 0) ≡ false = ground (arith, ch.0) in rw set

pop-Leaves :
    (cs : Cells) (h : Heap)
    → Chain h cs
    → let (x, xs) = step_list pop (values cs) in Leaves x xs (pop_element (queue_of cs) h)
unfolding pop_element step_list
pop-Leaves [] h ch = (refl, ([], record { front = refl; back = refl; chain = tt }, refl))
pop-Leaves ((a, u) ∷ cs) h ch =
    let front_set : (a == 0) ≡ false = ground (arith, ch.0) in
    rw (front_set, ch.1)
      (
        refl,
        (
          cs,
          record {
            front = refl;
            back = last_of-tail a u cs h ch.3;
            chain = Chain-update h a none cs ch.2 ch.3;
          },
          refl,
        ),
      )

-- What is documented of malloc: null, or the address of storage that is not in use.
abbrev pub IsMalloc : (Heap → ℕ) → Type 0
IsMalloc malloc = (h : Heap) → malloc h ≢ 0 → h (malloc h) ≡ none

call-Leaves :
    (malloc : Heap → ℕ) (c : Call) (cs : Cells) (h : Heap)
    → IsMalloc malloc
    → Chain h cs
    → let (x, xs) = step_list c (values cs) in Leaves x xs (call malloc c (queue_of cs) h)
unfolding call add_element step_list
call-Leaves malloc (add v) cs h m ch = elim (ℕ_discrete (malloc h) 0) [
  | yes e ↦ rw e tt
  | no ne ↦
      let set : (malloc h == 0) ≡ false = ground (arith, ne) in
      rw set (attach-Leaves cs (malloc h) v h ch ne (m h ne))
]
call-Leaves malloc pop cs h m ch = pop-Leaves cs h ch

Agrees-prepend : (t : Trace) (x : ℕ) (ys : List ℕ) → Agrees t ys → Agrees (prepend x t) (x ∷ ys)
Agrees-prepend (finished xs) x ys h = ap (◌∷◌ x) h
Agrees-prepend (aborted xs) x ys h = (refl, h)
Agrees-prepend faulted x ys h = h

-- The trace of a call that ends in `r` and of the calls behind it.
then_run : (Heap → ℕ) → List Call → Result → Trace
then_run malloc calls r = elim r [
  | done x q' h' ↦ prepend x (run malloc calls q' h')
  | abort ↦ aborted []
  | fault ↦ faulted
]

-- One step of the refinement, from the rest of the calls.
then_run-Agrees :
    (malloc : Heap → ℕ) (calls : List Call) (x : ℕ) (xs : List ℕ) (r : Result)
    → Leaves x xs r
    → ((cs : Cells) (q : Queue) (h : Heap)
        → IsQueue h q cs
        → Agrees (run malloc calls q h) (run_list calls (values cs)))
    → Agrees (then_run malloc calls r) (x ∷ run_list calls xs)
unfolding then_run
then_run-Agrees malloc calls x xs (done y q h) (e, (cs, i, vs)) rest =
    rw (e, ← vs) (Agrees-prepend (run malloc calls q h) x _ (rest cs q h i))
then_run-Agrees malloc calls x xs abort l rest = tt
then_run-Agrees malloc calls x xs fault l rest = absurd l

-- With any malloc that returns null or an address that is not in use, every sequence of calls on a
-- queue has the results of the same calls on the list of its values, up to the first allocation
-- that fails, which aborts; no call goes through a pointer that holds no element.
pub run-Agrees :
    (malloc : Heap → ℕ) (calls : List Call) (cs : Cells) (q : Queue) (h : Heap)
    → IsMalloc malloc
    → IsQueue h q cs
    → Agrees (run malloc calls q h) (run_list calls (values cs))
unfolding run run_list then_run
run-Agrees malloc [] cs q h m i = refl
run-Agrees malloc (c ∷ calls) cs q h m i =
    let (x, xs) = step_list c (values cs) in
    let leaves =
      subst (λ q'. Leaves x xs (call malloc c q' h)) (sym (queue_of-IsQueue h q cs i))
        (call-Leaves malloc c cs h m i.chain) in
    then_run-Agrees malloc calls x xs (call malloc c q h) leaves
      (λ cs' q' h' i'. run-Agrees malloc calls cs' q' h' m i')
