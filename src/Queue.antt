-- ===== src/Queue.antt =====
-- src/queue.c: a linked list of malloc'ed elements, on an explicit heap. malloc is a parameter: it
-- returns an address for a heap, 0 where it fails. free gives the element's address back.
pub mod Chain
pub mod Refine
use pokestroller.Base.{
  ℕ, Bool, true, false, not, Option, none, some, List, [], ◌∷◌, ◌==◌, update, if◌then◌else◌,
}

-- struct Element; the null pointer is 0.
pub record Element : Type 0 where
  pub value : ℕ
  pub next : ℕ

-- struct Queue
pub record Queue : Type 0 where
  pub first : ℕ
  pub last : ℕ

abbrev pub Heap : Type 0
Heap = ℕ → Option Element

-- `abort` is the call of abort(), `fault` an access through an address that holds no element.
pub data Result : Type 0 where
  done : ℕ → Queue → Heap → Result
  abort : Result
  fault : Result

-- `p->next = q`
unfoldable pub link : ℕ → ℕ → Heap → Option Heap
link p q h = elim (h p) [ none ↦ none | some e ↦ some (update h p (some (record e { next = q }))) ]

-- The rest of addElement behind the allocation at `p`.
unfoldable pub attach : ℕ → ℕ → Queue → Heap → Result
unfolding link
attach p value q h =
    let h1 = update h p (some (record { value = value; next = 0 })) in
    let q' : Queue = record { first = if q.first == 0 then p else q.first; last = p } in
    if q.last == 0
    then done 0 q' h1
    else elim (link q.last p h1) [ none ↦ fault | some h2 ↦ done 0 q' h2 ]

unfoldable pub pop_element : Queue → Heap → Result
pop_element q h = if q.first == 0 then done 0 q h else elim (h q.first) [
  | none ↦ fault
  | some e ↦
      done e.value (record { first = e.next; last = if e.next == 0 then 0 else q.last })
        (update h q.first none)
]

unfoldable pub is_empty : Queue → Bool
is_empty q = q.first == 0

-- What a client does with a queue.
pub data Call : Type 0 where
  add : ℕ → Call
  pop : Call

-- The results of a sequence of calls.
pub data Trace : Type 0 where
  finished : List ℕ → Trace
  aborted : List ℕ → Trace
  faulted : Trace

abbrev pub prepend : ℕ → Trace → Trace
prepend x (finished xs) = finished (x ∷ xs)
prepend x (aborted xs) = aborted (x ∷ xs)
prepend x faulted = faulted

module _ (malloc : Heap → ℕ) where
  unfoldable pub add_element : ℕ → Queue → Heap → Result
  unfolding attach
  add_element value q h = let p = malloc h in if p == 0 then abort else attach p value q h

  unfoldable pub call : Call → Queue → Heap → Result
  unfolding add_element pop_element
  call (add value) q h = add_element value q h
  call pop q h = pop_element q h

  -- The results of the calls, up to an abort.
  unfoldable pub run : List Call → Queue → Heap → Trace
  unfolding call
  run [] q h = finished []
  run (c ∷ cs) q h = elim (call c q h) [
    | done x q' h' ↦ prepend x (run cs q' h')
    | abort ↦ aborted []
    | fault ↦ faulted
  ]
