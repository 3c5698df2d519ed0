-- ===== src/Queue/Chain.antt =====
-- The heaps that hold a queue of src/queue.c: distinct elements, each pointing to the next one.
use pokestroller.Base.{ℕ, ◌≡◌, ◌≢◌, sym, arith, Option, none, some, List, [], ◌∷◌, ◌++◌, update}
use pokestroller.Queue.{Element, Queue, Heap}

-- Address and value of each element, in order.
abbrev pub Cells : Type 0
Cells = List (ℕ × ℕ)

abbrev pub first_of : Cells → ℕ
first_of [] = 0
first_of ((a, v) ∷ cs) = a

abbrev pub last_of : Cells → ℕ
last_of [] = 0
last_of ((a, v) ∷ []) = a
last_of ((a, v) ∷ (b, u) ∷ cs) = last_of ((b, u) ∷ cs)

abbrev pub values : Cells → List ℕ
values [] = []
values ((a, v) ∷ cs) = v ∷ values cs

-- The address `p` is none of the elements'.
abbrev pub Avoids : ℕ → Cells → Type 0
Avoids p [] = Unit
Avoids p ((a, v) ∷ cs) = (p ≢ a) × Avoids p cs

abbrev pub Chain : Heap → Cells → Type 0
Chain h [] = Unit
Chain h ((a, v) ∷ cs) =
    (a ≢ 0) × (h a ≡ some (record { value = v; next = first_of cs })) × Avoids a cs × Chain h cs

pub record IsQueue (h : Heap) (q : Queue) (cs : Cells) : Type 0 where
  pub front : q.first ≡ first_of cs
  pub back : q.last ≡ last_of cs
  pub chain : Chain h cs

-- A write at an address that is none of the chain's keeps the chain.
pub Chain-update :
    (h : Heap) (p : ℕ) (c : Option Element) (cs : Cells)
    → Avoids p cs
    → Chain h cs
    → Chain (update h p c) cs
Chain-update h p c [] out ch = tt
Chain-update h p c ((a, v) ∷ cs) out ch =
    (ch.0, ground (arith, ch.1), ch.2, Chain-update h p c cs out.1 ch.3)

-- An address that holds nothing is none of the chain's.
pub Avoids-of_none : (h : Heap) (p : ℕ) (cs : Cells) → h p ≡ none → Chain h cs → Avoids p cs
Avoids-of_none h p [] e ch = tt
Avoids-of_none h p ((a, v) ∷ cs) e ch = ((λ q. cc (ch.1)), Avoids-of_none h p cs e ch.3)

pub Avoids-append : (a p v : ℕ) (cs : Cells) → Avoids a cs → a ≢ p → Avoids a (cs ++ ((p, v) ∷ []))
Avoids-append a p v [] out ne = (ne, tt)
Avoids-append a p v ((b, u) ∷ cs) out ne = (out.0, Avoids-append a p v cs out.1 ne)

pub Avoids-last : (a b u : ℕ) (cs : Cells) → Avoids a ((b, u) ∷ cs) → a ≢ last_of ((b, u) ∷ cs)
Avoids-last a b u [] out = out.0
Avoids-last a b u ((c, t) ∷ cs) out = Avoids-last a c t cs out.1

-- The last element's next pointer is null.
pub holds_last :
    (h : Heap) (a v : ℕ) (cs : Cells)
    → Chain h ((a, v) ∷ cs)
    → (u : ℕ) × (last_of ((a, v) ∷ cs) ≢ 0)
      × (h (last_of ((a, v) ∷ cs)) ≡ some (record { value = u; next = 0 }))
holds_last h a v [] ch = (v, ch.0, ch.1)
holds_last h a v ((b, u) ∷ cs) ch = holds_last h b u cs ch.3

-- The chain with one more element at `p`, to which the last one now points.
pub Chain-append :
    (h : Heap) (p x a v u : ℕ) (cs : Cells)
    → p ≢ 0
    → Avoids p ((a, v) ∷ cs)
    → Chain h ((a, v) ∷ cs)
    → h (last_of ((a, v) ∷ cs)) ≡ some (record { value = u; next = 0 })
    → Chain
        (update
          (update h p (some (record { value = x; next = 0 })))
          (last_of ((a, v) ∷ cs))
          (some (record { value = u; next = p })))
        ((a, v) ∷ cs ++ ((p, x) ∷ []))
Chain-append h p x a v u [] np out ch e =
    (ch.0, ground (arith, ch.1, e), ((λ q. out.0 (sym q)), tt), (np, ground (arith, out.0), tt, tt))
Chain-append h p x a v u ((b, t) ∷ cs) np out ch e = (
  ch.0,
  ground (arith, ch.1, out.0, Avoids-last a b t cs ch.2),
  Avoids-append a p x ((b, t) ∷ cs) ch.2 (λ q. out.0 (sym q)),
  Chain-append h p x b t u cs np out.1 ch.3 e,
)
