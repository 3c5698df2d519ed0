-- ===== src/Machine/Reaches.antt =====
-- Properties of the state with which the code goes on: rules for the binds, tests and switches of
-- the models.
use pokestroller.Base.{ℕ, List, [], ◌∷◌, ◌==◌, switch, Bool, true, false, if◌then◌else◌}
use pokestroller.Machine.{Walker, Outcome, ok, unimplemented, undefined, ◌>>=◌}

-- A property of the state with which the code goes on, if it does.
abbrev pub Reaches : (Walker → Type 0) → Outcome → Type 0
Reaches P (ok w) = P w
Reaches P (unimplemented w) = Unit
Reaches P undefined = Unit

pub Reaches-bind :
    (P Q : Walker → Type 0) (o : Outcome) (f : Walker → Outcome)
    → Reaches P o
    → ((w : Walker) → P w → Reaches Q (f w))
    → Reaches Q (o >>= f)
Reaches-bind P Q (ok w) f h k = k w h
Reaches-bind P Q (unimplemented w) f h k = tt
Reaches-bind P Q undefined f h k = tt

pub Reaches-mono :
    (P Q : Walker → Type 0) (o : Outcome) → Reaches P o → ((w : Walker) → P w → Q w) → Reaches Q o
Reaches-mono P Q (ok w) h k = k w h
Reaches-mono P Q (unimplemented w) h k = tt
Reaches-mono P Q undefined h k = tt

-- Either branch of a test.
pub if-Reaches :
    (P : Walker → Type 0) (b : Bool) (x y : Outcome)
    → Reaches P x
    → Reaches P y
    → Reaches P (if b then x else y)
if-Reaches P true x y h k = h
if-Reaches P false x y h k = k

-- The rows of a switch, one by one.
pub row-Reaches :
    (P : Walker → Type 0) (k j : ℕ) (o : Outcome) (rows : List (ℕ × Outcome)) (d : Outcome)
    → Reaches P o
    → Reaches P (switch k rows d)
    → Reaches P (switch k ((j, o) ∷ rows) d)
unfolding switch
row-Reaches P k j o rows d h e = if-Reaches P (k == j) o (switch k rows d) h e

pub default-Reaches :
    (P : Walker → Type 0) (k : ℕ) (d : Outcome) → Reaches P d → Reaches P (switch k [] d)
unfolding switch
default-Reaches P k d h = h
