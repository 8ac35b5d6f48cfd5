-- ===== src/LinkConfig/Copies/Memory.antt =====
-- zz_generated.deepcopy.go: the stores that its functions allocate in.
use dockyards_talos.Base.{ℕ, suc, ◌≤◌, ◌≡◌, refl, ap, ◌∙◌, Option, none, some, arith}
use dockyards_talos.LinkConfig.Copies.{Store, alloc, assign, copy_pointer}

-- The pointer is `nil` or lies between the marks.
abbrev pub Between : (low high : ℕ) → Option ℕ → Type 0
Between low high none = Unit
Between low high (some p) = (low ≤ p) × (suc p ≤ high)

pub Between-wider :
    (low low' high high' : ℕ) (p : Option ℕ)
    → low ≤ low'
    → high' ≤ high
    → Between low' high' p
    → Between low high p
Between-wider low low' high high' none lower higher span = tt
Between-wider low low' high high' (some p) lower higher (above, below) = (omega arith, omega arith)

abbrev pub deref : {A : Type 0} → Store A → Option ℕ → Option A
deref st none = none
deref st (some p) = some (st.cells p)

-- Between the marks the stores are the same.
abbrev pub AgreeOn : {A : Type 0} → (low high : ℕ) → Store A → Store A → Type 0
AgreeOn low high st st' = (p : ℕ) → low ≤ p → suc p ≤ high → st'.cells p ≡ st.cells p

pub deref-AgreeOn :
    {A : Type 0} (low high : ℕ) (st st' : Store A) (p : Option ℕ)
    → AgreeOn low high st st'
    → Between low high p
    → deref st' p ≡ deref st p
deref-AgreeOn low high st st' none same span = refl
deref-AgreeOn low high st st' (some p) same (above, below) = ap some (same p above below)

-- A store that has grown: what it had allocated is unchanged.
abbrev pub Grows : {A : Type 0} → Store A → Store A → Type 0
Grows st st' = (st.next ≤ st'.next) × AgreeOn 0 st.next st st'

pub Grows-refl : {A : Type 0} (st : Store A) → Grows st st
Grows-refl st = (omega arith, λ p above below. refl)

pub Grows-trans : {A : Type 0} (a b c : Store A) → Grows a b → Grows b c → Grows a c
Grows-trans a b c (more, same) (more', same') =
    (omega arith, λ p above below. same' p above (omega arith) ∙ same p above below)

pub alloc-Grows : {A : Type 0} (a : A) (st : Store A) → Grows st (alloc a st)
alloc-Grows a st = (omega arith, λ p above below. ground arith)

pub alloc-cells : {A : Type 0} (a : A) (st : Store A) → (alloc a st).cells st.next ≡ a
alloc-cells a st = ground arith

pub copy_pointer-Grows : {A : Type 0} (p : Option ℕ) (st : Store A) → Grows st (copy_pointer p st).1
unfolding copy_pointer
copy_pointer-Grows none st = Grows-refl st
copy_pointer-Grows (some p) st = alloc-Grows (st.cells p) st

-- The copy points at the same value, in a cell that was not allocated.
pub copy_pointer-deref :
    {A : Type 0} (p : Option ℕ) (st : Store A)
    → deref (copy_pointer p st).1 (copy_pointer p st).0 ≡ deref st p
unfolding copy_pointer
copy_pointer-deref none st = refl
copy_pointer-deref (some p) st = ground arith

pub copy_pointer-Between :
    {A : Type 0} (p : Option ℕ) (st : Store A)
    → Between st.next (copy_pointer p st).1.next (copy_pointer p st).0
unfolding copy_pointer
copy_pointer-Between none st = tt
copy_pointer-Between (some p) st = (omega arith, omega arith)

-- An assignment to a cell below the lower mark, or above the upper one.
pub assign-below :
    {A : Type 0} (q : ℕ) (a : A) (low high : ℕ) (st : Store A)
    → suc q ≤ low
    → AgreeOn low high st (assign q a st)
assign-below q a low high st old p above below = ground arith

pub assign-above :
    {A : Type 0} (q : ℕ) (a : A) (st st' : Store A)
    → Grows st st'
    → st.next ≤ q
    → AgreeOn 0 st.next st (assign q a st')
assign-above q a st st' (more, same) new p above below = ground (arith, same p above below)
