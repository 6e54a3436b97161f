-- ===== src/Ir/Assertions/Privilege.antt =====
-- The assertions of privileged and unprivileged programs, of src/ir/assertions.cpp.
use mathlib.Core.List.{Sublistᴰ}
use mathlib.Core.List.Sublistᴰ.{slnil, cons-cons}
use prevail.Prelude.{
  Bool, true, false, Option, none, some, List, [], ◌∷◌, ◌++◌, ◌≡◌, refl, ◌==◌, if◌then◌else◌,
}
use prevail.Prelude.Int.{ℤ}
use prevail.Prelude.Result.{Result, ok, err, ◌>>=◌, Error}
use prevail.Prelude.Lists.{Sublistᴰ-same, nil-Sublistᴰ, append-Sublistᴰ}
use prevail.Cfg.Label.{Label}
use prevail.Ir.Syntax.{
  Assertion, Instruction, ArgSingle, ArgSingleKind, ArgPair, Call, Mem, Assume, AccessType,
  Condition, Reg, Value,
}
use prevail.Ir.Assertions.{
  Extractor, get_assertions, of_single, of_singles, of_call, of_pairs, of_pair, of_mem, of_atomic,
  leaves_stack_frame, r10_stack_pointer, explicate, of_jmp, of_assume, make_valid_access,
}

abbrev pub privileged : Option Label → Extractor
privileged l = record { is_privileged = true; current_label = l }

abbrev pub unprivileged : Option Label → Extractor
unprivileged l = record { is_privileged = false; current_label = l }

-- Both calls fail alike, or the first list leaves out members of the second.
pub data Fewer {A : Type 0} : Result (List A) → Result (List A) → Type 0 where
  fails : (e : Error) → Fewer (err e) (err e)
  leaves_out : {xs ys : List A} → Sublistᴰ xs ys → Fewer (ok xs) (ok ys)

Fewer-refl : {A : Type 0} (r : Result (List A)) → Fewer r r
Fewer-refl (ok xs) = leaves_out (Sublistᴰ-same xs)
Fewer-refl (err e) = fails e

explicate-Fewer :
    (l : Option Label) (c : Condition)
    → Sublistᴰ (explicate (privileged l) c) (explicate (unprivileged l) c)
unfolding explicate
explicate-Fewer l c = nil-Sublistᴰ _

-- The place of an access does not depend on the privilege.
same_access :
    (l : Option Label) (r : Reg) (offset : ℤ) (width : Value) (or_null : Bool) (t : AccessType)
    → make_valid_access (privileged l) r offset width or_null t
      ≡ make_valid_access (unprivileged l) r offset width or_null t
unfolding make_valid_access
same_access l r offset width or_null t = refl

same_pairs :
    (l : Option Label) (ps : List ArgPair)
    → of_pairs (privileged l) ps ≡ of_pairs (unprivileged l) ps
unfolding of_pairs of_pair
same_pairs l [] = refl
same_pairs l (p ∷ ps) = rw (same_access l, same_pairs l ps)

-- The same of a round of the loop over single arguments, which also passes a register on.
data FewerOfSingle
    : Result (List Assertion × Option Reg) → Result (List Assertion × Option Reg) → Type 0 where
  single_fails : (e : Error) → FewerOfSingle (err e) (err e)
  single_leaves_out :
      {xs ys : List Assertion} (fd : Option Reg)
      → Sublistᴰ xs ys
      → FewerOfSingle (ok (xs, fd)) (ok (ys, fd))

FewerOfSingle-bind :
    {r s : Result (List Assertion × Option Reg)} {f g : Option Reg → Result (List Assertion)}
    → FewerOfSingle r s
    → ((fd : Option Reg) → Fewer (f fd) (g fd))
    → Fewer
        (r >>= λ x. f (x.1) >>= λ others. ok (x.0 ++ others))
        (s >>= λ x. g (x.1) >>= λ others. ok (x.0 ++ others))
FewerOfSingle-bind (single_fails e) h = fails e
FewerOfSingle-bind {f = f} {g = g} (single_leaves_out fd sub) h = others sub (h fd)
  where
    others :
        {xs ys : List Assertion} {r s : Result (List Assertion)}
        → Sublistᴰ xs ys
        → Fewer r s
        → Fewer (r >>= λ o. ok (xs ++ o)) (s >>= λ o. ok (ys ++ o))
    others sub (fails e) = fails e
    others sub (leaves_out t) = leaves_out (append-Sublistᴰ sub t)

FewerOfSingle-refl : (r : Result (List Assertion × Option Reg)) → FewerOfSingle r r
FewerOfSingle-refl (ok (xs, fd)) = single_leaves_out fd (Sublistᴰ-same xs)
FewerOfSingle-refl (err e) = single_fails e

of_single-Fewer :
    (k : ArgSingleKind) (r : Reg) (or_null : Bool) (fd : Option Reg)
    → FewerOfSingle (of_single true k r or_null fd) (of_single false k r or_null fd)
unfolding of_single
of_single-Fewer ArgSingleKind.anything r or_null fd = single_leaves_out fd (nil-Sublistᴰ _)
of_single-Fewer _ r or_null fd = FewerOfSingle-refl _

of_singles-Fewer :
    (args : List ArgSingle) (fd : Option Reg)
    → Fewer (of_singles true args fd) (of_singles false args fd)
unfolding of_singles
of_singles-Fewer [] fd = leaves_out slnil
of_singles-Fewer (arg ∷ args) fd =
    FewerOfSingle-bind (of_single-Fewer arg.kind arg.reg arg.or_null fd) (of_singles-Fewer args)

Fewer-bind :
    {r s : Result (List Assertion)} {f g : List Assertion → List Assertion}
    → Fewer r s
    → ((xs ys : List Assertion) → Sublistᴰ xs ys → Sublistᴰ (f xs) (g ys))
    → Fewer (r >>= λ xs. ok (f xs)) (s >>= λ ys. ok (g ys))
Fewer-bind (fails e) h = fails e
Fewer-bind (leaves_out t) h = leaves_out (h _ _ t)

call-Fewer :
    (l : Option Label) (c : Call) → Fewer (of_call (privileged l) c) (of_call (unprivileged l) c)
unfolding of_call
call-Fewer l c = rw (same_pairs l c.pairs) (
    Fewer-bind (of_singles-Fewer c.singles none)
      λ xs ys t. cons-cons refl (append-Sublistᴰ t (Sublistᴰ-same _)))

Fewer-map :
    {A : Type 0} (r : Result A) {f g : A → List Assertion}
    → ((a : A) → Sublistᴰ (f a) (g a))
    → Fewer (r >>= λ a. ok (f a)) (r >>= λ a. ok (g a))
Fewer-map (ok a) h = leaves_out (h a)
Fewer-map (err e) h = fails e

if-both :
    (b : Bool) {a c d e : List Assertion}
    → Sublistᴰ a c
    → Sublistᴰ d e
    → Sublistᴰ (if b then a else d) (if b then c else e)
if-both true s t = s
if-both false s t = t

mem-Fewer :
    (l : Option Label) (m : Mem) → Fewer (of_mem (privileged l) m) (of_mem (unprivileged l) m)
unfolding of_mem
mem-Fewer l m = Fewer-map _ λ width.
    if-both (m.access.basereg == r10_stack_pointer)
      (if-both (leaves_stack_frame m.access.offset _) (cons-cons (same_access l _ _ _ _ _) slnil)
        slnil)
      (cons-cons refl (cons-cons (same_access l _ _ _ _ _) (nil-Sublistᴰ _)))

jmp-Fewer :
    (l : Option Label) (c : Option Condition)
    → Sublistᴰ (of_jmp (privileged l) c) (of_jmp (unprivileged l) c)
unfolding of_jmp
jmp-Fewer l none = slnil
jmp-Fewer l (some c) = explicate-Fewer l c

assume-Fewer :
    (l : Option Label) (a : Assume)
    → Sublistᴰ (of_assume (privileged l) a) (of_assume (unprivileged l) a)
unfolding of_assume
assume-Fewer l a = if-both a.is_implicit slnil (explicate-Fewer l a.cond)

-- For every instruction and label, the assertions of a privileged program are those of an
-- unprivileged one with members left out, and the two calls reach the same errors.
pub get_assertions-Fewer :
    (l : Option Label) (i : Instruction)
    → Fewer (get_assertions (privileged l) i) (get_assertions (unprivileged l) i)
unfolding get_assertions
get_assertions-Fewer l (Instruction.call c) = call-Fewer l c
get_assertions-Fewer l (Instruction.jmp j) = leaves_out (jmp-Fewer l j.cond)
get_assertions-Fewer l (Instruction.mem m) = mem-Fewer l m
get_assertions-Fewer l (Instruction.assume a) = leaves_out (assume-Fewer l a)
get_assertions-Fewer l (Instruction.atomic a) =
    unfold of_atomic in rw (same_access l) (Fewer-refl _)
get_assertions-Fewer l _ = Fewer-refl _
