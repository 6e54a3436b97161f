-- ===== src/Ir/CfgBuilder/Inline/Depth.antt =====
-- The depth of the calls that `add_cfg_nodes` of src/ir/cfg_builder.cpp inlines, and the fuel for them.
use prevail.Prelude.{
  ℕ, zero, suc, ◌+◌, ◌/◌, ◌%◌, ◌<◌, ◌≡◌, refl, false, ◌&&◌, inl, inr, Bool-cases, [], ◌∷◌, ◌++◌,
  arith,
}
use prevail.Prelude.Int.{ℤ, pos, negsuc}
use prevail.Cfg.Label.{Label, Text, same_label, is_empty, count_delimiters, stack_frame_delimiter}
use prevail.Cfg.Graph.{entry, exit}
use prevail.Ir.CfgBuilder.{digits, decimal, to_string}
use prevail.Ir.CfgBuilder.Inline.{copy_of}

is_empty-append : (a b : Text) → is_empty (a ++ b) ≡ (is_empty a && is_empty b)
is_empty-append [] b = refl
is_empty-append (x ∷ a) b = refl

count-append : (a b : Text) → count_delimiters (a ++ b) ≡ count_delimiters a + count_delimiters b
count-append [] b = omega arith
count-append (x ∷ a) b = ground (arith, count-append a b)

digits-nonempty :
    (fuel n : ℕ) (rest : Text) → is_empty rest ≡ false → is_empty (digits fuel n rest) ≡ false
unfolding digits
digits-nonempty zero n rest h = h
digits-nonempty (suc fuel) n rest h =
    ground (arith, digits-nonempty fuel (n / 10) ((b'0' + n % 10) ∷ rest) refl)

decimal-nonempty : (z : ℤ) → is_empty (decimal z) ≡ false
unfolding decimal digits
decimal-nonempty (pos n) = ground (arith, digits-nonempty n (n / 10) ((b'0' + n % 10) ∷ []) refl)
decimal-nonempty (negsuc n) = refl

nonempty_within : (a b c : Text) → is_empty b ≡ false → is_empty (a ++ (b ++ c)) ≡ false
nonempty_within a b c h = ground (arith, is_empty-append a (b ++ c), is_empty-append b c)

-- The text of a label is not empty, so that no prefix of a copy is.
pub to_string-nonempty : (l : Label) → is_empty (to_string l) ≡ false
unfolding to_string
to_string-nonempty l = elim (Bool-cases (same_label l entry)) [
  | inl e ↦ rw e refl
  | inr e ↦ rw e (elim (Bool-cases (same_label l exit)) [
    | inl f ↦ rw f refl
    | inr f ↦ rw f (nonempty_within _ (decimal l.from) _ (decimal-nonempty l.from))
  ])
]

no_end :
    (prefix : Text) (m : Label)
    → is_empty prefix ≡ false
    → (same_label (copy_of prefix m) entry ≡ false) × (same_label (copy_of prefix m) exit ≡ false)
unfolding same_label
no_end [] m h = cc
no_end (x ∷ s) m h = (refl, refl)

one_more :
    (prefix rest : Text)
    → count_delimiters prefix < count_delimiters ((prefix ++ stack_frame_delimiter ∷ []) ++ rest)
one_more prefix rest = omega (
  arith,
  count-append (prefix ++ stack_frame_delimiter ∷ []) rest,
  count-append prefix (stack_frame_delimiter ∷ []),
)

-- Each call adds a delimiter to the prefix.
pub to_string-delimiters :
    (prefix : Text) (m : Label)
    → is_empty prefix ≡ false
    → count_delimiters prefix < count_delimiters (to_string (copy_of prefix m))
unfolding to_string
to_string-delimiters prefix m h = let e = no_end prefix m h in rw (e.0, e.1, h) (one_more prefix _)
