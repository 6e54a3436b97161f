-- ===== src/Cfg/Label.antt =====
-- `struct Label` of src/cfg/label.hpp, and the offsets of jumps. A string is the list of its
-- characters' codes; an `int` is an integer.
use prevail.Prelude.{
  ℕ, suc, ◌+◌, ◌-◌, ◌^◌, Bool, true, false, not, ◌&&◌, List, [], ◌∷◌, ◌==◌, if◌then◌else◌,
}
use prevail.Prelude.Int.{ℤ, pos, negsuc, ◌-ℤ◌, leb_ℤ, eqb_ℤ}
use prevail.Prelude.Result.{Result, ok}
use prevail.Arith.Number.{narrow, sint}

abbrev pub Text : Type 0
Text = List ℕ

abbrev pub stack_frame_delimiter : ℕ
stack_frame_delimiter = b'/'

pub record Label : Type 0 where
  pub stack_frame_prefix : Text
  pub from : ℤ
  pub to : ℤ
  pub special_label : Text

-- The constructor, by its three arguments.
abbrev pub label : ℤ → ℤ → Text → Label
label index to prefix = record {
  stack_frame_prefix = prefix;
  from = index;
  to = to;
  special_label = [];
}

abbrev pub counter_text : Text
counter_text = b'c' ∷ b'o' ∷ b'u' ∷ b'n' ∷ b't' ∷ b'e' ∷ b'r' ∷ []

unfoldable pub make_jump : Label → Label → Label
make_jump src target = label src.from target.from target.stack_frame_prefix

unfoldable pub make_increment_counter : Label → Label
make_increment_counter l = record (label l.from l.to l.stack_frame_prefix) {
  special_label = counter_text;
}

unfoldable pub isjump : Label → Bool
isjump l = not (eqb_ℤ l.to (negsuc 0))

abbrev pub count_delimiters : Text → ℕ
count_delimiters [] = 0
count_delimiters (c ∷ cs) =
    let rest = count_delimiters cs in if c == stack_frame_delimiter then suc rest else rest

abbrev pub is_empty : Text → Bool
is_empty [] = true
is_empty (c ∷ cs) = false

unfoldable pub call_stack_depth : Label → ℕ
call_stack_depth l =
    if is_empty l.stack_frame_prefix then 1 else 2 + count_delimiters l.stack_frame_prefix

abbrev pub same_text : Text → Text → Bool
same_text [] [] = true
same_text (x ∷ xs) (y ∷ ys) = x == y && same_text xs ys
same_text xs ys = false

-- Equality of labels, member by member.
unfoldable pub same_label : Label → Label → Bool
same_label a b =
    same_text a.stack_frame_prefix b.stack_frame_prefix
    && eqb_ℤ a.from b.from
    && eqb_ℤ a.to b.to
    && same_text a.special_label b.special_label

-- `label.from - pc - 1`, and whether it fits in 16 bits.
abbrev pub jump_offset : ℕ → Label → ℤ
jump_offset pc l = l.from -ℤ pos pc -ℤ pos 1

abbrev pub is16 : ℤ → Bool
is16 offset = leb_ℤ (negsuc (2 ^ 15 - 1)) offset && leb_ℤ offset (pos (2 ^ 15 - 1))

unfoldable pub label_to_offset16 : ℕ → Label → Result ℤ
label_to_offset16 pc l =
    let offset = jump_offset pc l in narrow (sint 16) (if is16 offset then offset else pos 0)

unfoldable pub label_to_offset32 : ℕ → Label → Result ℤ
label_to_offset32 pc l =
    let offset = jump_offset pc l in if is16 offset then ok (pos 0) else narrow (sint 32) offset
