-- ===== src/Analyzer/Counter.antt =====
-- The interval of one loop counter as a domain of the iterator: what the abstract state keeps of that
-- variable, with the operations of src/crab/interval.cpp and the counter's own part of
-- src/crab/ebpf_transformer.cpp and src/crab/ebpf_checker.cpp. No other instruction assigns it.

pub mod Laws
use prevail.Prelude.{◌≡◌, refl, Bool, true, false, not, ◌&&◌, ◌||◌, if◌then◌else◌}
use prevail.Prelude.Int.{ℤ, pos}
use prevail.Prelude.Result.{Result, ok, err, IfOk, yields, throws, IfOk-bind, IfOk-if, IfOk-value}
use prevail.Arith.Extended
use prevail.Arith.Extended.{Bound, IsNormal, number_of, plus_inf, minus_inf, finite}
use prevail.Cfg.Label.{Label, same_text}
use prevail.Crab.Interval
use prevail.Crab.Interval.{Interval, of_number}
use prevail.Crab.Interval.Members.{IsValid, bottom-IsValid, interval-IsValid}
use prevail.Crab.Interval.Lattice.{join-IsValid, meet-IsValid}
use prevail.Crab.Interval.Widening.{widen-IsValid}
use prevail.Crab.Interval.Narrowing.{narrow-IsValid}
use prevail.Ir.Syntax.{Instruction, Assertion, bounded_loop_count}
use prevail.Ir.CfgBuilder.{to_string}
use prevail.Analyzer.{Domain}

-- A valid interval.
abbrev pub CounterValue : Type 0
CounterValue = (i : Interval) × IsValid i

-- `BoundedLoopCount::limit`.
abbrev pub limit : ℤ
limit = pos 100000

abbrev pub one : Interval
one = of_number (pos 1)

pub one-IsValid : IsValid one
unfolding Interval.interval Extended.gt Extended.le
one-IsValid = interval-IsValid (number_of (pos 1)) (number_of (pos 1))

sum-IsNormal : {a b : Bound} → IsNormal a → IsNormal b → IfOk IsNormal (Extended.add a b)
unfolding Extended.add
sum-IsNormal (number_of n) (number_of m) = yields (number_of _)
sum-IsNormal (number_of n) minus_inf = yields minus_inf
sum-IsNormal (number_of n) plus_inf = yields plus_inf
sum-IsNormal minus_inf (number_of m) = yields minus_inf
sum-IsNormal minus_inf minus_inf = yields minus_inf
sum-IsNormal minus_inf plus_inf = throws
sum-IsNormal plus_inf (number_of m) = yields plus_inf
sum-IsNormal plus_inf minus_inf = throws
sum-IsNormal plus_inf plus_inf = yields plus_inf

pub sum-IsValid : (i x : Interval) → IsValid i → IsValid x → IfOk IsValid (Interval.add i x)
unfolding Interval.add
sum-IsValid i x v w =
    IfOk-if (Interval.is_bottom i || Interval.is_bottom x) (λ h. yields bottom-IsValid)
      (λ h. IfOk-bind (Extended.add i.lb x.lb) λ l e. IfOk-bind (Extended.add i.ub x.ub) λ u f.
        yields (
          interval-IsValid (IfOk-value e (sum-IsNormal v.lb_normal w.lb_normal))
            (IfOk-value f (sum-IsNormal v.ub_normal w.ub_normal))))

-- A result with what is known of it.
abbrev pub with_validity :
    (r : Result Interval) → ((i : Interval) → r ≡ ok i → IsValid i) → Result CounterValue
with_validity (ok i) valid = ok (i, valid i refl)
with_validity (err e) valid = err e

unfoldable pub increment : CounterValue → Result CounterValue
increment v =
    with_validity (Interval.add v.0 one) (λ i e. IfOk-value e (sum-IsValid v.0 one v.1 one-IsValid))

pub zero-IsValid : IsValid (of_number (pos 0))
unfolding Interval.interval Extended.gt Extended.le
zero-IsValid = interval-IsValid (number_of (pos 0)) (number_of (pos 0))

abbrev pub zero_value : CounterValue
zero_value = (of_number (pos 0), zero-IsValid)

-- The check does not entail that the counter is within the limit.
unfoldable pub exceeds : CounterValue → Bool
exceeds v = not (Interval.is_bottom v.0 || Extended.le v.0.ub (finite limit))

module _ (h : Label) where
  -- The variable of a label is named by the label's text.
  unfoldable pub names : Label → Bool
  names l = same_text (to_string l) (to_string h)

  unfoldable pub counts : Instruction → Bool
  counts (Instruction.increment_loop_counter name) = names name
  counts i = false

  unfoldable pub limits : Assertion → Bool
  limits (bounded_loop_count name) = names name
  limits a = false

  -- The limits of the third round are made before any counter is registered: they leave it as it is.
  abbrev pub counter : Domain
  counter = record {
    Value = CounterValue;
    bottom = (Interval.bottom, bottom-IsValid);
    is_bottom = λ v. Interval.is_bottom v.0;
    le = λ v w. Interval.le v.0 w.0;
    join = λ v w. (Interval.join v.0 w.0, join-IsValid v.0 w.0 v.1 w.1);
    meet = λ v w. (Interval.meet v.0 w.0, meet-IsValid v.0 w.0 v.1 w.1);
    widen = λ v w first. (Interval.widen v.0 w.0, widen-IsValid v.0 w.0 v.1 w.1);
    narrow = λ v w. (Interval.narrow v.0 w.0, narrow-IsValid v.0 w.0 v.1 w.1);
    initialize_loop_counter =
        λ v l. if names l && not (Interval.is_bottom v.0) then zero_value else v;
    transform = λ v i. if counts i && not (Interval.is_bottom v.0) then increment v else ok v;
    fails = λ v a l. ok (limits a && exceeds v);
  }
