-- ===== src/Crab/Interval/Divide/Errors.antt =====
-- The errors of the operations that the divisions of src/crab/interval.cpp call.
use prevail.Prelude.{refl, ◌||◌}
use prevail.Prelude.Int.{ℤ, pos, eqb_ℤ, leb_ℤ}
use prevail.Prelude.Result.{Result}
use prevail.Prelude.Fuel.{Fueled, returned, failed, bind-Fueled, if-Fueled}
use prevail.Arith.Number
use prevail.Arith.Number.{sint, uint, IntType, fits, fits_cast_to, swap_signedness}
use prevail.Arith.Extended
use prevail.Arith.Extended.{Bound, finite, is_finite}
use prevail.Crab.Interval.{Interval, is_bottom, add, sub}
use prevail.Crab.Interval.Divide.{make_dividend_when_both_nonzero}

pub cast_to-Fueled : (t : IntType) (n : ℤ) → Fueled (Number.cast_to t n)
unfolding Number.cast_to
cast_to-Fueled t n =
    if-Fueled (fits t n) _ _ returned
      (if-Fueled (fits (swap_signedness t) n) _ _ returned (failed refl))

number_div-Fueled : (n x : ℤ) → Fueled (Number.div n x)
unfolding Number.div
number_div-Fueled n x = if-Fueled (eqb_ℤ x (pos 0)) _ _ (failed refl) returned

as_unsigned-Fueled : (n : ℤ) → Fueled (Extended.as_unsigned n)
unfolding Extended.as_unsigned
as_unsigned-Fueled n = if-Fueled (leb_ℤ (pos 0) n) _ _ returned (cast_to-Fueled (uint 64) n)

abs_div-Fueled :
    (b x : Bound) (f : ℤ → ℤ → Result Bound)
    → ((n m : ℤ) → Fueled (f n m))
    → Fueled (Extended.abs_div b x f)
unfolding Extended.abs_div
abs_div-Fueled b x f h = if-Fueled (eqb_ℤ x.n (pos 0)) _ _ (failed refl) (
    if-Fueled x.is_infinite _ _ (if-Fueled b.is_infinite _ _ (failed refl) returned)
      (if-Fueled b.is_infinite _ _ returned (h b.n x.n)))

pub ext_div-Fueled : (b x : Bound) → Fueled (Extended.div b x)
unfolding Extended.div
ext_div-Fueled b x = abs_div-Fueled b x _ λ n m. bind-Fueled (number_div-Fueled n m) λ q. returned

pub ext_udiv-Fueled : (b x : Bound) → Fueled (Extended.udiv b x)
unfolding Extended.udiv
ext_udiv-Fueled b x = abs_div-Fueled b x _ λ n m.
    bind-Fueled (as_unsigned-Fueled n)
      λ d. bind-Fueled (as_unsigned-Fueled m) λ e. bind-Fueled (number_div-Fueled d e) λ q. returned

bound_add-Fueled : (b x : Bound) → Fueled (Extended.add b x)
unfolding Extended.add
bound_add-Fueled b x =
    if-Fueled (is_finite b) _ _ (if-Fueled (is_finite x) _ _ returned returned)
      (if-Fueled (is_finite x || eqb_ℤ x.n b.n) _ _ returned (failed refl))

add-Fueled : (i x : Interval) → Fueled (add i x)
unfolding add
add-Fueled i x = if-Fueled (is_bottom i || is_bottom x) _ _ returned (
    bind-Fueled (bound_add-Fueled i.lb x.lb)
      λ l. bind-Fueled (bound_add-Fueled i.ub x.ub) λ u. returned)

sub-Fueled : (i x : Interval) → Fueled (sub i x)
unfolding sub Extended.sub
sub-Fueled i x = if-Fueled (is_bottom i || is_bottom x) _ _ returned (
    bind-Fueled (bound_add-Fueled i.lb (Extended.neg x.ub))
      λ l. bind-Fueled (bound_add-Fueled i.ub (Extended.neg x.lb)) λ u. returned)

pub dividend-Fueled : (i x : Interval) → Fueled (make_dividend_when_both_nonzero i x)
unfolding make_dividend_when_both_nonzero
dividend-Fueled i x = if-Fueled _ _ _ returned (
    if-Fueled _ _ _ (bind-Fueled (add-Fueled i x) λ s. add-Fueled s _)
      (bind-Fueled (add-Fueled i _) λ s. sub-Fueled s x))
