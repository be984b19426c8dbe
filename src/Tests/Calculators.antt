-- ===== src/Tests/Calculators.antt =====
-- src/inginious/interpreter_commande/interpreter.c and
-- src/inginious/decoder_encore_structures/reading.c: the calculators on the numbers counted in halves.
use lingi1341_projet.Prelude.{ℕ, ◌+◌, ◌-◌, ◌*◌, ◌/◌, ◌≡◌, refl, some, [], ◌∷◌, ◌==◌, returns}
use lingi1341_projet.Calculator.{
  combine, apply, calculate, print_sum, interpreter_main, cast, reading_main, Arithmetic, plus,
  times, operation, increment, Arguments, printed,
}

-- A number is twice its value, and positive.
abbrev halves : Arithmetic ℕ
halves = record {
  from_int = λ i. 2 * i;
  add = λ x y. x + y;
  subtract = λ x y. x - y;
  multiply = λ x y. x * y / 2;
  divide = λ x y. 2 * x / y;
  is_zero = λ x. x == 0;
  to_int = λ x. some (x / 2 * 2);
}

abbrev on_halves : ℕ → ℕ
on_halves text = text

-- atoi() of what strtod() reads.
abbrev whole_part : ℕ → ℕ
whole_part text = text / 2

-- -a 3 -m 2 -I
abbrev three_flags : Arguments ℕ
three_flags = record {
  argc = 6;
  options = operation plus 6 ∷ operation times 4 ∷ increment ∷ [];
  optind = 6;
  last = 0;
}

-- -a 3: the 3 is taken for the number of digits too.
abbrev one_flag : Arguments ℕ
one_flag = record { argc = 3; options = operation plus 6 ∷ []; optind = 3; last = 6 }

-- -a 1.5
abbrev half_flag : Arguments ℕ
half_flag = record { argc = 3; options = operation plus 3 ∷ []; optind = 3; last = 0 }

digits_from_operand : interpreter_main halves on_halves whole_part one_flag ≡ returns (printed 3 6)
unfolding interpreter_main calculate apply combine print_sum
digits_from_operand = refl

cast_loses_half :
    (interpreter_main halves on_halves whole_part half_flag ≡ returns (printed 0 3))
    × (reading_main halves on_halves whole_part half_flag ≡ returns (printed 0 2))
unfolding interpreter_main reading_main calculate apply combine print_sum cast
cast_loses_half = (refl, refl)
