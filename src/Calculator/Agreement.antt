-- ===== src/Calculator/Agreement.antt =====
-- src/inginious/interpreter_commande/interpreter.c and
-- src/inginious/decoder_encore_structures/reading.c: what the loop over the options computes, and where
-- the two agree.
use lingi1341_projet.Prelude.{
  ℕ, ◌≡◌, refl, inl, inr, Bool, true, false, ◌||◌, none, some, List, [], ◌∷◌, if◌then◌else◌,
  Bool-cases, returns,
}
use lingi1341_projet.Calculator.{
  combine, apply, calculate, finish, interpreter_main, cast, reading_main, Arithmetic, Flag,
  operation, increment, decrement, unknown, Arguments,
}

module _ {N Text : Type 0} (num : Arithmetic N) (strtod : Text → N) (atoi : Text → ℕ) where
  -- An unknown option, or one with the argument 0 or none that is a number.
  abbrev pub is_wrong : Flag Text → Bool
  is_wrong (operation op text) = num.is_zero (strtod text)
  is_wrong increment = false
  is_wrong decrement = false
  is_wrong unknown = true

  abbrev pub any_wrong : List (Flag Text) → Bool
  any_wrong [] = false
  any_wrong (flag ∷ rest) = is_wrong flag || any_wrong rest

  -- The meaning of an option as a function.
  abbrev pub effect : Flag Text → N → N
  effect (operation op text) sum = combine num strtod atoi op sum (strtod text)
  effect increment sum = num.add sum (num.from_int 1)
  effect decrement sum = num.subtract sum (num.from_int 1)
  effect unknown sum = sum

  abbrev pub total : List (Flag Text) → N → N
  total [] sum = sum
  total (flag ∷ rest) sum = total rest (effect flag sum)

  -- The loop never stops at a wrong option without a failure, and otherwise composes the effects.
  calculate-total :
      (options : List (Flag Text)) (sum : N)
      → calculate num strtod atoi returns options sum
        ≡ returns (if any_wrong options then none else some (total options sum))
  unfolding calculate apply
  calculate-total [] sum = refl
  calculate-total (operation op text ∷ rest) sum = elim (Bool-cases (num.is_zero (strtod text))) [
    | inl is_zero ↦ rw is_zero refl
    | inr fits ↦ rw (fits, calculate-total rest (combine num strtod atoi op sum (strtod text))) refl
  ]
  calculate-total (increment ∷ rest) sum = calculate-total rest (num.add sum (num.from_int 1))
  calculate-total (decrement ∷ rest) sum = calculate-total rest (num.subtract sum (num.from_int 1))
  calculate-total (unknown ∷ rest) sum = refl

  -- The cast to int keeps the argument.
  abbrev pub IsInt : Flag Text → Type 0
  IsInt (operation op text) = num.to_int (strtod text) ≡ some (strtod text)
  IsInt _ = Unit {0}

  abbrev pub AreInts : List (Flag Text) → Type 0
  AreInts [] = Unit {0}
  AreInts (flag ∷ rest) = IsInt flag × AreInts rest

  cast-int : (x : N) → num.to_int x ≡ some x → cast num strtod atoi x ≡ returns x
  unfolding cast
  cast-int x int = rw (cast, int) refl

  calculate-cast :
      (options : List (Flag Text)) (sum : N)
      → AreInts options
      → calculate num strtod atoi (cast num strtod atoi) options sum
        ≡ returns (if any_wrong options then none else some (total options sum))
  unfolding calculate apply
  calculate-cast [] sum h = refl
  calculate-cast (operation op text ∷ rest) sum (int, h) =
      elim (Bool-cases (num.is_zero (strtod text))) [
        | inl is_zero ↦ rw is_zero refl
        | inr fits ↦
            rw
              (
                fits,
                cast-int (strtod text) int,
                calculate-cast rest (combine num strtod atoi op sum (strtod text)) h,
              )
              refl
      ]
  calculate-cast (increment ∷ rest) sum (_, h) =
      calculate-cast rest (num.add sum (num.from_int 1)) h
  calculate-cast (decrement ∷ rest) sum (_, h) =
      calculate-cast rest (num.subtract sum (num.from_int 1)) h
  calculate-cast (unknown ∷ rest) sum h = refl

  -- The main functions of interpreter.c and reading.c, where the cast to int keeps the argument of
  -- every option: both return the same answer, which is a failure if one of the options is unknown
  -- or has the argument 0, and otherwise that of print_sum for the number to which the options,
  -- one after the other, change 0.
  reading_main-agrees :
      (args : Arguments Text)
      → AreInts args.options
      → let answer =
          finish num strtod atoi args
            (if any_wrong args.options then none else some (total args.options (num.from_int 0))) in
        (interpreter_main num strtod atoi args ≡ returns answer)
        × (reading_main num strtod atoi args ≡ returns answer)
  unfolding interpreter_main reading_main
  reading_main-agrees args ints = (
    rw (calculate-total args.options (num.from_int 0)) refl,
    rw (calculate-cast args.options (num.from_int 0) ints) refl,
  )
