-- ===== src/Calculator.antt =====
-- src/inginious/interpreter_commande/interpreter.c and
-- src/inginious/decoder_encore_structures/reading.c: two calculators, which differ in a cast. The
-- numbers (double), strtod() and atoi() are parameters; getopt() gives the options.
use lingi1341_projet.Prelude.{
  ℕ, Bool, ◌||◌, Option, none, some, List, [], ◌∷◌, ltb, ◌==◌, if◌then◌else◌, ◌>>=◌, Outcome,
  returns, undefined,
}
pub mod Agreement

-- What the C operators on double do, the constants, and the conversion to int and back (`none` where the number is
-- out of the range of int, and the conversion undefined).
pub record Arithmetic (N : Type 0) : Type 0 where
  pub from_int : ℕ → N
  pub add : N → N → N
  pub subtract : N → N → N
  pub multiply : N → N → N
  pub divide : N → N → N
  pub is_zero : N → Bool
  pub to_int : N → Option N

-- The letters a, s, m and d.
pub data Op : Type 0 where
  plus minus times over : Op

-- What getopt() finds, with the argument of the option.
pub data Flag (Text : Type 0) : Type 0 where
  operation : Op → Text → Flag Text
  increment decrement unknown : Flag Text

-- argc, the options, optind after them, and argv[argc - 1].
pub record Arguments (Text : Type 0) : Type 0 where
  pub argc : ℕ
  pub options : List (Flag Text)
  pub optind : ℕ
  pub last : Text

-- EXIT_FAILURE, or the number printed and with how many digits after the point.
pub data Answer (N : Type 0) : Type 0 where
  wrong : Answer N
  printed : (precision : ℕ) → N → Answer N

module _ {N Text : Type 0} (num : Arithmetic N) (strtod : Text → N) (atoi : Text → ℕ) where
  unfoldable pub combine : Op → N → N → N
  combine plus sum x = num.add sum x
  combine minus sum x = num.subtract sum x
  combine times sum x = num.multiply sum x
  combine over sum x = num.divide sum x

  -- One option, with the conversion of its argument; `none` is exit(EXIT_FAILURE).
  unfoldable pub apply : (convert : N → Outcome N) → Flag Text → N → Outcome (Option N)
  apply convert (operation op text) sum =
      if num.is_zero (strtod text)
      then returns none
      else convert (strtod text) >>= (λ x. returns (some (combine op sum x)))
  apply convert increment sum = returns (some (num.add sum (num.from_int 1)))
  apply convert decrement sum = returns (some (num.subtract sum (num.from_int 1)))
  apply convert unknown sum = returns none

  -- The loop over the options.
  unfoldable pub calculate : (convert : N → Outcome N) → List (Flag Text) → N → Outcome (Option N)
  calculate convert [] sum = returns (some sum)
  calculate convert (flag ∷ rest) sum =
      apply convert flag sum
      >>= (λ r. elim r [ none ↦ returns none | some sum' ↦ calculate convert rest sum' ])

  -- The last argument is the number of digits if it is positive. `atoi` is 0 where the number is
  -- negative.
  unfoldable pub print_sum : Arguments Text → N → Answer N
  print_sum args sum =
      if ltb 0 (atoi args.last)
      then printed (atoi args.last) sum
      else if (args.argc == 1) || (args.optind == args.argc)
      then printed 0 sum
      else wrong

  abbrev pub finish : Arguments Text → Option N → Answer N
  finish args none = wrong
  finish args (some sum) = print_sum args sum

  unfoldable pub interpreter_main : Arguments Text → Outcome (Answer N)
  interpreter_main args =
      calculate returns args.options (num.from_int 0) >>= (λ r. returns (finish args r))

  -- The cast of reading.c.
  unfoldable pub cast : N → Outcome N
  cast x = elim (num.to_int x) [ none ↦ undefined | some i ↦ returns i ]

  unfoldable pub reading_main : Arguments Text → Outcome (Answer N)
  reading_main args =
      calculate cast args.options (num.from_int 0) >>= (λ r. returns (finish args r))
