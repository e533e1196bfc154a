-- ===== src/Sh9/Variables.antt =====
-- sh9/src/eval/expansion.rs: the value of a variable, over the parts of `Shell` (sh9/src/shell.rs) and
-- of `ExecContext` (sh9/src/eval/mod.rs) that it reads. The environment of the process and the tables
-- of Unicode are parameters.
use fs.Base.{
  ℕ, ◌-◌, ◌^◌, Bool, ◌&&◌, Option, none, some, List, [], ◌∷◌, ◌++◌, Text, chars, ◌==◌, text_eq, ltb,
  leb, if◌then◌else◌, length, get_elem?,
}
use fs.Base.Map.{Map}
use fs.Base.Map
use fs.Base.Decimal.{decimal, parse_unsigned}
use fs.Sh9.Outcome.{Outcome, ok, err, runtime}

-- `last_exit_code` is an `i32`, the number below 2 ^ 32 with the same bits.
pub record Shell : Type 0 where
  pub cwd : Text
  pub env : Map Text Text
  pub last_exit_code : ℕ
  pub nounset : Bool

pub record ExecContext : Type 0 where
  pub locals : Map Text Text
  pub positional : List Text

-- What the code asks of the world around the shell.
pub record World : Type 0 where
  -- `std::env::var`
  pub env_var : Text → Option Text
  -- `char::is_alphabetic` and `char::is_numeric`
  pub is_alphabetic : ℕ → Bool
  pub is_numeric : ℕ → Bool

unfoldable pub exit_code_text : ℕ → Text
unfolding decimal
exit_code_text code = if ltb code (2 ^ 31) then decimal code else b'-' ∷ decimal (2 ^ 32 - code)

-- The first of two lookups that finds a value.
abbrev or_else : Option Text → Option Text → Option Text
or_else (some value) other = some value
or_else none other = other

module _ (world : World) (shell : Shell) (ctx : ExecContext) where
  unfoldable pub lookup_named : Text → Option Text
  lookup_named name =
      or_else (Map.get ctx.locals name) (or_else (Map.get shell.env name) (world.env_var name))

  unfoldable pub lookup_positional : ℕ → Option Text
  lookup_positional n =
      if ltb 0 n && leb n (length ctx.positional) then get_elem? ctx.positional (n - 1) else none

  unfoldable pub lookup_variable_value : Text → Option Text
  unfolding lookup_named lookup_positional exit_code_text parse_unsigned
  lookup_variable_value name =
      if name == chars "?"
      then some (exit_code_text shell.last_exit_code)
      else if name == chars "0"
      then some (chars "sh9")
      else if name == chars "PWD"
      then some shell.cwd
      else elim (parse_unsigned (2 ^ 64 - 1) name) [
        | some n ↦ lookup_positional n
        | none ↦ lookup_named name
      ]

  unfoldable pub get_variable_value : Text → Outcome Text
  unfolding lookup_variable_value
  get_variable_value name = elim (lookup_variable_value name) [
    | some value ↦ ok value
    | none ↦
        if shell.nounset
        then err (runtime (chars "sh9: " ++ name ++ chars ": unbound variable"))
        else ok []
  ]
