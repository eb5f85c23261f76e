-- ===== src/Authz/Programs.antt =====
-- internal/assignment/authz/checker.go: `program`, the cache of compiled allow expressions, and
-- `ValidateAllowExpression`. CEL is a parameter.
pub mod Laws
use Prim.Native.String
use opensandbox_aks_governan.Base.{
  ℕ, suc, String, Bool, true, false, not, Option, none, some, List, [], ◌∷◌, leb, if◌then◌else◌,
  length, find_key, put_key, Error, message, Result, ok, err, ◌>>=◌, ◌>>◌, require,
}

-- `cel.Env.Compile`, whether the output type is bool, `cel.Env.Program`, and evaluation: `some true`
-- is `types.True`, `some false` any other value, `none` an error. `Input` is what an expression sees.
pub record Cel (Input : Type 0) : Type 1 where
  pub Ast : Type 0
  pub Program : Type 0
  pub compile : String → Result Ast
  pub is_bool : Ast → Bool
  pub program : Ast → Result Program
  pub eval : Program → Input → Option Bool

abbrev pub max_compiled_programs : ℕ
max_compiled_programs = 1024

-- `bundleUID + "\x00" + revision + "\x00" + backend`.
abbrev pub program_key : String → String → String → String
program_key uid revision backend =
    String.◌++◌ uid (String.◌++◌ "\0" (String.◌++◌ revision (String.◌++◌ "\0" backend)))

module _ {Input : Type 0} (c : Cel Input) where
  unfoldable pub validate_allow_expression : String → Result (Unit {0})
  validate_allow_expression text = do
    ast ← c.compile text
    require (c.is_bool ast) "allow expression must return bool"

  -- A program for an expression, or why there is none.
  unfoldable pub build_program : String → Result c.Program
  build_program text = do
    ast ← c.compile text
    require (c.is_bool ast) "allow expression must return bool"
    c.program ast

  abbrev pub store_program :
      String
      → List (String × c.Program)
      → Result c.Program
      → List (String × c.Program) × Result c.Program
  store_program key values (err e) = (values, err e)
  store_program key values (ok p) =
      (put_key key p (if leb max_compiled_programs (length values) then [] else values), ok p)

  abbrev pub program_cached :
      String
      → String
      → List (String × c.Program)
      → Option c.Program
      → List (String × c.Program) × Result c.Program
  program_cached key text values (some p) = (values, ok p)
  program_cached key text values none = store_program key values (build_program text)

  unfoldable pub program_for :
      String → String → List (String × c.Program) → List (String × c.Program) × Result c.Program
  program_for key text values = program_cached key text values (find_key key values)
