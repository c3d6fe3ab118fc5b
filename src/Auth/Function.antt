-- ===== src/Auth/Function.antt =====
-- What is authorized: `ContractFunction`, `AuthorizedFunction` and `AuthStackFrame` of
-- soroban-env-host/src/auth.rs. Addresses, symbols and values are payloads; the arguments of a contract's
-- creation are an XDR type, and the comparisons of the host are an argument.
use rs_soroban_env.Prelude.{ℕ, Bool, true, false, List, Ordering}
use Prim.Native.Nat.Ordering.{lt, eq, gt}
use rs_soroban_env.Errors.Exec.{Exec, ◌>>=◌, pure}

pub record ContractInvocation : Type 0 where
  pub contract_address : ℕ
  pub function_name : ℕ

pub data AuthStackFrame (CreateArgs : Type 0) : Type 0 where
  contract : ContractInvocation → AuthStackFrame CreateArgs
  create_contract_host_fn : CreateArgs → AuthStackFrame CreateArgs

pub record ContractFunction : Type 0 where
  pub contract_address : ℕ
  pub function_name : ℕ
  pub args : List ℕ

pub data AuthorizedFunction (CreateArgs : Type 0) : Type 0 where
  contract_fn : ContractFunction → AuthorizedFunction CreateArgs
  create_contract_host_fn : CreateArgs → AuthorizedFunction CreateArgs

-- What the host gives to authorization: its comparisons and the charges of clones and of a push.
pub record AuthHost (S CreateArgs : Type 0) : Type 0 where
  pub compare_address : ℕ → ℕ → Exec S Ordering
  pub compare_symbol : ℕ → ℕ → Exec S Ordering
  pub compare_args : List ℕ → List ℕ → Exec S Ordering
  pub compare_create_args : CreateArgs → CreateArgs → Exec S Ordering
  pub charge_clone : Exec S (Unit {0})
  pub charge_push : Exec S (Unit {0})
  pub charge_collect : ℕ → Exec S (Unit {0})

-- `Ordering::is_eq`.
abbrev pub is_eq : Ordering → Bool
is_eq lt = false
is_eq eq = true
is_eq gt = false

-- The later comparison, where the first finds no difference.
abbrev pub then_compare : {S : Type 0} → Exec S Ordering → Ordering → Exec S Ordering
then_compare later lt = pure lt
then_compare later eq = later
then_compare later gt = pure gt

module _ {S CreateArgs : Type 0} (host : AuthHost S CreateArgs) where
  unfoldable pub compare_contract_function : ContractFunction → ContractFunction → Exec S Ordering
  compare_contract_function a b =
      host.compare_address a.contract_address b.contract_address
      >>= then_compare (
          host.compare_symbol a.function_name b.function_name
          >>= then_compare (host.compare_args a.args b.args))

  unfoldable pub compare_function :
      AuthorizedFunction CreateArgs → AuthorizedFunction CreateArgs → Exec S Ordering
  unfolding compare_contract_function
  compare_function (contract_fn f1) (contract_fn f2) = compare_contract_function f1 f2
  compare_function (create_contract_host_fn c1) (create_contract_host_fn c2) =
      host.compare_create_args c1 c2
  compare_function (contract_fn _) (create_contract_host_fn _) = pure lt
  compare_function (create_contract_host_fn _) (contract_fn _) = pure gt

  unfoldable pub to_authorized_function :
      AuthStackFrame CreateArgs → List ℕ → Exec S (AuthorizedFunction CreateArgs)
  to_authorized_function (contract frame) args = host.charge_clone >>= λ _. pure (
      contract_fn (record {
        contract_address = frame.contract_address;
        function_name = frame.function_name;
        args = args;
      }))
  to_authorized_function (create_contract_host_fn args') args =
      host.charge_clone >>= λ _. pure (create_contract_host_fn args')
