-- ===== src/Retryers.antt =====
-- framework/helpers/retryers.py: the retry policies. The loop that runs a policy is tenacity's:
-- the child `Tenacity` states what the code relies on.
pub mod Tenacity
pub mod Policies
pub mod Loop
mod Samples
use psm_interop.Common.{
  ℕ, Bool, true, false, Option, none, some, List, [], ◌∷◌, ◌||◌, ◌++◌, ltb, is_some, ◌&&◌, not,
  if◌then◌else◌,
}
use psm_interop.Common.Effects.{Outcome, returned, raised}
use psm_interop.Errors.{
  Exception, ExceptionClass, any_exception, retry_error, retry_error_of_result, base_retry_error,
  value_error,
}

-- `isinstance(e, classes)` for a tuple of classes.
abbrev pub is_instance : List ExceptionClass → Exception → Bool
is_instance [] e = false
is_instance (c ∷ cs) e = c e || is_instance cs e

-- A callback that checks a result; it may raise.
abbrev pub CheckResultFn : Type 0 → Type 0
CheckResultFn A = A → Outcome Exception Bool

-- The objects of tenacity that the policies are made of.
pub data RetryBase (A : Type 0) : Type 0 where
  retry_if_exception_type : List ExceptionClass → RetryBase A
  retry_if_exception : (Exception → Bool) → RetryBase A
  retry_if_not_result : CheckResultFn A → RetryBase A

pub data Wait : Type 0 where
  wait_exponential : (min max : ℕ) → Wait
  wait_fixed : ℕ → Wait

pub data Stop : Type 0 where
  stop_after_attempt : ℕ → Stop
  stop_after_delay : ℕ → Stop

-- What `_on_error_callback` passes on to the RetryError.
pub record ErrorInfo : Type 0 where
  pub timeout : Option ℕ
  pub attempts : ℕ
  pub checks_result : Bool

-- tenacity.Retrying, with `retry=retry_any(*retry)` and `stop=stop_any(*stop)`. With `reraise` the
-- callback for the error is not used.
pub record Retrying (A : Type 0) : Type 0 where
  pub retry : List (RetryBase A)
  pub wait : Wait
  pub stop : List Stop
  pub on_error : ErrorInfo
  pub reraise : Bool

abbrev caught : List ExceptionClass → Outcome Exception Bool → Outcome Exception Bool
caught cs (returned b) = returned b
caught cs (raised e) = if is_instance cs e then returned false else raised e

abbrev pub default_classes : Option (List ExceptionClass) → List ExceptionClass
default_classes none = any_exception ∷ []
default_classes (some cs) = cs

abbrev pub is_empty {ℓ} : {B : Type ℓ} → List B → Bool
is_empty [] = true
is_empty (x ∷ xs) = false

abbrev attempt_stops : ℕ → List Stop
attempt_stops attempts = if ltb 0 attempts then stop_after_attempt attempts ∷ [] else []

abbrev delay_stops : Option ℕ → List Stop
delay_stops none = []
delay_stops (some timeout) = stop_after_delay timeout ∷ []

module _ {A : Type 0} where
  unfoldable pub safe_check_result : CheckResultFn A → List ExceptionClass → CheckResultFn A
  safe_check_result check_result retry_on_exceptions a = caught retry_on_exceptions (check_result a)

  abbrev result_conditions : List ExceptionClass → Option (CheckResultFn A) → List (RetryBase A)
  result_conditions cs none = []
  result_conditions cs (some check) =
      retry_if_not_result (if is_empty cs then check else safe_check_result check cs) ∷ []

  unfoldable pub build_retry_conditions :
      Option (List ExceptionClass) → Option (CheckResultFn A) → List (RetryBase A)
  build_retry_conditions retry_on_exceptions check_result =
      let cs = default_classes retry_on_exceptions in
      retry_if_exception_type cs ∷ result_conditions cs check_result

  unfoldable pub exponential_retryer_with_timeout :
      (wait_min wait_max timeout : ℕ)
      → Option (List ExceptionClass)
      → Option (CheckResultFn A)
      → Retrying A
  exponential_retryer_with_timeout wait_min wait_max timeout retry_on_exceptions check_result =
      record {
        retry = build_retry_conditions retry_on_exceptions check_result;
        wait = wait_exponential wait_min wait_max;
        stop = stop_after_delay timeout ∷ [];
        on_error = record {
          timeout = some timeout;
          attempts = 0;
          checks_result = is_some check_result;
        };
        reraise = false;
      }

  abbrev type_conditions : Option (List ExceptionClass) → List (RetryBase A)
  type_conditions none = []
  type_conditions (some cs) = if is_empty cs then [] else retry_if_exception_type cs ∷ []

  abbrev predicate_conditions : Option (Exception → Bool) → List (RetryBase A)
  predicate_conditions none = []
  predicate_conditions (some p) = retry_if_exception p ∷ []

  unfoldable pub exponential_retryer_with_attempts :
      (wait_min wait_max attempts : ℕ)
      → Option (List ExceptionClass)
      → Option (Exception → Bool)
      → Retrying A
  exponential_retryer_with_attempts wait_min wait_max attempts retry_on_exceptions on_predicate =
      let conditions = type_conditions retry_on_exceptions ++ predicate_conditions on_predicate in
      record {
        retry =
            if is_empty conditions
            then retry_if_exception_type (any_exception ∷ []) ∷ []
            else conditions;
        wait = wait_exponential wait_min wait_max;
        stop = stop_after_attempt attempts ∷ [];
        on_error = record { timeout = none; attempts = attempts; checks_result = false };
        reraise = false;
      }

  unfoldable pub constant_retryer :
      (wait_fixed attempts : ℕ)
      → (timeout : Option ℕ) → Option (List ExceptionClass)
      → Option (CheckResultFn A)
      → Outcome Exception (Retrying A)
  constant_retryer fixed attempts timeout retry_on_exceptions check_result =
      if ltb attempts 1 && not (is_some timeout)
      then raised value_error
      else returned (record {
        retry = build_retry_conditions retry_on_exceptions check_result;
        wait = wait_fixed fixed;
        stop = attempt_stops attempts ++ delay_stops timeout;
        on_error = record {
          timeout = timeout;
          attempts = attempts;
          checks_result = is_some check_result;
        };
        reraise = false;
      })

  -- The callback of `_on_error_callback`: RetryError around the outcome of the last attempt.
  unfoldable pub error_handler : Outcome Exception A → Exception
  error_handler (raised e) = retry_error e
  error_handler (returned a) = retry_error_of_result

  -- What a run raises that has no attempts left.
  unfoldable pub exhausted : Bool → Outcome Exception A → Exception
  unfolding error_handler
  exhausted true (raised e) = e
  exhausted true (returned a) = base_retry_error
  exhausted false o = error_handler o
