-- ===== src/Gcp/Api.antt =====
-- framework/infrastructure/gcp/api.py: `GcpProjectApiResource`, the retries and the errors that all
-- the clients share. A request is the call of `request.execute` of googleapiclient, a parameter.
pub mod Execute
mod Samples
use psm_interop.Common.{
  ℕ, ◌+◌, Bool, true, false, Option, none, some, List, [], ◌∷◌, ◌||◌, ◌==◌, if◌then◌else◌,
}
use psm_interop.Common.Effects.{Effect, throw, catch}
use psm_interop.Errors.{
  Exception, Response, http_error, httplib2_error, connection_error, ssl_error, response_error,
  transport_error, retry_error, retry_error_of_result, attribute_error,
}
use psm_interop.Retryers.{Retrying, exponential_retryer_with_attempts}
use psm_interop.Retryers.Tenacity.{Tenacity}

-- `isinstance(error, _TRANSPORT_ERRORS)`
unfoldable pub is_transport : Exception → Bool
is_transport httplib2_error = true
is_transport connection_error = true
is_transport ssl_error = true
is_transport _ = false

unfoldable pub is_retryable_api_error : Exception → Bool
unfolding is_transport
is_retryable_api_error (http_error r) =
    r.status == 429
    || (r.status == 500 || (r.status == 502 || (r.status == 503 || r.status == 504)))
is_retryable_api_error e = is_transport e

abbrev pub gcp_api_retries : ℕ
gcp_api_retries = 10

abbrev or_default : Option ℕ → ℕ
or_default none = gcp_api_retries
or_default (some n) = n

unfoldable pub get_api_retryer : {A : Type 0} → Option ℕ → Retrying A
get_api_retryer num_retries =
    exponential_retryer_with_attempts 1 10 (or_default num_retries + 1) none
      (some is_retryable_api_error)

-- The field `status` of `ResponseError(cause)`: only a true response has one.
unfoldable pub error_status : Response → Option ℕ
error_status r = if r.truthy then (if r.status == 0 then none else some r.status) else none

-- `ResponseError(cause)`; a cause that is no HttpError has no `_get_reason`.
unfoldable pub response_error_of : Exception → Exception
unfolding error_status
response_error_of (http_error r) = response_error (error_status r)
response_error_of _ = attribute_error

-- The end of `_execute`, with the `error` that the handlers stored.
unfoldable pub wrap_error : Exception → Exception
unfolding is_transport response_error_of
wrap_error e = if is_transport e then transport_error e else response_error_of e

abbrev is_http : Exception → Bool
is_http (http_error r) = true
is_http _ = false

-- The handlers of `_execute`.
unfoldable pub translate_error : Exception → Exception
unfolding is_transport wrap_error
translate_error (retry_error e) = wrap_error e
translate_error retry_error_of_result = attribute_error
translate_error e = if is_transport e || is_http e then wrap_error e else e

module _ (tenacity : Tenacity) {W A : Type 0} where
  unfoldable pub execute : Option ℕ → Effect W Exception A → Effect W Exception A
  execute num_retries request =
      catch (Tenacity.run tenacity W A (get_api_retryer num_retries) request)
        (λ e. throw (translate_error e))
