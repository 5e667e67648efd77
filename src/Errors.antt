-- ===== src/Errors.antt =====
-- The exceptions that the modelled code raises, catches or tells apart: googleapiclient's and
-- httplib2's, those of framework/infrastructure/gcp/api.py, iam.py and helpers/retryers.py,
-- kubernetes' NotFound, and Python's own.
use psm_interop.Common.{String, ℕ, Bool, true, false, Option}

-- An httplib2.Response: its `status`, and what `bool(response)` says of it.
pub record Response : Type 0 where
  pub status : ℕ
  pub truthy : Bool

-- What is read of a kubernetes ApiException: the status and `body.lower()`, "" for no body.
pub record ApiError : Type 0 where
  pub status : ℕ
  pub body : String

pub data Exception : Type 0 where
  -- googleapiclient.errors.HttpError, with its field `resp`
  http_error : Response → Exception
  httplib2_error connection_error ssl_error : Exception
  -- gcp.api.ResponseError, with its field `status`
  response_error : Option ℕ → Exception
  -- gcp.api.TransportError, with its field `cause`
  transport_error : Exception → Exception
  -- gcp.api.OperationError, with the code of its field `error`
  operation_error : ℕ → Exception
  etag_conflict : Exception
  -- retryers.RetryError: the last attempt raised this, or returned a value that was refused
  retry_error : Exception → Exception
  retry_error_of_result : Exception
  -- tenacity.RetryError, its base class
  base_retry_error : Exception
  -- NotFound of framework/infrastructure/k8s.py
  not_found : Exception
  -- kubernetes.client.ApiException
  api_exception : ApiError → Exception
  -- utils.FailToCreateError around one exception, and around none or several
  fail_to_create_error : Exception → Exception
  fail_to_create_errors : Exception
  -- urllib3's errors: MaxRetryError with its reason or without, NewConnectionError, ProtocolError with
  -- `str(err).lower()`, and the others
  max_retry_error : Exception → Exception
  max_retry_error_bare new_connection_error urllib3_error : Exception
  protocol_error : String → Exception
  -- kubernetes.dynamic's ResourceNotFoundError
  resource_not_found_error : Exception
  not_implemented_error index_error : Exception
  -- grpc.RpcError, with the number of its status code where it is a grpc.Call
  rpc_error : Option ℕ → Exception
  -- GrpcApp.NotFound of framework/rpc/grpc.py, and the classes of client_app.py that extend it
  app_not_found channel_not_found channel_not_active : Exception
  -- base_runner.RunnerError
  runner_error : Exception
  value_error type_error runtime_error assertion_error key_error attribute_error : Exception

-- A class of exceptions, as its `isinstance` test.
abbrev pub ExceptionClass : Type 0
ExceptionClass = Exception → Bool

abbrev pub any_exception : ExceptionClass
any_exception e = true

abbrev pub is_http_error : ExceptionClass
is_http_error (http_error r) = true
is_http_error _ = false

abbrev pub is_retry_error : ExceptionClass
is_retry_error (retry_error e) = true
is_retry_error retry_error_of_result = true
is_retry_error _ = false

abbrev pub is_etag_conflict : ExceptionClass
is_etag_conflict etag_conflict = true
is_etag_conflict _ = false

abbrev pub is_transport_error : ExceptionClass
is_transport_error (transport_error e) = true
is_transport_error _ = false

-- grpc.RpcError
abbrev pub is_rpc_error : ExceptionClass
is_rpc_error (rpc_error code) = true
is_rpc_error _ = false

-- GrpcApp.NotFound
abbrev pub is_app_not_found : ExceptionClass
is_app_not_found app_not_found = true
is_app_not_found channel_not_found = true
is_app_not_found channel_not_active = true
is_app_not_found _ = false
