-- ===== src/Effects/Exceptions.antt =====
-- The exceptions that the code tells apart. Each constructor stands for a class with its subclasses.
use coda_self_service.Prelude.{ℕ, String, Bool, true, false}

pub data Exc : Type 0 where
  -- builtins.ConnectionError, other OSErrors, redis ConnectionError
  connection_error : Exc
  -- TimeoutError, a subclass of OSError
  timeout_error : Exc
  -- FileNotFoundError, PermissionError and ProcessLookupError, subclasses of OSError
  file_not_found permission_error process_lookup_error : Exc
  -- ModuleNotFoundError
  module_not_found : Exc
  -- subprocess.TimeoutExpired, no OSError
  timeout_expired : Exc
  -- asyncio.CancelledError: a BaseException, no Exception
  cancelled_error : Exc
  -- consumer.py, _JobCancelledWhileExecuting
  job_cancelled : Exc
  -- OverflowError of float arithmetic
  overflow_error : Exc
  -- httpx.HTTPStatusError with its status code, httpx.TransportError
  http_status : ℕ → Exc
  transport_error : Exc
  -- redis ResponseError with its text
  response_error : String → Exc
  -- errors.py, and the built-in errors that the code raises itself
  node_error config_error executor_error heartbeat_rejected value_error runtime_error : String → Exc
  -- qasm.py, QASMConversionError
  qasm_error : String → Exc
  -- any other Exception
  other_error : String → Exc

-- `except (ConnectionError, OSError, aioredis.ConnectionError)`
abbrev pub is_connection : Exc → Bool
is_connection connection_error = true
is_connection timeout_error = true
is_connection file_not_found = true
is_connection permission_error = true
is_connection process_lookup_error = true
is_connection _ = false

-- `except Exception`
abbrev pub is_exception : Exc → Bool
is_exception cancelled_error = false
is_exception _ = true
