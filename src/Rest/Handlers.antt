-- ===== src/Rest/Handlers.antt =====
-- ers_rest_api/entrypoints/api/exception_handlers.py: the status and the code of the answer to an
-- exception. Starlette takes the handler of the nearest class.
use entity_resolution_servic.Prelude.{ℕ, Bool, true, false, if◌then◌else◌}
use entity_resolution_servic.Effects.{
  Error, pymongo, connection_error, timeout_error, value_error, idempotency_conflict,
  parsing_failed, service_unavailable, resolution_timeout, source_not_found, mention_not_found,
  other_error,
}
use entity_resolution_servic.Rest.Messages.{
  ErrorCode, idempotency_conflict_code, parsing_failed_code, mention_not_found_code,
  source_not_found_code, service_error, service_timeout, application_error_code,
  service_unavailable_code,
}

-- No subclass of ApplicationError or DomainError: what pymongo, asyncio and Python raise.
abbrev pub is_unhandled : Error → Bool
is_unhandled (pymongo e) = true
is_unhandled connection_error = true
is_unhandled timeout_error = true
is_unhandled value_error = true
is_unhandled other_error = true
is_unhandled e = false

unfoldable pub error_answer : Error → ℕ × ErrorCode
error_answer (parsing_failed e) = (400, parsing_failed_code)
error_answer (idempotency_conflict i) = (422, idempotency_conflict_code)
error_answer mention_not_found = (404, mention_not_found_code)
error_answer (source_not_found s) = (404, source_not_found_code)
error_answer resolution_timeout = (504, service_timeout)
error_answer (service_unavailable b) = (503, service_unavailable_code)
error_answer e = if is_unhandled e then (500, service_error) else (400, application_error_code)
