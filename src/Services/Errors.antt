-- ===== src/Services/Errors.antt =====
-- The business errors of backend/app/core/errors.py that the services raise.
-- `NotFoundError`, `ConflictError`, `InvalidStateError` and `BusinessValidationError`.
pub data ServiceError : Type 0 where
  missing conflict invalid_state bad_request : ServiceError
