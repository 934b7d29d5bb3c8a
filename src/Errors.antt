-- ===== src/Errors.antt =====
-- The exception classes of mutation_placement.py and mutation_scope.py. Messages are left out.
pub data Error : Type 0 where
  value_error : Error
  placement_unavailable : Error
  binding_mismatch : Error
  scope_conflict : Error
  not_current : Error
  corrupt : Error
  operation_not_allowed : Error
  terminalization_failed : Error
  still_active : Error
  residual_authority : Error
