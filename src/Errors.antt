-- ===== src/Errors.antt =====
-- The exceptions that the modelled code raises by itself.
pub data ValueError : Type 0 where
  rate_limit_not_positive : ValueError
  weight_not_positive : ValueError
  division_by_zero : ValueError
