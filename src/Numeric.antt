-- ===== src/Numeric.antt =====
-- The two kinds of number that the program takes from elsewhere: the decimals of shopspring/decimal,
-- a third-party package, and Go's float64. Both are parameters of the development.
pub mod Decimal
pub mod Float
pub mod Fixed
