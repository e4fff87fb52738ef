-- ===== src/Scanner/Least.antt =====
-- internal/liquidation/scanner/scanner.go: the position that MostDangerous returns.
use defi_demo.Base.{nat_eq}
use defi_demo.Positions.{Scanner}
