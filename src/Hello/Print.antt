-- ===== src/Hello/Print.antt =====
-- guest/hello/uart.c: what the guest prints and echoes goes through the port.
use mvmm.Base.{List}
use mvmm.Uart.{dr, fr_txff}
use mvmm.Uart
