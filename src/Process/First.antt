-- ===== src/Process/First.antt =====
-- src/process.c: what the list is when the first process has been added.
use pygmali_os.Process.{Process}
use pygmali_os.Process.Ring.{Ring}
