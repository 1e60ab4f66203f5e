-- ===== src/Elf/Starting.antt =====
-- A program that is started, from its file on.
use dionysus.Prelude.Str.{Str}
