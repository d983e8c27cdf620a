-- ===== src/Syscalls/Sample.antt =====
-- What the system calls use from outside, for the tests.
use modos.Fs.{pure}
use modos.Fs.Sample.{sample_calls}
use modos.Syscalls.{Env}

abbrev pub sample_env : Env
sample_env = record {
  calls = sample_calls;
  handlers = 0x9000;
  empty = 0x200;
  load_module = λ file. pure 0;
  modinit = λ entry. pure 0;
  no_return = 0;
}
