-- ===== src/Io.antt =====
-- include/portio.h and the volatile accesses to device registers, as events of a state's history;
-- and words of memory that the kernel reads and writes through the direct map.
use modos.Base.{ℕ, none, some, ◌==◌, if◌then◌else◌, u8, u16, u32, ◌∷◌}
use modos.Str.Words
use modos.Machine.{Event, Devices}
use modos.Fs.{M}

unfoldable pub write_8 : ℕ → ℕ → M (Unit {0})
write_8 port value w =
    some (tt, record w { trace = Event.port_out (u16 port) (u8 value) ∷ w.trace })

unfoldable pub read_8 : Devices → ℕ → M ℕ
read_8 devices port w =
    some (
      u8 (devices.port w.trace (u16 port)),
      record w { trace = Event.port_in (u16 port) ∷ w.trace },
    )

-- A store and a load of a uint32_t.
unfoldable pub store_reg : ℕ → ℕ → M (Unit {0})
store_reg a v w = some (tt, record w { trace = Event.reg_store a v ∷ w.trace })

unfoldable pub load_reg : Devices → ℕ → M ℕ
load_reg devices a w =
    some (u32 (devices.register w.trace a), record w { trace = Event.reg_load a ∷ w.trace })

-- Loads of 8, 16, 32 and 64 bits and stores of 32 and 64; NULL faults.
unfoldable pub load_8 : ℕ → M ℕ
load_8 p w = if p == 0 then none else some (w.mem p, w)

unfoldable pub load_16 : ℕ → M ℕ
load_16 p w = if p == 0 then none else some (Words.load16 w.mem p, w)

unfoldable pub load_32 : ℕ → M ℕ
load_32 p w = if p == 0 then none else some (Words.load32 w.mem p, w)

unfoldable pub load_64 : ℕ → M ℕ
load_64 p w = if p == 0 then none else some (Words.load64 w.mem p, w)

unfoldable pub store_64 : ℕ → ℕ → M (Unit {0})
store_64 p v w = if p == 0 then none else some (tt, record w { mem = Words.store64 p v w.mem })

unfoldable pub store_32 : ℕ → ℕ → M (Unit {0})
store_32 p v w =
    if p == 0 then none else some (tt, record w { mem = Words.store_bytes 4 p v w.mem })
