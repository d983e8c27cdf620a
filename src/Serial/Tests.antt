-- ===== src/Serial/Tests.antt =====
-- A port that is always ready, and an instance of the theorem on the bytes it is sent.
use modos.Base.{◌≡◌, refl, arith, List, [], ◌∷◌, some, u16, write}
use modos.Machine.{Event, Devices}
use modos.Fs.{World}
use modos.Fs.Sample.{sample}
use modos.Serial.{write_serial}
use modos.Serial.Device.{sent, port_of, write_serial-sent}

abbrev ready_ports : Devices
ready_ports = record { port = λ h p. 0x20; register = λ h a. 0 }

-- Every file is that of the first serial port, 0x3F8, and all other bytes are 0x41.
abbrev with_port : World
with_port = record sample {
  mem = write (write (λ a. 0x41) 0xFFFF_8000_0000_0400 0xF8) 0xFFFF_8000_0000_0401 3;
  files = λ p. record { vnode = 0x10; mountpoint = 0 };
}

write_serial-sent_example :
    (h : List Event) × (write_serial ready_ports 1 0x20 0x100 2 0 with_port
      ≡ some (2, record with_port { trace = h }))
    × (sent (u16 (port_of with_port 0x20)) h ≡ 0x41 ∷ 0x41 ∷ [])
write_serial-sent_example =
    write_serial-sent ready_ports 1 0x20 0x100 2 0 with_port (omega arith)
      (record { given = omega arith; vnode = omega arith; minor = omega arith })
      (record { soon = λ h. (0, omega arith, refl) })
