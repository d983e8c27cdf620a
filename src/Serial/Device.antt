-- ===== src/Serial/Device.antt =====
-- modules/drivers/serial_com/init.c: the bytes that a port is sent.
use modos.Base.{
  ℕ, zero, suc, ◌+◌, ◌<◌, ◌≡◌, ◌≢◌, refl, sym, ap, ◌∙◌, arith, true, Bool-cases, ◌==◌,
  if◌then◌else◌, List, [], ◌∷◌, ◌++◌, some, has_bit, u8, u16, ne→==, eq→==, le→ltb, inl, inr,
}
use modos.Str.{Memory}
use modos.Machine.{Event, Devices}
use modos.Fs.{World}
use modos.Io.{load_8, load_16, read_8, write_8}
use modos.Serial.{serial_block, serial_blockwrite, write_bytes, write_serial}
use modos.Mm.Layout.{p2v}
use modos.Str.Words.{load16}
use modos.Boot.{bda_word}
use modos.Fs.Access.{load_file_lem, load_node_lem}
use mathlib.Core.List.{append-nil, append_assoc}

-- A history with `k` more reads of a port.
abbrev pub polled : ℕ → ℕ → List Event → List Event
polled port zero h = h
polled port (suc k) h = polled port k (Event.port_in port ∷ h)

-- After every history, one of fewer than `fuel` reads of the status finds its bit set.
pub record IsReady (devices : Devices) (bit fuel status : ℕ) : Type 0 where
  pub soon :
      (h : List Event)
      → (k : ℕ) × (k < fuel) × (has_bit bit (u8 (devices.port (polled status k h) status)) ≡ true)

-- The bytes that a port was sent, the first one first.
abbrev pub sent : ℕ → List Event → List ℕ
sent port [] = []
sent port (Event.port_out p v ∷ h) = if p == port then sent port h ++ v ∷ [] else sent port h
sent port (Event.port_in p ∷ h) = sent port h
sent port (Event.reg_store a v ∷ h) = sent port h
sent port (Event.reg_load a ∷ h) = sent port h

sent-polled : (port status k : ℕ) (h : List Event) → sent port (polled status k h) ≡ sent port h
sent-polled port status zero h = refl
sent-polled port status (suc k) h = sent-polled port status k (Event.port_in status ∷ h)

-- A wait ends once the status has its bit set, and only reads the status.
serial_block_lem :
    (devices : Devices) (bit fuel port k : ℕ) (w : World)
    → k < fuel
    → has_bit bit (u8 (devices.port (polled (u16 (port + 5)) k w.trace) (u16 (port + 5)))) ≡ true
    → (n : ℕ) × (serial_block devices bit fuel port w
        ≡ some (tt, record w { trace = polled (u16 (port + 5)) n w.trace }))
unfolding serial_block read_8
serial_block_lem devices bit zero port k w a h = absurd (omega arith)
serial_block_lem devices bit (suc fuel) port zero w a h = (1, rw h refl)
serial_block_lem devices bit (suc fuel) port (suc k) w a h =
    let at = u16 (port + 5) in
    elim (Bool-cases (has_bit bit (u8 (devices.port w.trace at)))) [
      | inl set ↦ (1, rw set refl)
      | inr unset ↦
          let w1 : World = record w { trace = Event.port_in at ∷ w.trace } in
          let (n, run) = serial_block_lem devices bit fuel port k w1 (omega arith) h in
          (suc n, rw unset run)
    ]

-- `len` bytes of memory.
abbrev pub bytes_at : Memory → ℕ → ℕ → List ℕ
bytes_at mem p zero = []
bytes_at mem p (suc len) = u8 (mem p) ∷ bytes_at mem (p + 1) len

module _ (devices : Devices) (fuel port buffer : ℕ) (given : buffer ≢ 0) where
  write_bytes_lem :
      (left i : ℕ) (w : World)
      → IsReady devices 5 fuel (u16 (port + 5))
      → (h : List Event) × (write_bytes devices fuel port buffer left i w
          ≡ some (tt, record w { trace = h }))
        × (sent (u16 port) h ≡ sent (u16 port) w.trace ++ bytes_at w.mem (buffer + i) left)
  unfolding write_bytes serial_blockwrite load_8 write_8
  write_bytes_lem zero i w ready = (w.trace, refl, sym (append-nil (sent (u16 port) w.trace)))
  write_bytes_lem (suc left) i w ready =
      let (k, a, set) = ready.soon w.trace in
      let (n, waited) = serial_block_lem devices 5 fuel port k w a set in
      let c = u8 (w.mem (buffer + i)) in
      let h1 = Event.port_out (u16 port) c ∷ polled (u16 (port + 5)) n w.trace in
      let (h, run, out) = write_bytes_lem left (i + 1) (record w { trace = h1 }) ready in
      let next : buffer + (i + 1) ≡ buffer + i + 1 = omega arith in
      (
        h,
        rw (waited, ne→== (buffer + i) 0 (omega (arith, given))) run,
        out
            ∙ ap (λ p. sent (u16 port) h1 ++ bytes_at w.mem p left) next
            ∙ rw
                (
                  eq→== (u16 port) (u16 port) refl,
                  sent-polled (u16 port) (u16 (port + 5)) n w.trace,
                )
                (append_assoc (sent (u16 port) w.trace) (c ∷ []) _),
      )

-- A file of a serial port, by its minor number.
pub record IsSerial (w : World) (file : ℕ) : Type 0 where
  pub given : file ≢ 0
  pub vnode : (w.files file).vnode ≢ 0
  pub minor : (w.nodes (w.files file).vnode).minor < 4

-- The port of a file: the word of the BIOS data that write_serial reads.
abbrev pub port_of : World → ℕ → ℕ
port_of w file = load16 w.mem (p2v (0x400 + (w.nodes (w.files file).vnode).minor))

-- For a file of a serial port and a buffer that is not NULL, when the port always gets ready to be
-- sent a byte within `fuel` reads of its status: write_serial returns the length,
-- has sent the port the bytes of the buffer in their order behind what the port was sent before,
-- and changes nothing but the history of events.
pub write_serial-sent :
    (devices : Devices) (fuel file buffer len offset : ℕ) (w : World)
    → buffer ≢ 0
    → IsSerial w file
    → IsReady devices 5 fuel (u16 (port_of w file + 5))
    → (h : List Event) × (write_serial devices fuel file buffer len offset w
        ≡ some (len, record w { trace = h }))
      × (sent (u16 (port_of w file)) h
          ≡ sent (u16 (port_of w file)) w.trace ++ bytes_at w.mem buffer len)
unfolding write_serial bda_word load_16
write_serial-sent devices fuel file buffer len offset w given s ready =
    let minor = (w.nodes (w.files file).vnode).minor in
    let port = port_of w file in
    let (h, run, out) = write_bytes_lem devices fuel port buffer given len 0 w ready in
    let here : buffer + 0 ≡ buffer = omega arith in
    (
      h,
      rw
          (
            load_file_lem file s.given w,
            load_node_lem (w.files file).vnode s.vnode w,
            le→ltb 3 minor (omega (arith, s.minor)),
            ne→== (p2v (0x400 + minor)) 0 (omega (arith, s.minor)),
            run,
          )
          refl,
      out ∙ ap (λ p. sent (u16 port) w.trace ++ bytes_at w.mem p len) here,
    )
