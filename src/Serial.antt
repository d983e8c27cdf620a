-- ===== src/Serial.antt =====
-- modules/drivers/serial_com/init.c and kernel/seriallog.c: the serial ports, as a character device
-- and as the port of the kernel's log. A loop that waits for a port takes fuel.
pub mod Device
mod Tests
use modos.Base.{
  ℕ, zero, suc, ◌+◌, ◌*◌, ◌^◌, ◌%◌, false, some, ltb, ◌==◌, not, if◌then◌else◌, write, has_bit,
  bit_or, Bool, u8,
}
use modos.Machine.{Devices}
use modos.Fs.{World, M, Fops, pure, fault, gets, load_file, load_node, store_byte, ◌>>=◌, ◌>>◌}
use modos.Fs.Chrdev
use modos.Io.{write_8, read_8, load_8}
use modos.Boot.{bda_word}
use modos.Tar.{failed}

-- MAJOR_SERIAL
abbrev pub major_serial : ℕ
major_serial = 10

-- The functions that the driver registers, as numbers.
abbrev pub write_serial_fn : ℕ
write_serial_fn = 1

abbrev pub open_serial_fn : ℕ
open_serial_fn = 2

abbrev pub read_serial_fn : ℕ
read_serial_fn = 3

module _ (devices : Devices) where
  unfoldable pub init_serial_port : (port : ℕ) → M ℕ
  init_serial_port port = do
    write_8 (port + 1) 0x00
    write_8 (port + 3) 0x80
    write_8 (port + 0) 0x03
    write_8 (port + 1) 0x00
    write_8 (port + 3) 0x03
    write_8 (port + 2) 0xC7
    write_8 (port + 4) 0x0B
    write_8 (port + 4) 0x1E
    write_8 (port + 0) 0xAE
    ack_ret ← read_8 devices (port + 0)
    if not (ack_ret == 0xAE) then pure 1 else do write_8 (port + 4) 0x0F; pure 0

  -- `while ((read_8(port + 5) & 1 << bit) == 0);`
  unfoldable pub serial_block : (bit fuel port : ℕ) → M (Unit {0})
  serial_block bit zero port = fault
  serial_block bit (suc fuel) port = do
    status ← read_8 devices (port + 5)
    if has_bit bit status then pure tt else serial_block bit fuel port

  unfoldable pub serial_blockread : (fuel port : ℕ) → M (Unit {0})
  serial_blockread fuel port = serial_block 0 fuel port

  unfoldable pub serial_blockwrite : (fuel port : ℕ) → M (Unit {0})
  serial_blockwrite fuel port = serial_block 5 fuel port

  -- The loops over the bytes of a buffer from byte `i` on.
  unfoldable pub write_bytes : (fuel port buffer left i : ℕ) → M (Unit {0})
  write_bytes fuel port buffer zero i = pure tt
  write_bytes fuel port buffer (suc left) i = do
    serial_blockwrite fuel port
    c ← load_8 (buffer + i)
    write_8 port c
    write_bytes fuel port buffer left (i + 1)

  unfoldable pub read_bytes : (fuel port buffer left i : ℕ) → M (Unit {0})
  read_bytes fuel port buffer zero i = pure tt
  read_bytes fuel port buffer (suc left) i = do
    serial_blockread fuel port
    c ← read_8 devices port
    store_byte (buffer + i) c
    read_bytes fuel port buffer left (i + 1)

  unfoldable pub write_serial : (fuel file buffer len offset : ℕ) → M ℕ
  write_serial fuel file buffer len offset = do
    f ← load_file file
    vnode ← load_node f.vnode
    if ltb 3 vnode.minor
        then pure failed
        else do port_base ← bda_word vnode.minor; write_bytes fuel port_base buffer len 0; pure len

  unfoldable pub read_serial : (fuel file buffer len offset : ℕ) → M ℕ
  read_serial fuel file buffer len offset = do
    f ← load_file file
    vnode ← load_node f.vnode
    if ltb 3 vnode.minor
        then pure failed
        else do port_base ← bda_word vnode.minor; read_bytes fuel port_base buffer len 0; pure len

  -- An int, -1 as the number of an int64_t.
  unfoldable pub open_serial : (node file : ℕ) → M ℕ
  open_serial node file = do
    n ← load_node node
    if ltb 3 n.minor then pure failed else do
      port_base ← bda_word (n.minor * 2)
      if port_base == 0 then pure failed else init_serial_port port_base

  -- kernel/seriallog.c has the same waits for the port in the global serial_port.
  unfoldable pub log_blockread : (fuel : ℕ) → M (Unit {0})
  log_blockread fuel = do serial_port ← gets (λ w. w.serial_port); serial_block 0 fuel serial_port

  unfoldable pub log_blockwrite : (fuel : ℕ) → M (Unit {0})
  log_blockwrite fuel = do serial_port ← gets (λ w. w.serial_port); serial_block 5 fuel serial_port

  unfoldable pub putchar : (fuel c : ℕ) → M (Unit {0})
  putchar fuel c = do
    log_blockwrite fuel
    serial_port ← gets (λ w. w.serial_port)
    write_8 serial_port c

  unfoldable pub puts_from : (fuel str left i : ℕ) → M (Unit {0})
  puts_from fuel str zero i = pure tt
  puts_from fuel str (suc left) i = do
    log_blockwrite fuel
    serial_port ← gets (λ w. w.serial_port)
    c ← load_8 (str + i)
    write_8 serial_port c
    puts_from fuel str left (i + 1)

  unfoldable pub serial_puts : (fuel str len : ℕ) → M (Unit {0})
  serial_puts fuel str len = puts_from fuel str len 0

  -- The test of the port and its setting are those of the driver, with SERIAL_ENABLED at the end.
  unfoldable pub init_serial : M ℕ
  init_serial = do
    serial_port ← gets (λ w. w.serial_port)
    write_8 (serial_port + 1) 0x00
    write_8 (serial_port + 3) 0x80
    write_8 (serial_port + 0) 0x03
    write_8 (serial_port + 1) 0x00
    write_8 (serial_port + 3) 0x03
    write_8 (serial_port + 2) 0xC7
    write_8 (serial_port + 4) 0x0B
    write_8 (serial_port + 4) 0x1E
    write_8 (serial_port + 0) 0xAE
    ack ← read_8 devices (serial_port + 0)
    if not (ack == 0xAE) then pure 1 else do
      write_8 (serial_port + 4) 0x0F
      flags ← gets (λ w. w.state_flags)
      λ w. some (tt, record w { state_flags = bit_or flags 1 })
      pure 0

-- `serial_fops` is the address of the structure on the stack, which register_chrdev copies.
unfoldable pub init_module : (handlers serial_fops : ℕ) → M ℕ
init_module handlers serial_fops = do
  λ w. some (
    tt,
    record w {
      fops_at = write w.fops_at serial_fops (record {
        read = read_serial_fn;
        write = write_serial_fn;
        open_fn = open_serial_fn;
        mkdir = 0;
      });
    },
  )
  ret ← Chrdev.register_chrdev handlers major_serial serial_fops
  pure 0
