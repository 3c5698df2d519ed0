-- ===== src/Devices/Accel.antt =====
-- The accelerometer on the SSU: an address byte, then data. Its memory has 29 bytes, and the source
-- does not check the index.
use pokestroller.Base.{ℕ, ◌+◌, ◌%◌, ltb, update, if◌then◌else◌}
use pokestroller.Machine.{Accelerometer, AccelState, Walker, Outcome, ok, undefined, peek, poke}
use pokestroller.Devices.Status.{ssrdr, sstdr, rdrf, tdre, tend, raise}

-- `sizeof(accelStorage)`
abbrev pub accel_size : ℕ
accel_size = 29

abbrev with_accel : Walker → Accelerometer → Walker
with_accel w x = record w { accel = x }

-- Transmission and reception.
unfoldable pub accel_receive_in : AccelState → Walker → Outcome
accel_receive_in AccelState.getting_address w =
    let x = w.accel in
    ok (
      raise rdrf (
        with_accel w
          (record x { address = peek w sstdr % 16; offset = 0; state = AccelState.getting_bytes })))
accel_receive_in AccelState.getting_bytes w =
    let x = w.accel in
    let index = x.address + x.offset in
    let w1 =
      with_accel (poke w ssrdr (x.memory index)) (record x { offset = (x.offset + 1) % 256 }) in
    if ltb index accel_size then ok (raise tend (raise tdre (raise rdrf w1))) else undefined

unfoldable pub accel_receive : Walker → Outcome
unfolding accel_receive_in
accel_receive w = accel_receive_in w.accel.state w

-- Transmission alone.
unfoldable pub accel_transmit_in : AccelState → Walker → Outcome
accel_transmit_in AccelState.getting_address w =
    let x = w.accel in
    ok (
      raise rdrf
        (with_accel w (record x { address = peek w sstdr; state = AccelState.getting_bytes })))
accel_transmit_in AccelState.getting_bytes w =
    let x = w.accel in
    let w1 = with_accel w (record x { memory = update x.memory x.address (peek w sstdr) }) in
    if ltb x.address accel_size then ok (raise tend (raise tdre (raise rdrf w1))) else undefined

unfoldable pub accel_transmit : Walker → Outcome
unfolding accel_transmit_in
accel_transmit w = accel_transmit_in w.accel.state w
