-- ===== src/RingBuffer.antt =====
-- The fixed-size ring buffer of src/include/kernel/ring_buffer.h, which the keyboard driver uses.
--
-- The macro is generic in the type of the entries and in the value `init` for a missing one. The
-- buffer is a map from indices to entries. All bytes of `init` are the same, as in the -1 of the
-- keyboard driver, so that filling the buffer byte by byte fills the entries.
pub mod Items
pub mod Laws
mod Tests
use hos.Base.{
  store, ℕ, zero, suc, ◌+◌, ◌-◌, Bool, true, false, ltb, leb, ◌==◌, if◌then◌else◌, List, [], ◌∷◌,
  ◌++◌,
}

pub record Ring (A : Type 0) : Type 0 where
  pub size : ℕ
  pub read : ℕ
  pub write : ℕ
  pub buffer : ℕ → A

abbrev pub step : ℕ → ℕ → ℕ
step size index = if index == (size - 1) then 0 else index + 1

module _ {A : Type 0} where
  pub init_ring : ℕ → A → Ring A
  init_ring length init = record { size = length; read = 0; write = 0; buffer = λ i. init }

  pub push_front : Ring A → A → Ring A
  push_front rb item = record rb {
    read = if step rb.size rb.write == rb.read then step rb.size rb.read else rb.read;
    buffer = store rb.buffer rb.write item;
    write = step rb.size rb.write;
  }

  pub empty : Ring A → Bool
  empty rb = rb.write == rb.read

  pub pop_back : Ring A → A → A × Ring A
  pop_back rb init =
      if empty rb
      then (init, rb)
      else (rb.buffer rb.read, record rb { read = step rb.size rb.read })

  -- The index of the entry written last.
  abbrev pub last : Ring A → ℕ
  last rb = if ltb 0 rb.write then rb.write - 1 else rb.size - 1

  pub pop_front : Ring A → A → A × Ring A
  pop_front rb init =
      if empty rb then (init, rb) else (rb.buffer (last rb), record rb { write = last rb })

  pub get : Ring A → ℕ → A → A
  get rb index init = if ltb index rb.size then rb.buffer index else init

  pub back : Ring A → A → A
  back rb init = if empty rb then init else rb.buffer rb.read

  pub front : Ring A → A → A
  front rb init = if empty rb then init else rb.buffer (last rb)
