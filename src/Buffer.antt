-- ===== src/Buffer.antt =====
-- tarsx/Buffer.h and Buffer.cc: the growing byte buffer of connections and transceivers.
-- A byte is an `Option ℕ`: `none` is the indeterminate value of memory that `new char[n]` returned
-- and nobody wrote. `none` as a result is a fault: a failed `assert`, a `memcpy` outside a block, or
-- a loop that does not end within its fuel.
pub mod Growth
pub mod Inv
pub mod Contents
pub mod Shrink
pub mod Queue
pub mod Tests
use tarsx.Prelude.{
  ℕ, zero, suc, ◌+◌, ◌-◌, ◌*◌, ◌%◌, ◌^◌, Bool, true, false, Option, none, some, List, [], ◌∷◌, ◌++◌,
  ltb, leb, ◌==◌, if◌then◌else◌, length, take, drop, replicate, add64, sub64, mul64, ◌>>=◌, ◌>>◌,
  guard,
}

abbrev pub Byte : Type 0
Byte = Option ℕ

pub record Buffer : Type 0 where
  pub read_pos : ℕ
  pub write_pos : ℕ
  pub capacity : ℕ
  -- `buffer_`; a null pointer is the block of no bytes.
  pub mem : List Byte
  pub high_water_percent : ℕ

unfoldable pub init : Buffer
init = record { read_pos = 0; write_pos = 0; capacity = 0; mem = []; high_water_percent = 50 }

-- `Buffer::MaxBufferSize` and `Buffer::DefaultSize`.
abbrev pub max_buffer_size : ℕ
max_buffer_size = 2 ^ 63 - 1

abbrev pub default_size : ℕ
default_size = 128

-- `memcpy` out of a block and into a block.
unfoldable pub copy_out : List Byte → ℕ → ℕ → Option (List Byte)
copy_out mem pos n = if leb (pos + n) (length mem) then some (take n (drop pos mem)) else none

unfoldable pub copy_in : List Byte → ℕ → List Byte → Option (List Byte)
copy_in mem pos bytes =
    if leb (pos + length bytes) (length mem)
    then some (take pos mem ++ (bytes ++ drop (pos + length bytes) mem))
    else none

-- The loop of `detail::roundUp2Power`; for a size past `2 ^ 63` it does not end.
unfoldable pub round_up_loop : ℕ → ℕ → ℕ → Option ℕ
round_up_loop zero size r = none
round_up_loop (suc f) size r =
    let rest = round_up_loop f size (mul64 r 2) in if ltb r size then rest else some r

unfoldable pub round_up_2_power : ℕ → Option ℕ
round_up_2_power size = if size == 0 then some 0 else round_up_loop 65 size 1

unfoldable pub readable_size : Buffer → ℕ
readable_size b = sub64 b.write_pos b.read_pos

unfoldable pub writable_size : Buffer → ℕ
writable_size b = sub64 b.capacity b.write_pos

unfoldable pub empty : Buffer → Bool
unfolding readable_size
empty b = readable_size b == 0

unfoldable pub produce : Buffer → ℕ → Buffer
produce b bytes = record b { write_pos = add64 b.write_pos bytes }

unfoldable pub clear : Buffer → Buffer
clear b = record b { read_pos = 0; write_pos = 0 }

unfoldable pub reset_buffer : Buffer → List Byte → Buffer
reset_buffer b ptr = record b { mem = ptr }

unfoldable pub consume : Buffer → ℕ → Option Buffer
consume b bytes = do
  guard (leb (add64 b.read_pos bytes) b.write_pos)
  let b' = record b { read_pos = add64 b.read_pos bytes }
  some (if empty b' then clear b' else b')

-- The capacity that one round of the loop in `assureSpace` turns to.
unfoldable pub next_capacity : ℕ → Option ℕ
next_capacity c =
    if ltb c default_size
    then some default_size
    else if leb c max_buffer_size
    then (do k ← round_up_2_power c; some (if ltb c k then k else mul64 k 2))
    else none

-- `while (writableSize() + readPos_ < needsize)`.
unfoldable pub grow : ℕ → ℕ → ℕ → ℕ → ℕ → Option ℕ
grow zero read write need c = none
grow (suc f) read write need c =
    let rest = next_capacity c >>= grow f read write need in
    if ltb (add64 (sub64 c write) read) need then rest else some c

-- The move to a larger block, or to the front of the same one.
unfoldable pub relocate : Buffer → ℕ → Option Buffer
relocate b c =
    if ltb b.capacity c
    then (do
      bytes ←
          (if readable_size b == 0 then some [] else copy_out b.mem b.read_pos (readable_size b))
      tmp ← copy_in (replicate c none) 0 bytes
      some (reset_buffer (record b { capacity = c }) tmp))
    else (do
      guard (ltb 0 b.read_pos)
      bytes ← copy_out b.mem b.read_pos (readable_size b)
      moved ← copy_in b.mem 0 bytes
      some (record b { mem = moved }))

unfoldable pub assure_space : Buffer → ℕ → Option Buffer
assure_space b needsize = if leb needsize (writable_size b) then some b else (do
  c ← grow 64 b.read_pos b.write_pos needsize b.capacity
  moved ← relocate b c
  let b' = record moved { read_pos = 0; write_pos = readable_size b }
  guard (leb needsize (writable_size b'))
  some b')

-- `none` inside is a null `data`.
unfoldable pub push_data : Buffer → Option (List Byte) → Option (ℕ × Buffer)
push_data b none = some (0, b)
push_data b (some bytes) =
    if length bytes == 0
    then some (0, b)
    else if leb max_buffer_size (add64 (readable_size b) (length bytes))
    then some (0, b)
    else (do
      b' ← assure_space b (length bytes)
      mem ← copy_in b'.mem b'.write_pos bytes
      some (length bytes, produce (record b' { mem = mem }) (length bytes)))

-- What is copied to `buf` and its length, `readable_size` at most; the test of a null `buf` is the
-- first argument.
unfoldable pub pop_data : Bool → Buffer → ℕ → Option (List Byte × Buffer)
pop_data is_null b size =
    if is_null
    then some ([], b)
    else if size == 0
    then some ([], b)
    else if readable_size b == 0
    then some ([], b)
    else (do
      let n = if ltb (readable_size b) size then readable_size b else size
      bytes ← copy_out b.mem b.read_pos n
      b' ← consume b n
      some (bytes, b'))

-- `peekData`: the readable bytes, and their number.
unfoldable pub peek_data : Buffer → Option (List Byte)
peek_data b = copy_out b.mem b.read_pos (readable_size b)

unfoldable pub shrink : Buffer → Option Buffer
shrink b =
    if empty b
    then some (reset_buffer (record (clear b) { capacity = 0 }) [])
    else if leb b.capacity default_size
    then some b
    else if ltb (mul64 b.capacity b.high_water_percent) (mul64 (readable_size b) 100)
    then some b
    else (do
      newcap ← round_up_2_power (readable_size b)
      bytes ← copy_out b.mem b.read_pos (readable_size b)
      tmp ← copy_in (replicate newcap none) 0 bytes
      some (record (reset_buffer b tmp) {
        capacity = newcap;
        read_pos = 0;
        write_pos = readable_size b;
      }))

-- `swap` leaves `highWaterPercent_` with its buffer.
unfoldable pub swap : Buffer → Buffer → Buffer × Buffer
swap a b = (
  record b { high_water_percent = a.high_water_percent },
  record a { high_water_percent = b.high_water_percent },
)
