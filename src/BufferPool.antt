-- ===== src/BufferPool.antt =====
-- src/buffer_pool.rs. The queue of the crate crossbeam is a parameter; a vector is its capacity and
-- its bytes.
pub mod Sized
use rust_whois.Prelude.{
  ℕ, zero, suc, ◌-◌, Bool, true, false, List, [], ◌∷◌, ◌++◌, Option, none, some, if◌then◌else◌, leb,
  ltb, length,
}

pub record Buffer : Type 0 where
  pub capacity : ℕ
  pub bytes : List ℕ

-- `ArrayQueue<Vec<u8>>`: `pop`, and `push`, which is refused where the queue is full.
pub record ArrayQueue : Type 1 where
  pub Queue : Type 0
  pub pop : Queue → Option Buffer × Queue
  pub push : Buffer → Queue → Bool × Queue

unfoldable pub zeros : ℕ → List ℕ
zeros zero = []
zeros (suc n) = 0 ∷ zeros n

-- `buf.resize(n, 0)` and `buf.truncate(n)` on the bytes
unfoldable pub resize : ℕ → List ℕ → List ℕ
unfolding zeros
resize zero bytes = []
resize (suc n) [] = zeros (suc n)
resize (suc n) (b ∷ bytes) = b ∷ resize n bytes

unfoldable pub truncate : ℕ → List ℕ → List ℕ
truncate zero bytes = []
truncate (suc n) [] = []
truncate (suc n) (b ∷ bytes) = b ∷ truncate n bytes

-- `vec![0; n]`
abbrev pub zeroed : ℕ → Buffer
zeroed n = record { capacity = n; bytes = zeros n }

-- The buffer of a new `PooledBuffer`, from what the pool gives.
unfoldable pub sized : ℕ → Option Buffer → Buffer
unfolding zeros resize
sized buffer_size none = zeroed buffer_size
sized buffer_size (some buf) =
    if leb buffer_size buf.capacity
    then record buf { bytes = resize buffer_size buf.bytes }
    else zeroed buffer_size

-- What `drop` makes of the buffer.
unfoldable pub resized : ℕ → Buffer → Buffer
unfolding resize truncate
resized buffer_size buffer =
    if leb buffer_size buffer.capacity
    then (let cut = truncate buffer_size buffer.bytes in
        record buffer {
          bytes = if ltb (length cut) buffer_size then resize buffer_size cut else cut;
        })
    else buffer

module _ (array : ArrayQueue) where
  open array use {Queue, pop, push}

  -- `PooledBuffer::new`
  unfoldable pub take_buffer : ℕ → Queue → Buffer × Queue
  unfolding sized
  take_buffer buffer_size pool = let (buf, pool') = pop pool in (sized buffer_size buf, pool')

  -- `drop`; a refused buffer is freed.
  unfoldable pub return_buffer : ℕ → Buffer → Queue → Queue
  unfolding resized
  return_buffer buffer_size buffer pool =
      let (pushed, pool') = push (resized buffer_size buffer) pool in pool'
