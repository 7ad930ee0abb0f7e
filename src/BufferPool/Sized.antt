-- ===== src/BufferPool/Sized.antt =====
-- src/buffer_pool.rs: the size of the buffers.
use rust_whois.Prelude.{
  ℕ, zero, suc, ◌≤◌, ◌<◌, ◌≡◌, ◌⊎◌, refl, sym, ap, List, [], ◌∷◌, ◌++◌, Option, none, some,
  if◌then◌else◌, if_rule, length, All, All-append, subst, arith,
}
use rust_whois.BufferPool.{
  Buffer, ArrayQueue, zeros, resize, truncate, sized, resized, take_buffer, return_buffer,
}

length-zeros : (n : ℕ) → length (zeros n) ≡ n
unfolding zeros
length-zeros zero = refl
length-zeros (suc n) = ap suc (length-zeros n)

length-resize : (n : ℕ) (bytes : List ℕ) → length (resize n bytes) ≡ n
unfolding resize
length-resize zero bytes = refl
length-resize (suc n) [] = length-zeros (suc n)
length-resize (suc n) (b ∷ bytes) = ap suc (length-resize n bytes)

-- A buffer of exactly the size, within its capacity.
abbrev pub HasSize : ℕ → Buffer → Type 0
HasSize buffer_size b = (length b.bytes ≡ buffer_size) × (buffer_size ≤ b.capacity)

sized-HasSize :
    (buffer_size : ℕ) (buf : Option Buffer) → HasSize buffer_size (sized buffer_size buf)
unfolding sized
sized-HasSize n none = (length-zeros n, omega arith)
sized-HasSize n (some buf) =
    let zeroed_length = length-zeros n in
    let resized_length = length-resize n buf.bytes in ground arith

length-truncate : (n : ℕ) (bytes : List ℕ) → length (truncate n bytes) ≤ n
unfolding truncate
length-truncate zero bytes = omega arith
length-truncate (suc n) [] = omega arith
length-truncate (suc n) (b ∷ bytes) = let ih = length-truncate n bytes in omega arith

-- A vector holds no more bytes than its capacity.
abbrev pub IsVec : Buffer → Type 0
IsVec b = length b.bytes ≤ b.capacity

-- A buffer of the pool: a vector, and of exactly the size if it has the capacity for it.
abbrev pub Pooled : ℕ → Buffer → Type 0
Pooled buffer_size b = IsVec b × ((length b.bytes ≡ buffer_size) ⊎ (b.capacity < buffer_size))

resized-Pooled :
    (buffer_size : ℕ) (b : Buffer) → IsVec b → Pooled buffer_size (resized buffer_size b)
unfolding resized
resized-Pooled n b vec =
    let cut = length-truncate n b.bytes in
    let refilled = length-resize n (truncate n b.bytes) in (ground arith, ground arith)

abbrev pub in_front : Option Buffer → List Buffer → List Buffer
in_front none bs = bs
in_front (some b) bs = b ∷ bs

-- What crossbeam documents of an `ArrayQueue`: it is a queue, and never holds more than its capacity.
pub record Bounded (array : ArrayQueue) (capacity : ℕ) : Type 0 where
  pub elements : array.Queue → List Buffer
  pub pop-elements :
      (q : array.Queue) → let (front, q') = array.pop q in elements q ≡ in_front front (elements q')
  pub push-elements :
      (b : Buffer) (q : array.Queue)
      → let (pushed, q') = array.push b q in
        (elements q' ≡ (if pushed then elements q ++ (b ∷ []) else elements q))
  pub length-elements : (q : array.Queue) → length (elements q) ≤ capacity

-- A `PooledBuffer` is made, or one is dropped with its buffer.
pub data Op : Type 0 where
  takes : Op
  gives_back : Buffer → Op

abbrev pub Returned : Op → Type 0
Returned takes = Unit
Returned (gives_back b) = IsVec b

module _ (array : ArrayQueue) (buffer_size : ℕ) where
  -- The buffers that are taken, and the pool in the end.
  unfoldable pub run : List Op → array.Queue → List Buffer × array.Queue
  unfolding take_buffer return_buffer
  run [] q = ([], q)
  run (takes ∷ ops) q =
      let (b, q') = take_buffer array buffer_size q in
      let (taken, last) = run ops q' in (b ∷ taken, last)
  run (gives_back b ∷ ops) q = run ops (return_buffer array buffer_size b q)

  module _ (capacity : ℕ) (bounded : Bounded array capacity) where
    open bounded use {elements, pop-elements, push-elements, length-elements}

    take_buffer-HasSize :
        (q : array.Queue)
        → All (Pooled buffer_size) (elements q)
        → let (b, q') = take_buffer array buffer_size q in
          HasSize buffer_size b × All (Pooled buffer_size) (elements q')
    unfolding take_buffer
    take_buffer-HasSize q held = (
      sized-HasSize buffer_size _,
      behind (array.pop q).0 (elements (array.pop q).1)
          (subst (All (Pooled buffer_size)) (pop-elements q) held),
    )
      where
        behind :
            (front : Option Buffer) (bs : List Buffer)
            → All (Pooled buffer_size) (in_front front bs)
            → All (Pooled buffer_size) bs
        behind none bs all_fit = all_fit
        behind (some b) bs (fits, all_fit) = all_fit

    return_buffer-Pooled :
        (b : Buffer) (q : array.Queue)
        → IsVec b
        → All (Pooled buffer_size) (elements q)
        → All (Pooled buffer_size) (elements (return_buffer array buffer_size b q))
    unfolding return_buffer
    return_buffer-Pooled b q vec held =
        let b' = resized buffer_size b in
        subst (All (Pooled buffer_size)) (sym (push-elements b' q)) (
          if_rule (All (Pooled buffer_size)) (array.push b' q).0 (elements q ++ (b' ∷ []))
            (elements q)
            (λ pushed.
              All-append (Pooled buffer_size) (elements q) (b' ∷ []) held
                (resized-Pooled buffer_size b vec, tt))
            (λ full. held))

    -- Over any sequence of buffers taken and given back, whatever the vectors that are given back:
    -- every buffer taken has exactly the size asked for, within its capacity. Every buffer in the
    -- pool is a vector of that size, or one whose capacity is too small for it, and the pool holds
    -- no more than its capacity, if its buffers were such at the start.
    pub run-HasSize :
        (ops : List Op) (q : array.Queue)
        → All Returned ops
        → All (Pooled buffer_size) (elements q)
        → let (taken, q') = run ops q in
          All (HasSize buffer_size) taken
          × All (Pooled buffer_size) (elements q')
          × (length (elements q') ≤ capacity)
    unfolding run
    run-HasSize [] q returned held = (tt, held, length-elements q)
    run-HasSize (takes ∷ ops) q (unit, returned) held =
        let (fits, held') = take_buffer-HasSize q held in
        let (taken, pooled, bound) = run-HasSize ops _ returned held' in
        ((fits, taken), pooled, bound)
    run-HasSize (gives_back b ∷ ops) q (fits, returned) held =
        run-HasSize ops _ returned (return_buffer-Pooled b q fits held)
