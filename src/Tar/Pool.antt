-- ===== src/Tar/Pool.antt =====
-- tar/bufferpool.go: goroutines that take buffers from a channel and give them back, in any order.
-- Goroutines are counted by where they are.
use hackpadfs.Base.{
  ℕ, ◌+◌, ◌-◌, ◌≤◌, ◌<◌, not, ◌&&◌, Option, none, some, ◌≡◌, ◌⊎◌, refl, arith, ltb, ◌==◌,
  if◌then◌else◌, Bool-cases, inl, inr,
}

-- bufferPool: the field count, the channel's capacity and how many buffers are in it; and how
-- many goroutines are in addBuffer before the swap, before the send, at the last receive of Wait,
-- and between Wait and Done.
pub record Pool : Type 0 where
  pub count : ℕ
  pub capacity : ℕ
  pub ready : ℕ
  pub adding : ℕ
  pub sending : ℕ
  pub receiving : ℕ
  pub holding : ℕ

-- newBufferPool, which adds a buffer before anyone waits.
unfoldable pub new_buffer_pool : ℕ → Pool
new_buffer_pool max_buffers = record {
  count = 1;
  capacity = if max_buffers == 0 then 1 else max_buffers;
  ready = 1;
  adding = 0;
  sending = 0;
  receiving = 0;
  holding = 0;
}

-- Wait: a buffer that is ready is taken; without one addBuffer is called.
unfoldable pub wait : Pool → Option Pool
wait p =
    if ltb 0 p.ready
    then some (record p { ready = p.ready - 1; holding = p.holding + 1 })
    else some (record p { adding = p.adding + 1 })

-- addBuffer up to the swap: the pool is full, or a slot is taken. A count that has changed since
-- it was loaded is loaded again.
unfoldable pub add_slot : Pool → Option Pool
add_slot p =
    if not (ltb 0 p.adding)
    then none
    else if p.count == p.capacity
    then some (record p { adding = p.adding - 1; receiving = p.receiving + 1 })
    else some (record p { count = p.count + 1; adding = p.adding - 1; sending = p.sending + 1 })

-- p.buffers <- buf of addBuffer, which waits while the channel is full.
unfoldable pub send : Pool → Option Pool
send p =
    if ltb 0 p.sending && ltb p.ready p.capacity
    then some
        (record p { ready = p.ready + 1; sending = p.sending - 1; receiving = p.receiving + 1 })
    else none

-- <-p.buffers at the end of Wait.
unfoldable pub receive : Pool → Option Pool
receive p =
    if ltb 0 p.receiving && ltb 0 p.ready
    then some
        (record p { ready = p.ready - 1; receiving = p.receiving - 1; holding = p.holding + 1 })
    else none

-- Done
unfoldable pub done : Pool → Option Pool
done p =
    if ltb 0 p.holding && ltb p.ready p.capacity
    then some (record p { ready = p.ready + 1; holding = p.holding - 1 })
    else none

pub data Step (p q : Pool) : Type 0 where
  waits : wait p ≡ some q → Step p q
  adds : add_slot p ≡ some q → Step p q
  sends : send p ≡ some q → Step p q
  receives : receive p ≡ some q → Step p q
  gives_back : done p ≡ some q → Step p q

pub data Reach (max_buffers : ℕ) : Pool → Type 0 where
  here : Reach max_buffers (new_buffer_pool max_buffers)
  next : {p q : Pool} → Reach max_buffers p → Step p q → Reach max_buffers q

-- Every buffer that was made is ready, about to be, or held.
record Inv (max_buffers : ℕ) (p : Pool) : Type 0 where
  capacity : p.capacity ≡ (if max_buffers == 0 then 1 else max_buffers)
  made : p.count ≡ p.ready + p.sending + p.holding
  bound : p.count ≤ p.capacity
  some_made : 0 < p.count

Inv-new : (max_buffers : ℕ) → Inv max_buffers (new_buffer_pool max_buffers)
unfolding new_buffer_pool
Inv-new max_buffers = record {
  capacity = refl;
  made = refl;
  bound = ground arith;
  some_made = omega arith;
}

module _ {max_buffers : ℕ} {p q : Pool} where
  Step-Inv : Step p q → Inv max_buffers p → Inv max_buffers q
  unfolding wait add_slot send receive done
  Step-Inv (waits e) v = ground arith
  Step-Inv (adds e) v = ground arith
  Step-Inv (sends e) v = ground arith
  Step-Inv (receives e) v = ground arith
  Step-Inv (gives_back e) v = ground arith

Reach-Inv : {max_buffers : ℕ} {p : Pool} → Reach max_buffers p → Inv max_buffers p
Reach-Inv {max_buffers} here = Inv-new max_buffers
Reach-Inv (next r st) = Step-Inv st (Reach-Inv r)

module _ {max_buffers : ℕ} {p : Pool} (r : Reach max_buffers p) where
  inv : Inv max_buffers p
  inv = Reach-Inv r

  -- In every state that is reached there are at most as many buffers, ready, on their way or held,
  -- as newBufferPool was asked for, or one where it was asked for none.
  pub buffers-le : p.ready + p.sending + p.holding ≤ (if max_buffers == 0 then 1 else max_buffers)
  buffers-le = omega (arith, inv.made, inv.bound, inv.capacity)

  -- In every state that is reached, Done of a buffer that is held returns at once: the channel has
  -- room.
  done_returns : 0 < p.holding → (q : Pool) × (done p ≡ some q)
  unfolding done
  done_returns held = (
    record p { ready = p.ready + 1; holding = p.holding - 1 },
    ground (arith, inv.made, inv.bound),
  )

  send_returns : 0 < p.sending → (q : Pool) × (send p ≡ some q)
  unfolding send
  send_returns added = (
    record p { ready = p.ready + 1; sending = p.sending - 1; receiving = p.receiving + 1 },
    ground (arith, inv.made, inv.bound),
  )

  -- In every state that is reached, a goroutine at the last receive of Wait gets a buffer at once,
  -- or some buffer is held, and its Done returns at once, or is about to be sent, and its send
  -- does.
  pub receive_waits :
      0 < p.receiving
      → ((q : Pool) × (receive p ≡ some q))
        ⊎ ((q : Pool) × (done p ≡ some q))
        ⊎ ((q : Pool) × (send p ≡ some q))
  unfolding receive
  receive_waits waiting = elim (Bool-cases (ltb 0 p.ready)) [
    | inl is ↦ inl (
      record p { ready = p.ready - 1; receiving = p.receiving - 1; holding = p.holding + 1 },
      ground arith,
    )
    | inr none_ready ↦ elim (Bool-cases (ltb 0 p.holding)) [
      | inl held ↦ inr (inl (done_returns (ground arith)))
      | inr free ↦ inr (inr (send_returns (ground (arith, inv.made, inv.some_made))))
    ]
  ]
