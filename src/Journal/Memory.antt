-- ===== src/Journal/Memory.antt =====
-- src/journal.rs: the buffers at their addresses, the two ends that share them, and commands.
-- Addresses are handed out in rising order and never again; address 0 is the null pointer. Sender
-- and receiver run one whole operation at a time here.
use mo_gc.Common.{ℕ, suc, ◌≡◌, Bool, false, Option, none, some, ◌==◌, if◌then◌else◌, ==_refl}

abbrev pub Ptr : Type 0
Ptr = ℕ

-- `Buffer<T>`. A slot of `data` that was never written holds `none`. `item_size` is `size_of::<T>()`,
-- the same for all buffers of a journal, `allocated` the number of bytes of `data`.
pub record Buffer {ℓ} (A : Type ℓ) : Type ℓ where
  pub slots : ℕ → Option A
  pub capacity : ℕ
  pub item_size : ℕ
  pub allocated : ℕ
  pub head : ℕ
  pub tail : ℕ
  pub tail_max : ℕ
  pub next : Ptr

-- `BufferQueue<T>` with the memory that its pointers lead to; `brk` is the next unused address.
pub record BufferQueue {ℓ} (A : Type ℓ) : Type ℓ where
  pub cell : Ptr → Option (Buffer A)
  pub brk : Ptr
  pub head : Ptr
  pub tail : Ptr
  pub hup : Bool

-- A fault is a read or write through a dangling pointer, outside of a buffer or of a slot that was
-- never written.
pub data Run {ℓ κ} (A : Type ℓ) (B : Type κ) : Type (ℓ ⊔ κ) where
  ok : B → BufferQueue A → Run A B
  fault : Run A B
  out_of_fuel : Run A B

abbrev pub Cmd {ℓ κ} : Type ℓ → Type κ → Type (ℓ ⊔ κ)
Cmd A B = BufferQueue A → Run A B

module _ {ℓ} {A : Type ℓ} where
  abbrev pub pure {κ} : {B : Type κ} → B → Cmd A B
  pure b s = ok b s

  abbrev pub and_then {κ μ} : {B : Type κ} {C : Type μ} → Run A B → (B → Cmd A C) → Run A C
  and_then (ok b s) k = k b s
  and_then fault k = fault
  and_then out_of_fuel k = out_of_fuel

  infixl 5 ◌>>=◌ ◌>>◌
  abbrev pub ◌>>=◌ {κ μ} : {B : Type κ} {C : Type μ} → Cmd A B → (B → Cmd A C) → Cmd A C
  m >>= k = λ s. and_then (m s) k

  abbrev pub ◌>>◌ {μ} : {C : Type μ} → Cmd A (Unit {0}) → Cmd A C → Cmd A C
  m >> k = m >>= λ _. k

abbrev pub put {κ} : {B : Type κ} → (ℕ → Option B) → ℕ → Option B → ℕ → Option B
put f p v q = if q == p then v else f q

module _ {ℓ} {A : Type ℓ} where
  -- `&*ptr`
  unfoldable pub load : Ptr → Cmd A (Buffer A)
  load p s = elim (s.cell p) [ none ↦ fault | some b ↦ ok b s ]

  -- Writes back a buffer that was loaded from `p`.
  unfoldable pub store : Ptr → Buffer A → Cmd A (Unit {0})
  store p b s = ok tt (record s { cell = put s.cell p (some b) })

  -- `Box::into_raw(Box::new(buffer))`
  unfoldable pub alloc : Buffer A → Cmd A Ptr
  alloc b s = ok s.brk (record s { cell = put s.cell s.brk (some b); brk = suc s.brk })

  -- The memory of the buffer is given back.
  unfoldable pub free : Ptr → Cmd A (Unit {0})
  free p s = elim (s.cell p) [
    | none ↦ fault
    | some b ↦ ok tt (record s { cell = put s.cell p none })
  ]

pub put_self {κ} : {B : Type κ} (f : ℕ → Option B) (p : ℕ) (v : Option B) → put f p v p ≡ v
put_self f p v = rw (==_refl p)

pub put_ne {κ} :
    {B : Type κ} (f : ℕ → Option B) (p q : ℕ) (v : Option B) → (q == p) ≡ false → put f p v q ≡ f q
put_ne f p q v ne = rw ne
