-- ===== src/Io.antt =====
-- Actions that change the world and the memory, and that return a value, fail or panic. What was
-- written before a failure stays written, so the state comes back beside an error too.
use godynamo.Prelude.{ℕ, String, ◌≡◌, refl, ◌==◌, if◌then◌else◌}
use godynamo.Fault
use godynamo.Fault.{Outcome, ok, err, panic, Error, wrap_err}
use godynamo.Reflect.{Struct}

-- A pointer to a struct, by its address.
pub data Pointer : Type 0 where
  null : Pointer
  at : ℕ → Pointer

-- Where the structs are that pointers lead to.
abbrev pub Heap : Type 0
Heap = ℕ → Struct

unfoldable pub store_at : ℕ → Struct → Heap → Heap
store_at p v heap q = if p == q then v else heap q

pub record State (W : Type 0) : Type 0 where
  pub world : W
  pub heap : Heap

abbrev pub Io : Type 0 → Type 0 → Type 0
Io W A = State W → Outcome A × State W

module _ {W A : Type 0} where
  abbrev pub pure : A → Io W A
  pure a s = (ok a, s)

  abbrev pub fail : Error → Io W A
  fail e s = (err e, s)

  abbrev pub lift : Outcome A → Io W A
  lift r s = (r, s)

  -- A call of something outside the package.
  abbrev pub call : (W → Outcome A × W) → Io W A
  call f s = let (r, w) = f s.world in (r, record s { world = w })

  -- A call that cannot fail.
  abbrev pub ask : (W → A × W) → Io W A
  ask f s = let (a, w) = f s.world in (ok a, record s { world = w })

  -- `if err != nil { return ..., fmt.Errorf("message: %w", err) }`
  abbrev pub wrapping : String → Io W A → Io W A
  wrapping m a s = let (r, s') = a s in (wrap_err m r, s')

  -- `if err != nil { return ..., f(err) }`
  abbrev pub map_err : (Error → Error) → Io W A → Io W A
  map_err f a s = let (r, s') = a s in (Fault.map_err f r, s')

module _ {W A B : Type 0} where
  abbrev pub continue : Outcome A → (A → Io W B) → Io W B
  continue (ok a) f s = f a s
  continue (err e) f s = (err e, s)
  continue (panic m) f s = (panic m, s)

  infixl 10 ◌>>=◌ ◌>>◌
  abbrev pub ◌>>=◌ : Io W A → (A → Io W B) → Io W B
  ◌>>=◌ m f s = let (r, s') = m s in continue r f s'

  abbrev pub ◌>>◌ : Io W A → Io W B → Io W B
  m >> k = m >>= λ _. k

module _ {W : Type 0} where
  abbrev pub heap_write : ℕ → Struct → Io W (Unit {0})
  heap_write p v s = (ok tt, record s { heap = store_at p v s.heap })

  abbrev pub heap_read : ℕ → Io W Struct
  heap_read p s = (ok (s.heap p), s)

-- Inversion of a successful bind of a lifted outcome.
module _ {W A B : Type 0} where
  pub continue-eq-ok :
      (o : Outcome A) (f : A → Io W B) (s : State W) {b : B}
      → (continue o f s).0 ≡ ok b
      → (a : A) × (o ≡ ok a) × ((f a s).0 ≡ ok b)
  continue-eq-ok (ok a) f s h = (a, refl, h)
  continue-eq-ok (err e) f s h = cc
  continue-eq-ok (panic m) f s h = cc

  pub continue-eq :
      (o : Outcome A) (f : A → Io W B) (s : State W) {b : B} {s' : State W}
      → continue o f s ≡ (ok b, s')
      → (a : A) × (o ≡ ok a) × (f a s ≡ (ok b, s'))
  continue-eq (ok a) f s h = (a, refl, h)
  continue-eq (err e) f s h = cc
  continue-eq (panic m) f s h = cc
