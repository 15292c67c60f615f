-- ===== src/Dht/Mutex.antt =====
-- std::mutex and std::lock_guard, for one thread. Locking a std::mutex that the calling thread
-- already holds is undefined by the standard; in the usual implementations the thread waits for
-- itself for ever. `Relock` leaves it open: `blocks`, or `passes`, as for a recursive mutex.
use dht_hunter.Base.{Bool, true, false, if◌then◌else◌}

pub data Relock : Type 0 where
  blocks passes : Relock

-- `stuck`: the thread waits for ever. `undefined`: an index outside a vector.
pub data Outcome {ℓ} (A : Type ℓ) : Type ℓ where
  done : A → Outcome A
  stuck undefined : Outcome A

-- A method of an object with state `S`.
abbrev pub Method : Type 0 → Type 0 → Type 0
Method S A = S → Outcome (A × S)

infixl 5 ◌>>=◌
abbrev pub ◌>>=◌ : {S A B : Type 0} → Method S A → (A → Method S B) → Method S B
◌>>=◌ m f s = elim (m s) [ stuck ↦ stuck | undefined ↦ undefined | done (a, s') ↦ f a s' ]

abbrev pub pure : {S A : Type 0} → A → Method S A
pure a s = done (a, s)

abbrev pub branch : {S A : Type 0} → Bool → Method S A → Method S A → Method S A
branch true m k s = m s
branch false m k s = k s

-- Where the object keeps the flag that its mutex is held.
pub record Lockable (S : Type 0) : Type 0 where
  pub held : S → Bool
  pub set_held : Bool → S → S

abbrev pub unlock : {S A : Type 0} → Lockable S → Outcome (A × S) → Outcome (A × S)
unlock l stuck = stuck
unlock l undefined = undefined
unlock l (done (a, s)) = done (a, l.set_held false s)

abbrev pub relock_with : {S A : Type 0} → Relock → Method S A → Method S A
relock_with blocks body s = stuck
relock_with passes body s = body s

-- std::lock_guard<std::mutex> lock(mutex_), and the rest of the method.
abbrev pub guarded : {S A : Type 0} → Lockable S → Relock → Method S A → Method S A
guarded l r body s = if l.held s then relock_with r body s else unlock l (body (l.set_held true s))

-- The state that the method leaves behind has `P`; no index is out of range. `W` is what a method
-- that waits for ever comes to.
abbrev pub Leaves : {S A : Type 0} → Type 0 → (S → Type 0) → Outcome (A × S) → Type 0
Leaves W P stuck = W
Leaves W P undefined = ⊥
Leaves W P (done (a, s)) = P s

abbrev pub Keeps : {S A : Type 0} → (S → Type 0) → Outcome (A × S) → Type 0
Keeps P o = Leaves Unit P o

-- It does return.
abbrev pub Returns : {S A : Type 0} → (S → Type 0) → Outcome (A × S) → Type 0
Returns P o = Leaves ⊥ P o
